-- ===== src/Queue/Group/System.antt =====
-- diskqueue.go: producers that append under the per-op policy, interleaved in any order.
use diskqueue.Base.{◌<◌, ◌||◌, ltb, ℕ, ◌+◌, ◌-◌, ◌≡◌, Bool, true, false, Option, none, some, List}
use diskqueue.Store.State.{Store, Env, Error, staged_bytes, update}
use diskqueue.Store.Action.{M}
use diskqueue.Store.Quiet.{Keeps}
use diskqueue.Queue.Group.{
  syncing, stamping, Leader, Shared, Producer, outside, leading, adding, quiescing, parked, waiting,
  returned, sync_active, data_synced, header_synced, add_pass,
}

pub record System : Type 0 where
  pub shared : Shared
  pub pc : ℕ → Producer

-- The write cursor and the staged bytes.
pub record Marks : Type 0 where
  pub write_off : ℕ
  pub in_flight : ℕ
  pub pending_bytes : ℕ

abbrev pub marks : Store → Marks
marks s = record {
  write_off = s.write_off;
  in_flight = s.in_flight;
  pending_bytes = s.pending_bytes;
}

-- Producer `i` held the lock.
abbrev pub run : ℕ → Producer × Shared → System → System
run i x q = record { shared = x.1; pc = update q.pc i x.0 }

abbrev pub move : ℕ → Producer → System → System
move i p q = run i (p, q.shared) q

-- One stretch of code under the lock. What other goroutines do, `Reader`s, `Sync` and `Close`, is
-- here as far as it meets the producers: an action that leaves the write cursor and the staged bytes
-- alone, a wait for the flush to drain, and `w.closed`, which `Close` sets at any time, a flush in
-- flight or not, before it waits for the flush to drain.
pub data Step (env : Env) (q : System) : System → Type 0 where
  starts :
      (i : ℕ) (payload : List ℕ) (force : Bool)
      → q.pc i ≡ outside
      → Step env q (move i (adding payload force) q)
  adds :
      (i : ℕ) (payload : List ℕ) (force : Bool)
      → q.pc i ≡ adding payload force
      → Step env q (run i (add_pass env i payload force q.shared) q)
  settles :
      (i : ℕ) (payload : List ℕ) (force : Bool) (e : ℕ)
      → q.pc i ≡ quiescing payload force e
      → e < q.shared.drains
      → q.shared.flushing ≡ false
      → staged_bytes q.shared.st ≡ 0
      → Step env q (
          run i
            (adding payload force, record (q.shared) { quiesce_want = q.shared.quiesce_want - 1 })
            q)
  waits_on :
      (i : ℕ) (payload : List ℕ) (force : Bool) (e : ℕ)
      → q.pc i ≡ quiescing payload force e
      → e < q.shared.drains
      → (q.shared.flushing || ltb 0 (staged_bytes q.shared.st)) ≡ true
      → Step env q (move i (quiescing payload force q.shared.drains) q)
  resumes :
      (i : ℕ) (payload : List ℕ) (force : Bool)
      → q.pc i ≡ parked payload force
      → q.shared.quiesce_want ≡ 0
      → Step env q (move i (adding payload force) q)
  syncs_data :
      (l : Leader)
      → q.shared.leader ≡ some l
      → l.phase ≡ syncing
      → q.pc l.thread ≡ leading
      → Step env q (
          run l.thread
            (data_synced env l
              (sync_active env q.shared.st).0
              (record (q.shared) { st = (sync_active env q.shared.st).1 }))
            q)
  syncs_header :
      (l : Leader)
      → q.shared.leader ≡ some l
      → l.phase ≡ stamping
      → q.pc l.thread ≡ leading
      → Step env q (
          run l.thread
            (header_synced env l
              (sync_active env q.shared.st).0
              (record (q.shared) { st = (sync_active env q.shared.st).1 }))
            q)
  wakes :
      (i g end : ℕ) (e : Option Error)
      → q.pc i ≡ waiting g end
      → q.shared.verdicts g ≡ some e
      → Step env q (move i (returned (some end) e) q)
  leaves :
      (i : ℕ) (end : Option ℕ) (e : Option Error)
      → q.pc i ≡ returned end e
      → Step env q (move i outside q)
  holds :
      Step env q
        (record q { shared = record (q.shared) { quiesce_want = q.shared.quiesce_want + 1 } })
  releases :
      q.shared.flushing ≡ false
      → staged_bytes q.shared.st ≡ 0
      → Step env q
          (record q { shared = record (q.shared) { quiesce_want = q.shared.quiesce_want - 1 } })
  consumes :
      (m : M (Unit {0}))
      → Keeps marks m
      → Step env q (record q { shared = record (q.shared) { st = (m q.shared.st).1 } })
  closes : Step env q (record q { shared = record (q.shared) { is_closed = true } })

-- A queue that was opened: nothing is staged, and no producer is inside.
abbrev pub opened : Store → System
opened s = record {
  shared = record {
    st = s;
    is_closed = false;
    flushing = false;
    leader = none;
    cur_group = none;
    next_group = 0;
    verdicts = λ g. none;
    quiesce_want = 0;
    durable = 0;
    drains = 0;
  };
  pc = λ i. outside;
}

pub data Reach (env : Env) (s : Store) : System → Type 0 where
  start : staged_bytes s ≡ 0 → Reach env s (opened s)
  later : {q t : System} → Reach env s q → Step env q t → Reach env s t
