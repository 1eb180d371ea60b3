-- ===== src/Queue/Group.antt =====
-- diskqueue.go: group commit, the per-op append of `addDurableLocked` and `leadFlushLocked`. Each
-- stretch of code between two releases of the queue's lock is one function here.
pub mod System
pub mod Marks
pub mod Invariant
pub mod Moves
pub mod Staging
pub mod Open
pub mod Spans
pub mod Passes
pub mod Safety
pub mod Heirs
pub mod Drains
pub mod Woken
pub mod Progress
use diskqueue.Base.{
  ℕ, ◌+◌, ◌-◌, Bool, true, false, ◌||◌, Option, none, some, List, ltb, if◌then◌else◌, length,
}
use diskqueue.Frame.{framed_len}
use diskqueue.Store.State.{Store, Env, Error, sentinel, closed, staged_bytes, update}
use diskqueue.Store.Action.{M, Result, ok, err, ◌>>=◌}
use diskqueue.Store.Os.{os_touch}
use diskqueue.Store.Files.{latch}
use diskqueue.Store.Append.{
  admit_record, needs_cycle, cycle_counted, stage_pending, take_span, discard_staged, publish_span,
  active_file,
}

-- Which fsync the leader waits for with the lock released: of the span's data, or of the header.
pub data Phase : Type 0 where
  syncing stamping : Phase

-- The locals of the leader, `thread`: the group of its span, and its own verdict once the first span
-- has one. `end` is the offset behind the leader's own record.
pub record Leader : Type 0 where
  pub thread : ℕ
  pub phase : Phase
  pub group : Option ℕ
  pub mine : Option (Option Error)
  pub end : ℕ

-- What the lock guards. A flush group is a number, `verdicts` holds the `err` of the groups whose
-- `done` is closed. `durable` is no field of the code: the end of what the last header fsync covered.
-- `drains` counts the calls of `signalFlushDrained`: the channel `flushDrained` of a wait that began
-- after `e` of them is closed by the next.
pub record Shared : Type 0 where
  pub st : Store
  pub is_closed : Bool
  pub flushing : Bool
  pub leader : Option Leader
  pub cur_group : Option ℕ
  pub next_group : ℕ
  pub verdicts : ℕ → Option (Option Error)
  pub quiesce_want : ℕ
  pub durable : ℕ
  pub drains : ℕ

-- Where a producer stands: at the head of the loop, in one of the two waits of the loop, at the
-- `done` of a group with its record up to an offset, leading, or back with an error, or none, for
-- the record up to an offset, if it was staged.
pub data Producer : Type 0 where
  outside leading : Producer
  adding parked : List ℕ → Bool → Producer
  quiescing : List ℕ → Bool → ℕ → Producer
  waiting : ℕ → ℕ → Producer
  returned : Option ℕ → Option Error → Producer

-- The end of what is staged.
abbrev pub staged_end : Store → ℕ
staged_end s = s.write_off + s.in_flight + s.pending_bytes

abbrev pub close_group :
    Option ℕ → Option Error → (ℕ → Option (Option Error)) → ℕ → Option (Option Error)
close_group none e v = v
close_group (some g) e v = update v g (some e)

-- `if first { mine = err }`.
abbrev pub own : Option (Option Error) → Option Error → Option Error
own none e = e
own (some m) e = m

abbrev pub latched_error : Result Error → Error
latched_error (ok first) = first
latched_error (err e) = e

-- The head of `leadFlushLocked`'s loop: the group and the span are taken.
unfoldable pub start_span : ℕ → Option (Option Error) → ℕ → Shared → Shared
start_span i mine end sh = record sh {
  st = (take_span sh.st).1;
  leader =
      some (record { thread = i; phase = syncing; group = sh.cur_group; mine = mine; end = end });
  cur_group = none;
}

-- Behind a span that was flushed: another one if a group waits for it.
unfoldable pub finish_next : Leader → Option ℕ → Shared → Producer × Shared
finish_next l none sh = (
  returned (some l.end) (own l.mine none),
  record sh { flushing = false; leader = none; drains = sh.drains + 1 },
)
finish_next l (some g) sh = (leading, start_span l.thread (some (own l.mine none)) l.end sh)

-- The end of the loop's body, from the verdict of the span on. A failure fails the group that waits
-- for the next span as well.
unfoldable pub finish : Leader → Option Error → Shared → Producer × Shared
finish l (some e) sh = (
  returned (some l.end) (own l.mine (some e)),
  record sh {
    st = (discard_staged sh.st).1;
    flushing = false;
    leader = none;
    drains = sh.drains + 1;
    cur_group = none;
    verdicts = close_group sh.cur_group (some e) (close_group l.group (some e) sh.verdicts);
  },
)
finish l none sh =
    finish_next l sh.cur_group (record sh { verdicts = close_group l.group none sh.verdicts })

-- `st.failIO(err)`, and the span failed.
unfoldable pub fail_span : Leader → Error → Shared → Producer × Shared
fail_span l e sh =
    let (r, t) = latch e sh.st in finish l (some (latched_error r)) (record sh { st = t })

unfoldable pub published : Leader → Result (Unit {0}) → Shared → Producer × Shared
published l (ok _) sh = (leading, record sh { leader = some (record l { phase = stamping }) })
published l (err e) sh = finish l (some e) sh

-- A record that is staged joins the group of the next span.
unfoldable pub join_group : Option ℕ → Shared → Producer × Shared
join_group (some g) sh = (waiting g (staged_end sh.st), sh)
join_group none sh = (
  waiting sh.next_group (staged_end sh.st),
  record sh { cur_group = some sh.next_group; next_group = sh.next_group + 1 },
)

-- The end of `addDurableLocked`: a leader runs, or the producer becomes the leader.
unfoldable pub staged_record : ℕ → Bool → Shared → Producer × Shared
staged_record i true sh = join_group sh.cur_group sh
staged_record i false sh =
    (leading, start_span i none (staged_end sh.st) (record sh { flushing = true }))

unfoldable pub staged_with : ℕ → Result (Unit {0}) → Shared → Producer × Shared
staged_with i (ok _) sh = staged_record i sh.flushing sh
staged_with i (err e) sh = (returned none (some e), sh)

unfoldable pub cycled_with : List ℕ → Bool → Result (Unit {0}) → Shared → Producer × Shared
cycled_with payload force (ok _) sh = (adding payload force, sh)
cycled_with payload force (err e) sh = (returned none (some e), sh)

module _ (env : Env) where
  -- `datasync(f)` on the active file.
  unfoldable pub sync_active : M (Unit {0})
  sync_active = do af ← active_file; os_touch env af

  -- The data fsync came back: discard, or publish.
  unfoldable pub data_synced : Leader → Result (Unit {0}) → Shared → Producer × Shared
  data_synced l (err e) sh = fail_span l e (record sh { st = (discard_staged sh.st).1 })
  data_synced l (ok _) sh = elim sh.st.io_err [
    | some e ↦ fail_span l e (record sh { st = (discard_staged sh.st).1 })
    | none ↦ let (r, t) = publish_span env sh.st in published l r (record sh { st = t })
  ]

  -- The header fsync came back.
  unfoldable pub header_synced : Leader → Result (Unit {0}) → Shared → Producer × Shared
  header_synced l (err e) sh = fail_span l e sh
  header_synced l (ok _) sh = finish l sh.st.io_err (record sh { durable = sh.st.write_off })

  -- Behind the admission: wait for the flush, cycle and start over, or stage.
  unfoldable pub make_room : ℕ → List ℕ → Bool → Shared → Producer × Shared
  make_room i payload force sh =
      if needs_cycle (framed_len (length payload)) sh.st
      then (if sh.flushing || ltb 0 (staged_bytes sh.st)
          then (quiescing payload force sh.drains, record sh { quiesce_want = sh.quiesce_want + 1 })
          else (let (r, t) = cycle_counted env (framed_len (length payload)) force sh.st in
              cycled_with payload force r (record sh { st = t })))
      else (let (r, t) = stage_pending env payload sh.st in staged_with i r (record sh { st = t }))

  unfoldable pub admitted_with : ℕ → List ℕ → Bool → Result (Unit {0}) → Shared → Producer × Shared
  admitted_with i payload force (ok _) sh = make_room i payload force sh
  admitted_with i payload force (err e) sh = (returned none (some e), sh)

  -- One pass of the loop of `addDurableLocked` by producer `i`. Behind a cycle the code holds on to
  -- the lock for the next pass; here another step may come between.
  unfoldable pub add_pass : ℕ → List ℕ → Bool → Shared → Producer × Shared
  add_pass i payload force sh =
      if sh.is_closed then (returned none (some (sentinel closed)), sh) else elim sh.st.io_err [
        | some e ↦ (returned none (some e), sh)
        | none ↦
            if ltb 0 sh.quiesce_want
            then (parked payload force, sh)
            else (let (r, t) = admit_record (framed_len (length payload)) force sh.st in
                admitted_with i payload force r (record sh { st = t }))
      ]
