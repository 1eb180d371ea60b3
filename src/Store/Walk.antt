-- ===== src/Store/Walk.antt =====
-- store.go: `commitDurable`, the walk of the commit cursor to an offset.
use Prim.Native.Nat.{min, max}
pub mod Skip
pub mod Progress
pub mod Ends
use diskqueue.Base.{
  ℕ, zero, suc, ◌+◌, ◌-◌, Bool, not, ◌&&◌, ◌||◌, Option, none, some, List, [], ◌∷◌, ◌==◌, ltb, leb,
  if◌then◌else◌, get_elem?, drop,
}
use diskqueue.Store.State.{
  Store, Reservation, Env, Error, sentinel, join, errors_is, corrupt, not_exist, active, per_op,
  batched,
}
use diskqueue.Store.Action.{
  M, Result, ok, err, ◌>>=◌, ◌>>◌, pure, fail, gets, modify, attempt, when, check_io,
}
use diskqueue.Store.Files.{change_file, ensure_open, record_ops}
use diskqueue.Store.Segments.{drop_committed, file_for_offset}
use diskqueue.Store.Block.{frame_end}
use diskqueue.Store.Commit.{abandon, skip_corrupt_segment, persist_commit}

-- The variables of the loop: `cur`, the file with header changes not yet written out; `index`, the
-- position in the ledger; `carried`, the file of the last round.
pub record Walk : Type 0 where
  pub cur : Option ℕ
  pub index : ℕ
  pub carried : Option ℕ

-- A round ends the loop, with the error of `stop`, or goes on.
pub data Round : Type 0 where
  halt : Option ℕ → Option Error → Round
  go_on : Walk → Round

-- How many entries from the front end at or before the cursor.
abbrev pub passed : ℕ → List Reservation → ℕ
passed commit [] = 0
passed commit (r ∷ rs) = let more = suc (passed commit rs) in if leb r.end commit then more else 0

-- The carried file while the cursor is inside it, or the file at the cursor.
unfoldable pub file_at_cursor : Option ℕ → Store → Option ℕ
file_at_cursor none s = file_for_offset s.commit_off s
file_at_cursor (some n) s =
    if ltb s.commit_off (s.heap n).base || leb ((s.heap n).base + (s.heap n).size) s.commit_off
    then file_for_offset s.commit_off s
    else some n

-- The ledger's entry that starts at the cursor, from position `index` on.
unfoldable pub entry_at_cursor : ℕ → Store → Option Reservation
entry_at_cursor index s = elim (get_elem? s.reserved index) [
  | none ↦ none
  | some r ↦ if r.start == s.commit_off then some r else none
]

-- The boundary may only lie ahead of the cursor and not past the tail.
abbrev pub checked : Store → Result (Option ℕ) → Result (Option ℕ)
checked s (err e) = err e
checked s (ok none) = ok none
checked s (ok (some next)) =
    if leb next s.commit_off || ltb s.write_off next then ok none else ok (some next)

-- An open that failed for another reason than a vanished file: retry later.
abbrev pub hard_failure : Result (Unit {0}) → Option Error
hard_failure (ok _) = none
hard_failure (err e) = if errors_is e not_exist then none else some e

-- The latched error, if there is one, or the open's.
abbrev pub open_failure : Option Error → Result (Unit {0}) → Option Error
open_failure (some e) r = some e
open_failure none r = hard_failure r

module _ (env : Env) (off : ℕ) (per_op : Bool) where
  -- Leaving a file: its header is written out now.
  unfoldable pub leave : Option ℕ → ℕ → M (Result (Option ℕ))
  leave none num = pure (ok none)
  leave (some p) num = if p == num then pure (ok (some p)) else (do
    r ← attempt (persist_commit env p per_op)
    elim r [ ok _ ↦ pure (ok none) | err e ↦ pure (err e) ])

  -- Retiring exactly the extent of a damage that was reported already.
  unfoldable pub retire_damage : Walk → ℕ → Reservation → M Round
  retire_damage w num r = if ltb off r.end then pure (halt w.cur none) else (do
    df ← gets (λ s. s.heap num)
    modify (λ s. record s { commit_off = r.end })
    abandon num (r.written - df.committed)
    change_file num (λ t. record t { committed = t.committed + (r.written - df.committed) })
    pure (go_on (record { cur = some num; index = w.index; carried = some num })))

  -- No decodable record stands at the cursor.
  unfoldable pub meet_damage : Walk → ℕ → Error → M Round
  meet_damage w num e = do
    s ← gets (λ s. s)
    if not (errors_is e corrupt) || ltb off ((s.heap num).base + (s.heap num).size)
        then pure (halt w.cur (some e))
        else (do
          r ← attempt (skip_corrupt_segment env s.commit_off)
          elim r [
            | err serr ↦ pure (halt w.cur (some serr))
            | ok _ ↦ (do
              modify (λ s. record s { pending_corrupt = s.pending_corrupt + 1 })
              pure (go_on (record { cur = none; index = w.index; carried = some num })))
          ])

  -- The record at the cursor ends at `next`.
  unfoldable pub retire_record : Walk → ℕ → ℕ → M Round
  retire_record w num next = if ltb off next then pure (halt w.cur none) else (do
    modify (λ s. record s {
      commit_off = next;
      n_committed = s.n_committed + 1;
      n_committed_total = s.n_committed_total + 1;
    })
    change_file num (λ t. record t { committed = t.committed + 1 })
    pure (go_on (record { cur = some num; index = w.index; carried = some num })))

  -- The boundary of the record at the cursor, from the bytes or, if they vanished, the ledger.
  unfoldable pub boundary : ℕ → Option Reservation → Result (Unit {0}) → M (Result (Option ℕ))
  boundary num entry (ok _) = do s ← gets (λ s. s); attempt (frame_end env num s.commit_off)
  boundary num (some r) (err e) = pure (ok (some r.end))
  boundary num none (err e) = pure (err (join (sentinel corrupt) e))

  -- What the boundary found decides.
  unfoldable pub judged : Walk → ℕ → Result (Option ℕ) → M Round
  judged w num (err e) = meet_damage w num e
  judged w num (ok none) = meet_damage w num (sentinel corrupt)
  judged w num (ok (some next)) = retire_record w num next

  unfoldable pub examine_open :
      Walk → ℕ → Option Reservation → Result (Unit {0}) → Option Error → M Round
  examine_open w num entry opened (some e) = pure (halt w.cur (some e))
  examine_open w num entry opened none = do
    b ← boundary num entry opened
    t ← gets (λ t. t)
    judged w num (checked t b)

  unfoldable pub examine : Walk → ℕ → Option Reservation → M Round
  examine w num entry = do
    opened ← attempt (ensure_open env num)
    s ← gets (λ s. s)
    examine_open w num entry opened (open_failure s.io_err opened)

  -- An entry for a damage that was reported is retired as such.
  unfoldable pub meet_entry : Walk → ℕ → Option Reservation → M Round
  meet_entry w num none = examine w num none
  meet_entry w num (some r) = if r.corrupt then retire_damage w num r else examine w num (some r)

  unfoldable pub at_file : Walk → ℕ → M Round
  at_file w num = do
    left ← leave w.cur num
    elim left [
      | err e ↦ pure (halt none (some e))
      | ok cur ↦ (do
        s ← gets (λ s. s)
        let index = w.index + passed s.commit_off (drop w.index s.reserved)
        let w' : Walk = record { cur = cur; index = index; carried = some num }
        meet_entry w' num (entry_at_cursor index s))
    ]

  unfoldable pub in_file : Walk → Option ℕ → M Round
  in_file w none = pure (halt w.cur (some (sentinel corrupt)))
  in_file w (some num) = at_file w num

  -- One round of the loop.
  unfoldable pub round : Walk → M Round
  round w = do
    s ← gets (λ s. s)
    if leb off s.commit_off then pure (halt w.cur none) else in_file w (file_at_cursor w.carried s)

  -- The loop. `none` is no end of the code: the fuel ran out.
  unfoldable pub walk_loop : ℕ → Walk → M (Option (Option ℕ × Option Error))
  walk_loop zero w = pure none
  walk_loop (suc fuel) w = do
    r ← round w
    elim r [ halt cur stop ↦ pure (some (cur, stop)) | go_on w' ↦ walk_loop fuel w' ]

-- The first error is kept.
abbrev pub or_else : Option Error → Result (Unit {0}) → Option Error
or_else (some e) r = some e
or_else none (ok _) = none
or_else none (err e) = some e

abbrev pub answer : Option Error → M (Unit {0})
answer none = pure tt
answer (some e) = fail e

-- The start of the loop.
abbrev pub start_walk : Walk
start_walk = record { cur = none; index = 0; carried = none }

module _ (env : Env) where
  -- Behind the loop: the last header, the sync policy, the read cursor, and reclamation.
  unfoldable pub finish_commit : ℕ → Bool → Bool → Option ℕ → Option Error → M (Unit {0})
  finish_commit before durable per_op cur stop = do
    r ← attempt (elim cur [ none ↦ pure tt | some n ↦ persist_commit env n per_op ])
    let stop' = or_else stop r
    now ← gets (λ s. s.commit_off)
    if now == before then answer stop' else (do
      batched ← gets batched
      r' ← attempt (when (durable && batched) (record_ops env 1))
      modify (λ s. record s { head_off = max s.head_off s.commit_off })
      keep ← gets active
      drop_committed env keep
      answer (or_else stop' r'))

  -- `commitDurable`; `commitTo` is it at `durable = true`. The fuel is a round for each byte up to
  -- the target, and one more.
  unfoldable pub commit_durable : ℕ → Bool → M (Unit {0})
  commit_durable off durable = do
    check_io
    s ← gets (λ s. s)
    if leb off s.commit_off then pure tt else (do
      let target = min off s.write_off
      let per_op' = durable && per_op s
      ended ← walk_loop env target per_op' (suc (target - s.commit_off)) start_walk
      elim ended [
        | none ↦ pure tt
        | some (cur, stop) ↦ finish_commit s.commit_off durable per_op' cur stop
      ])
