-- ===== src/Queue/Reader.antt =====
-- reader.go: the consuming operations. `unmarshal` is the caller's UnmarshalFunc, `none` its error;
-- `stamp` says that each payload begins with an 8-byte stamp (Options.StampRecords). What a Reader
-- keeps for its own reports (`lastBytes`, `lastAge`, the scratch buffer) is not modelled.
use diskqueue.Base.{
  ℕ, Bool, true, false, not, ◌||◌, Option, none, some, List, [], ◌∷◌, ltb, leb, if◌then◌else◌,
  length, drop,
}
use diskqueue.Store.State.{Store, Env, Error, sentinel, closed, codec, invalid_offset}
use diskqueue.Store.Action.{
  M, Result, ok, err, ◌>>=◌, ◌>>◌, pure, fail, gets, modify, attempt, check_io,
}
use diskqueue.Store.Append.{append_record}
use diskqueue.Store.Ledger.{track_reserve, drop_retired, find_reserved, mark_acked}
use diskqueue.Store.Walk.{commit_durable}
use diskqueue.Store.Consume.{
  take_head, peek_head, rewind_head, rewind_to_commit, retire_frame, ack_to, commit_acked_run,
}
use diskqueue.Queue.Batch.{error_of}

pub record Queue : Type 0 where
  pub st : Store
  pub is_closed : Bool

-- A method under the lock: `ErrClosed` once the queue is closed.
abbrev pub locked : {A : Type 0} → M A → Queue → Result A × Queue
locked m q =
    if q.is_closed
    then (err (sentinel closed), q)
    else let (r, s) = m q.st in (r, record q { st = s })

-- `stampLen`.
abbrev pub stamp_len : ℕ
stamp_len = 8

-- The error that an outcome of the ledger stands for.
abbrev pub found_or_invalid : Bool → M (Unit {0})
found_or_invalid b = if b then pure tt else fail (sentinel invalid_offset)

-- One offset of `AckBatch` against the read cursor: the new ledger, and whether it is invalid.
unfoldable pub mark_offset : ℕ → M Bool
mark_offset off = do
  s ← gets (λ s. s)
  if ltb s.head_off off
      then pure true
      else (if leb off s.commit_off then pure false else elim (find_reserved off s.reserved) [
        | none ↦ pure true
        | some i ↦ (do modify (λ s. record s { reserved = mark_acked i s.reserved }); pure false)
      ])

unfoldable pub mark_offsets : List ℕ → M Bool
mark_offsets [] = pure false
mark_offsets (o ∷ os) = do bad ← mark_offset o; more ← mark_offsets os; pure (bad || more)

-- What `TryPeek` makes of a payload's value.
unfoldable pub decoded : {V : Type 0} → Option V → M (Option V)
decoded none = fail (sentinel codec)
decoded (some v) = pure (some v)

module _ {V : Type 0} (env : Env) (stamp : Bool) (unmarshal : List ℕ → Option V) where
  -- The value of a payload: a payload shorter than its stamp is an error of the codec.
  unfoldable pub value_of : List ℕ → Option V
  value_of payload =
      if stamp
      then if ltb (length payload) stamp_len then none else unmarshal (drop stamp_len payload)
      else unmarshal payload

  -- `Reader.read`: what the codec rejects is left at the head.
  unfoldable pub read_value : M (Option (V × ℕ))
  read_value = do
    start ← gets (λ s. s.head_off)
    taken ← take_head env
    elim taken [
      | none ↦ pure none
      | some (payload, off) ↦ elim (value_of payload) [
        | none ↦ (do rewind_head start; fail (sentinel codec))
        | some v ↦ pure (some (v, off))
      ]
    ]

  unfoldable pub try_peek : Queue → Result (Option V) × Queue
  try_peek = locked (do
    r ← peek_head env
    elim r [ none ↦ pure none | some payload ↦ decoded (value_of payload) ])

  unfoldable pub try_reserve : Queue → Result (Option (V × ℕ)) × Queue
  try_reserve = locked (do
    r ← read_value
    elim r [ none ↦ pure none | some (v, off) ↦ (do track_reserve; pure (some (v, off))) ])

  -- The value stands also where its commit failed, with the error of the commit.
  unfoldable pub try_take : Queue → Result (Option (V × Option Error)) × Queue
  try_take = locked (do
    r ← read_value
    elim r [
      | none ↦ pure none
      | some (v, off) ↦ (do c ← attempt (commit_durable env off true); pure (some (v, error_of c)))
    ])

module _ (env : Env) where
  unfoldable pub commit : ℕ → Queue → Result (Unit {0}) × Queue
  commit offset = locked (do
    head ← gets (λ s. s.head_off)
    if ltb head offset then fail (sentinel invalid_offset) else commit_durable env offset true)

  unfoldable pub ack : ℕ → Queue → Result (Unit {0}) × Queue
  ack offset = locked (do
    head ← gets (λ s. s.head_off)
    if ltb head offset
        then fail (sentinel invalid_offset)
        else (do found ← ack_to env offset; found_or_invalid found))

  unfoldable pub ack_batch : List ℕ → Queue → Result (Unit {0}) × Queue
  ack_batch offsets = locked (do
    check_io
    drop_retired
    bad ← mark_offsets offsets
    commit_acked_run env true
    found_or_invalid (not bad))

  -- The answer is whether a record was skipped, with the error of its retirement.
  unfoldable pub skip : Queue → Result (Option (Option Error)) × Queue
  skip = locked (do
    taken ← take_head env
    elim taken [
      | none ↦ pure none
      | some _ ↦ (do
        s ← gets (λ s. s)
        c ← attempt (retire_frame env s.last_frame_at s.last_frame_end true)
        pure (some (error_of c)))
    ])

  -- `Requeue` behind its quiesce: nothing is staged and no flush runs.
  unfoldable pub requeue : Queue → Result (Option (Option Error)) × Queue
  requeue = locked (do
    start ← gets (λ s. s.head_off)
    taken ← take_head env
    elim taken [
      | none ↦ pure none
      | some (payload, _) ↦ (do
        s ← gets (λ s. s)
        a ← attempt (append_record env payload true)
        elim a [
          | err e ↦ (do rewind_head start; fail e)
          | ok _ ↦ (do
            c ← attempt (retire_frame env s.last_frame_at s.last_frame_end true)
            pure (some (error_of c)))
        ])
    ])

-- `Queue.Rewind`: the bytes made readable.
unfoldable pub rewind : Queue → Result ℕ × Queue
rewind = locked rewind_to_commit
