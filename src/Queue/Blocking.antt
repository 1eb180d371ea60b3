-- ===== src/Queue/Blocking.antt =====
-- reader.go, diskqueue.go: the blocking `Reserve` and `Take`. A goroutine that waits in `waitLocked`
-- is woken by what the other goroutines did to the queue meanwhile, or its context is done; the list
-- of wake-ups is handed in.
use mathlib.Core.Path.{fun_ext}
use diskqueue.Base.{
  ℕ, ◌≡◌, refl, ap, ◌∙◌, Bool, true, false, Option, none, some, List, [], ◌∷◌, if◌then◌else◌,
}
use diskqueue.Store.State.{Store, Env, Error, sentinel, closed}
use diskqueue.Store.Action.{M, Result, ok, err, ◌>>=◌, ◌>>◌, pure, attempt}
use diskqueue.Store.Ledger.{track_reserve, drop_retired, push_reserved}
use diskqueue.Store.Walk.{commit_durable}
use diskqueue.Queue.Batch.{error_of}
use diskqueue.Queue.Reader.{Queue, read_value, try_reserve, try_take}

-- How `waitLocked` ends: the other goroutines left the queue so, or the context's error.
pub data Wake : Type 0 where
  woken : (Queue → Queue) → Wake
  done : Error → Wake

-- What a blocking call has come to when its wake-ups are used up.
pub data Blocked (A : Type 0) : Type 0 where
  returned : Result A → Blocked A
  parked : Blocked A

module _ {A : Type 0} where
  -- `waitLocked`, and the loop behind it.
  unfoldable pub wait_locked : Wake → (Queue → Blocked A × Queue) → Queue → Blocked A × Queue
  wait_locked (woken f) loop q = loop (f q)
  wait_locked (done e) loop q = (returned (err e), q)

  abbrev pub stay_parked : Queue → Blocked A × Queue
  stay_parked q = (parked, q)

module _ {V : Type 0} (env : Env) (stamp : Bool) (unmarshal : List ℕ → Option V) where
  -- One pass of the loop of `Reserve`; `wait` is what an empty queue leads to.
  unfoldable pub reserve_read :
      (Queue → Blocked (V × ℕ) × Queue)
      → Queue
      → Result (Option (V × ℕ))
      → Store
      → Blocked (V × ℕ) × Queue
  reserve_read wait q (err e) s = (returned (err e), record q { st = s })
  reserve_read wait q (ok (some (v, off))) s =
      (returned (ok (v, off)), record q { st = (track_reserve s).1 })
  reserve_read wait q (ok none) s = wait (record q { st = s })

  unfoldable pub reserve_pass : (Queue → Blocked (V × ℕ) × Queue) → Queue → Blocked (V × ℕ) × Queue
  reserve_pass wait q =
      if q.is_closed
      then (returned (err (sentinel closed)), q)
      else let (r, s) = read_value env stamp unmarshal q.st in reserve_read wait q r s

  -- `Reserve`.
  unfoldable pub reserve : List Wake → Queue → Blocked (V × ℕ) × Queue
  reserve [] q = reserve_pass stay_parked q
  reserve (w ∷ ws) q = reserve_pass (wait_locked w (reserve ws)) q

  -- One pass of the loop of `Take`: the value stands also where its commit failed.
  unfoldable pub take_read :
      (Queue → Blocked (V × Option Error) × Queue)
      → Queue
      → Result (Option (V × ℕ))
      → Store
      → Blocked (V × Option Error) × Queue
  take_read wait q (err e) s = (returned (err e), record q { st = s })
  take_read wait q (ok (some (v, off))) s =
      let (c, t) = commit_durable env off true s in
      (returned (ok (v, error_of c)), record q { st = t })
  take_read wait q (ok none) s = wait (record q { st = s })

  unfoldable pub take_pass :
      (Queue → Blocked (V × Option Error) × Queue) → Queue → Blocked (V × Option Error) × Queue
  take_pass wait q =
      if q.is_closed
      then (returned (err (sentinel closed)), q)
      else let (r, s) = read_value env stamp unmarshal q.st in take_read wait q r s

  -- `Take`.
  unfoldable pub take_blocking : List Wake → Queue → Blocked (V × Option Error) × Queue
  take_blocking [] q = take_pass stay_parked q
  take_blocking (w ∷ ws) q = take_pass (wait_locked w (take_blocking ws)) q

-- A call that does not block, repeated at each wake-up until it finds something or fails.
module _ {A : Type 0} (try : Queue → Result (Option A) × Queue) where
  abbrev found : (Queue → Blocked A × Queue) → Result (Option A) × Queue → Blocked A × Queue
  found wait (err e, q) = (returned (err e), q)
  found wait (ok (some a), q) = (returned (ok a), q)
  found wait (ok none, q) = wait q

  pub polled : List Wake → Queue → Blocked A × Queue
  polled [] q = found stay_parked (try q)
  polled (w ∷ ws) q = found (wait_locked w (polled ws)) (try q)

module _ {V : Type 0} (env : Env) (stamp : Bool) (unmarshal : List ℕ → Option V) where
  reserved : Option (V × ℕ) → M (Option (V × ℕ))
  reserved r = elim r [
    | none ↦ pure none
    | some (v, off) ↦ (do track_reserve; pure (some (v, off)))
  ]

  taken : Option (V × ℕ) → M (Option (V × Option Error))
  taken r = elim r [
    | none ↦ pure none
    | some (v, off) ↦ (do c ← attempt (commit_durable env off true); pure (some (v, error_of c)))
  ]

  -- The call under the lock, for what the read answered.
  locked_read :
      {A : Type 0}
      → (Option (V × ℕ) → M (Option A))
      → Bool
      → Queue
      → Result (Option (V × ℕ))
      → Store
      → Result (Option A) × Queue
  locked_read k b q r s =
      if b
      then (err (sentinel closed), q)
      else let (r', s') = ((λ t. (r, s)) >>= k) q.st in (r', record q { st = s' })

  reserve_read-found :
      (wait : Queue → Blocked (V × ℕ) × Queue) (q : Queue) (b : Bool) (r : Result (Option (V × ℕ)))
      (s : Store)
      → (if b
          then (returned (err (sentinel closed)), q)
          else reserve_read env stamp unmarshal wait q r s)
        ≡ found (try_reserve env stamp unmarshal) wait (locked_read reserved b q r s)
  unfolding locked_read reserved reserve_read ◌>>=◌ track_reserve drop_retired push_reserved
  reserve_read-found wait q true r s = refl
  reserve_read-found wait q false (err e) s = refl
  reserve_read-found wait q false (ok none) s = refl
  reserve_read-found wait q false (ok (some (v, off))) s = refl

  reserve_pass-found :
      (wait : Queue → Blocked (V × ℕ) × Queue) (q : Queue)
      → reserve_pass env stamp unmarshal wait q
        ≡ found (try_reserve env stamp unmarshal) wait (try_reserve env stamp unmarshal q)
  unfolding reserve_pass try_reserve locked_read reserved ◌>>=◌
  reserve_pass-found wait q = reserve_read-found wait q q.is_closed _ _

  take_read-found :
      (wait : Queue → Blocked (V × Option Error) × Queue) (q : Queue) (b : Bool)
      (r : Result (Option (V × ℕ))) (s : Store)
      → (if b
          then (returned (err (sentinel closed)), q)
          else take_read env stamp unmarshal wait q r s)
        ≡ found (try_take env stamp unmarshal) wait (locked_read taken b q r s)
  unfolding locked_read taken take_read ◌>>=◌ attempt
  take_read-found wait q true r s = refl
  take_read-found wait q false (err e) s = refl
  take_read-found wait q false (ok none) s = refl
  take_read-found wait q false (ok (some (v, off))) s = refl

  take_pass-found :
      (wait : Queue → Blocked (V × Option Error) × Queue) (q : Queue)
      → take_pass env stamp unmarshal wait q
        ≡ found (try_take env stamp unmarshal) wait (try_take env stamp unmarshal q)
  unfolding take_pass try_take locked_read taken ◌>>=◌
  take_pass-found wait q = take_read-found wait q q.is_closed _ _

  reserve_polls :
      (ws : List Wake)
      → reserve env stamp unmarshal ws ≡ polled (try_reserve env stamp unmarshal) ws
  unfolding reserve polled
  reserve_polls [] = fun_ext (λ q. reserve_pass-found stay_parked q)
  reserve_polls (w ∷ ws) = fun_ext (λ q.
      reserve_pass-found (wait_locked w (reserve env stamp unmarshal ws)) q
      ∙ ap
          (λ loop.
            found (try_reserve env stamp unmarshal) (wait_locked w loop)
              (try_reserve env stamp unmarshal q))
          (reserve_polls ws))

  take_polls :
      (ws : List Wake)
      → take_blocking env stamp unmarshal ws ≡ polled (try_take env stamp unmarshal) ws
  unfolding take_blocking polled
  take_polls [] = fun_ext (λ q. take_pass-found stay_parked q)
  take_polls (w ∷ ws) = fun_ext (λ q.
      take_pass-found (wait_locked w (take_blocking env stamp unmarshal ws)) q
      ∙ ap
          (λ loop.
            found (try_take env stamp unmarshal) (wait_locked w loop)
              (try_take env stamp unmarshal q))
          (take_polls ws))

-- A blocking `Reserve` and a blocking `Take` are `TryReserve` and `TryTake`, repeated at each wake-up
-- while they find the queue empty: with the same answer, the same queue left behind and the same end
-- when the queue is closed or the context done, whatever wakes the caller.
pub blocking-polled :
    {V : Type 0} (env : Env) (stamp : Bool) (unmarshal : List ℕ → Option V) (ws : List Wake)
    (q : Queue)
    → (reserve env stamp unmarshal ws q ≡ polled (try_reserve env stamp unmarshal) ws q)
      × (take_blocking env stamp unmarshal ws q ≡ polled (try_take env stamp unmarshal) ws q)
blocking-polled env stamp unmarshal ws q = (
  ap (λ f. f q) (reserve_polls env stamp unmarshal ws),
  ap (λ f. f q) (take_polls env stamp unmarshal ws),
)
