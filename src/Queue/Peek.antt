-- ===== src/Queue/Peek.antt =====
-- reader.go, store.go: peeking consumes nothing.
use diskqueue.Base.{ℕ, ◌≡◌, refl, Bool, Option, none, some, List, Bool-cases, inl, inr}
use diskqueue.Store.State.{Env}
use diskqueue.Store.Action.{M}
use diskqueue.Store.Quiet.{Quiet, view, bind-Keeps, pure-Keeps, fail-Keeps}
use diskqueue.Store.Quiet.Reads.{peek_head-Quiet}
use diskqueue.Queue.Reader.{Queue, locked, value_of, decoded, try_peek}

-- Under the lock, an action that leaves contents and cursors alone leaves the queue's alone.
locked-Quiet :
    {A : Type 0} (m : M A) (q : Queue)
    → Quiet m
    → (view (locked m q).1.st ≡ view q.st) × ((locked m q).1.is_closed ≡ q.is_closed)
locked-Quiet m q k = elim (Bool-cases q.is_closed) [
  | inl shut ↦ rw shut (refl, refl)
  | inr live ↦ rw live (k.at q.st, refl)
]

module _ {V : Type 0} (env : Env) (stamp : Bool) (unmarshal : List ℕ → Option V) where
  decoded-Quiet : (v : Option V) → Quiet (decoded v)
  unfolding decoded
  decoded-Quiet none = fail-Keeps _
  decoded-Quiet (some v) = pure-Keeps (some v)

  -- Peeking is a read, whatever the outcome of its calls to the file system, and whether it returns
  -- a value, nothing or an error: all cursors, counts, reservations, pending reports of the queue and
  -- the extents of its segments are as they were, and the queue is as closed as it was.
  pub view-try_peek :
      (q : Queue)
      → let q' = (try_peek env stamp unmarshal q).1 in
        (view q'.st ≡ view q.st) × (q'.is_closed ≡ q.is_closed)
  unfolding try_peek
  view-try_peek q = locked-Quiet _ q (
      bind-Keeps _ _ (peek_head-Quiet env) (elim [
        | none ↦ pure-Keeps none
        | some payload ↦ decoded-Quiet (value_of env stamp unmarshal payload)
      ]))
