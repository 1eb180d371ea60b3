-- ===== src/Store/Consume/Take.antt =====
-- store.go: taking the head hands over what peeking shows.
use diskqueue.Base.{
  ℕ, ◌+◌, ◌≡◌, refl, ap, ◌∙◌, Bool, true, false, Option, none, some, List, ◌==◌, ltb, arith,
  if◌then◌else◌,
}
use diskqueue.Store.State.{Store, Env, sentinel, corrupt}
use diskqueue.Store.Action.{M, Result, ok, err, ◌>>=◌, pure, fail, attempt}
use diskqueue.Store.Consume.{read, shown, taken, peek_head, take_head, take_record, take_damaged}

-- The store once the record at the head, which ends at `next`, is handed over.
abbrev pub handed_over : ℕ → Store → Store
handed_over next s = record s {
  last_frame_at = s.head_off;
  last_frame_end = next;
  head_off = next;
  counters = record (s.counters) { n_delivered = s.n_delivered + 1 };
}

abbrev read_as : List ℕ → ℕ → ℕ → Result (Option (List ℕ × ℕ × ℕ))
read_as payload sum next = ok (some (payload, sum, next))

abbrev ReadAs : List ℕ → ℕ → ℕ → Result (Option (List ℕ × ℕ × ℕ)) → Type 0
ReadAs payload sum next r = r ≡ read_as payload sum next

not_taken :
    {A : Type 0} (b : Bool) (m n : M A) (s : Store) → b ≡ false → (if b then m else n) s ≡ n s
not_taken true m n s e = cc
not_taken false m n s e = refl

module _ (env : Env) where
  picked :
      (b : Bool) (p payload : List ℕ) (next : ℕ) (t u : Store)
      → (if b then pure (some p) else fail (sentinel corrupt)) t ≡ (ok (some payload), u)
      → (if b then take_record env p next else take_damaged env next) t
        ≡ (ok (some (payload, next)), handed_over next u)
  unfolding take_record ◌>>=◌
  picked true p payload next t u h =
      let same : p ≡ payload = let r : ok (some p) ≡ ok (some payload) = ap (λ x. x.0) h in cc in
      ap (λ (q : List ℕ). (ok (some (q, next)), handed_over next t)) same
      ∙ ap (λ (v : Store). (ok (some (payload, next)), handed_over next v)) (ap (λ x. x.1) h)
  picked false p payload next t u h =
      let r : err (sentinel corrupt) ≡ ok (some payload) = ap (λ x. x.0) h in cc

  same_bytes :
      (b : Bool) (p payload : List ℕ) (sum next : ℕ) (t u : Store)
      → (if b then pure (some p) else fail (sentinel corrupt)) t ≡ (ok (some payload), u)
      → ReadAs payload sum next (ok (some (p, sum, next)))
  same_bytes true p payload sum next t u h =
      let same : p ≡ payload = let r : ok (some p) ≡ ok (some payload) = ap (λ x. x.0) h in cc in
      ap (λ (q : List ℕ). read_as q sum next) same
  same_bytes false p payload sum next t u h =
      let r : err (sentinel corrupt) ≡ ok (some payload) = ap (λ x. x.0) h in cc

  same_record :
      (r : Result (Option (List ℕ × ℕ × ℕ))) (t u : Store) (payload : List ℕ)
      → ((λ s. (r, t)) >>= shown env) t ≡ (ok (some payload), u)
      → (sum next : ℕ) × (r ≡ ok (some (payload, sum, next)))
        × (taken env r t ≡ (ok (some (payload, next)), handed_over next u))
  unfolding shown taken take_record ◌>>=◌
  same_record (err e) t u payload h = cc
  same_record (ok none) t u payload h = cc
  same_record (ok (some (p, sum, next))) t u payload h = (
    sum,
    next,
    same_bytes (env.sum64 p == sum) p payload sum next t u h,
    picked (env.sum64 p == sum) p payload next t u h,
  )

  -- What a peek shows, a take at the same store hands over, with the same bytes, when no report of a
  -- damaged segment is due; it moves the read cursor to the offset that the read at the head answers
  -- as the end of the record, and counts a delivery, and changes nothing that the peek did not.
  pub take_head-peek_head :
      (s t : Store) (payload : List ℕ)
      → s.pending_corrupt ≡ 0
      → peek_head env s ≡ (ok (some payload), t)
      → (sum next : ℕ) × ((read env s.head_off s).0 ≡ ok (some (payload, sum, next)))
        × (take_head env s ≡ (ok (some (payload, next)), handed_over next t))
  unfolding peek_head take_head attempt ◌>>=◌
  take_head-peek_head s t payload quiet h =
      let (sum, next, k, e) =
        same_record (read env s.head_off s).0 (read env s.head_off s).1 t payload h in
      (sum, next, k, not_taken (ltb 0 s.pending_corrupt) _ _ s (ground arith) ∙ e)
