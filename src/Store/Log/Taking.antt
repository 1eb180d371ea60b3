-- ===== src/Store/Log/Taking.antt =====
-- store.go: the head of the queue, where it stands at a record of a segment's log.
use diskqueue.Base.{
  ℕ, ◌+◌, ◌^◌, ◌≤◌, ◌<◌, ◌≡◌, refl, sym, ap, ◌∙◌, Option, none, some, List, ◌∷◌, ◌++◌, arith, leb,
  length, subst, some-injective,
}
use diskqueue.Frame.{framed_len}
use diskqueue.Store.State.{Store, Env, sentinel, corrupt}
use diskqueue.Store.Action.{Result, ok, err, pure, fail}
use diskqueue.Store.Segments.{file_for_offset}
use diskqueue.Store.Block.{record_at}
use diskqueue.Store.Block.Mirror.{Mirrors, Coherent}
use diskqueue.Store.Consume.{read, read_from, peek_head, take_head}
use diskqueue.Store.Consume.Take.{handed_over, take_head-peek_head}
use diskqueue.Store.Meets.{
  Meets, attempt_then, gets-Meets, if-Meets, bind-Meets, pure-Meets, fail-Meets,
}
use diskqueue.Store.Quiet.Handles.{ensure_open-Keeps}
use diskqueue.Store.Log.{region, extent_of, log_bytes}
use diskqueue.Store.Log.Header.{Fit}
use diskqueue.Store.Log.Handling.{Data, data_of, data-Handles}
use diskqueue.Store.Log.Refine.{Whole, Represents}
use diskqueue.Store.Log.ReadBack.{ReadsBack, record_at_log, offset_after}

module _ (env : Env) (num : ℕ) (ps : List (List ℕ)) (payload : List ℕ) (qs : List (List ℕ))
    (hash : env.sum64 payload < 2 ^ 64) where
  -- The head stands at the record behind `ps` of the segment's log, and the segment is whole.
  abbrev Ready : Data → Type 0
  Ready d =
      (extent_of (d.shown.extents num).size (region (d.on num))
        ≡ log_bytes env.sum64 (ps ++ (payload ∷ qs)))
      × (((b : List ℕ) × (region (d.on num) ≡ some b) × ((d.shown.extents num).size ≤ length b))
          × Fit (d.headers num))
      × ((d.shown.extents num).size < 2 ^ 63)
      × Mirrors d.on (λ n. (d.shown.extents n).size) d.cached
      × (d.shown.head_off ≡ (d.shown.extents num).base + length (log_bytes env.sum64 ps))

  -- The record, if the read was done.
  abbrev Answered : ℕ → Result (Option (List ℕ × ℕ × ℕ)) → Store → Type 0
  Answered off (ok r) t = r ≡ some (payload, env.sum64 payload, off + framed_len (length payload))
  Answered off (err e) t = Unit {0}

  read_from-Answered :
      (s : Store)
      → Ready (data_of s)
      → Meets (read_from env s.head_off (some num)) s (Answered s.head_off)
  unfolding read_from
  read_from-Answered s ready =
      attempt_then {p = data_of} _ _ s (ensure_open-Keeps data-Handles env num) (elim [
        | err e ↦ λ t d. fail-Meets _ t tt
        | ok _ ↦ λ t d.
            let (log, whole, small, c, at) = subst Ready (sym d) ready in
            let here : offset_after env t num ps ≡ s.head_off =
              sym at ∙ ap (λ (x : Data). x.shown.head_off) d in
            bind-Meets {R = Answered s.head_off} _ _ t
              (subst (λ off. Meets (record_at env num off) t (Answered off)) here
                (record {
                  at =
                      answered t _ _ _
                        (record_at_log env t num ps payload qs log whole small hash c);
                }))
              (λ r u k.
                subst
                  (λ o.
                    Meets (elim o [ none ↦ fail (sentinel corrupt) | some x ↦ pure (some x) ]) u
                      (Answered s.head_off))
                  (sym k) (pure-Meets _ u refl))
              (λ e u k. tt)
      ])
    where
      answered :
          (t : Store) (off : ℕ) (r : Result (Option (List ℕ × ℕ × ℕ))) (u : Store)
          → ReadsBack env t payload off r u
          → Answered off r u
      answered t off (ok r) u x = x.1
      answered t off (err e) u x = tt

  read-Answered :
      (s : Store)
      → Ready (data_of s)
      → file_for_offset s.head_off s ≡ some num
      → s.head_off < s.write_off
      → Meets (read env s.head_off) s (Answered s.head_off)
  unfolding read
  read-Answered s ready found inside = gets-Meets _ _ s (
      if-Meets (leb s.write_off s.head_off) (pure none) _ s
        (λ tail. absurd (ground (arith, tail, inside)))
        (λ _.
          subst (λ o. Meets (read_from env s.head_off o) s (Answered s.head_off)) (sym found)
            (read_from-Answered s ready)))

-- Where the head stands at a record of a segment's log, a peek that shows something shows that record,
-- and a take at the same store hands it over and moves the read cursor behind its frame, by the
-- `framedLen` of its payload. For a whole segment below 2 ^ 63 bytes that `fileForOffset` answers for
-- the head, in front of the tail, a coherent cache, no report of a damaged segment due, and a checksum
-- below 2 ^ 64.
pub take_head_log :
    (env : Env) (num : ℕ) (ps : List (List ℕ)) (payload : List ℕ) (qs : List (List ℕ))
    (shown : List ℕ) (s t : Store)
    → Represents env s num (ps ++ (payload ∷ qs))
    → Whole num s
    → (s.heap num).size < 2 ^ 63
    → env.sum64 payload < 2 ^ 64
    → Coherent s
    → s.head_off ≡ offset_after env s num ps
    → file_for_offset s.head_off s ≡ some num
    → s.head_off < s.write_off
    → s.pending_corrupt ≡ 0
    → peek_head env s ≡ (ok (some shown), t)
    → let next = s.head_off + framed_len (length payload) in
      (shown ≡ payload) × (take_head env s ≡ (ok (some (payload, next)), handed_over next t))
take_head_log env num ps payload qs shown s t log whole small hash c at found inside quiet peek =
    let (sum, next, k, taken) = take_head-peek_head env s t shown quiet peek in
    let r : some (shown, sum, next)
        ≡ some (payload, env.sum64 payload, s.head_off + framed_len (length payload)) =
      subst (λ x. Answered env num ps payload qs hash s.head_off x (read env s.head_off s).1) k
        (read-Answered env num ps payload qs hash s (log, whole, small, c, at) found inside).at in
    let x : (shown, sum, next)
        ≡ (payload, env.sum64 payload, s.head_off + framed_len (length payload)) =
      some-injective r in
    let same : shown ≡ payload = ap (λ y. y.0) x in
    let end : next ≡ s.head_off + framed_len (length payload) = ap (λ y. y.2) x in
    (
      same,
      taken
          ∙ ap (λ p. (ok (some (p, next)), handed_over next t)) same
          ∙ ap (λ n. (ok (some (payload, n)), handed_over n t)) end,
    )
