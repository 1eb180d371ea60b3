-- ===== src/Store/Log/ReadBack.antt =====
-- store.go, record.go: a record of the log is read back from its offset.
use diskqueue.Base.{
  zero, suc, ℕ, refl, sym, ◌≡◌, ap, ◌∙◌, ◌≤◌, ◌<◌, ◌^◌, inl, inr, Bool, false, Option, none, some,
  List, [], ◌∷◌, ◌++◌, arith, append_assoc, ◌+◌, ◌-◌, ◌||◌, ltb, leb, length, length-append,
  length-take, length-drop, take, drop, drop-drop, drop-length_append, subst, some-injective,
  Option-cases,
}
use diskqueue.Frame.{header_size, framed_len, frame, decode}
use diskqueue.Frame.Bounds.{length-frame}
use diskqueue.Frame.RoundTrip.{decode-frame}
use diskqueue.Store.State.{Store, Env, active}
use diskqueue.Store.Append.{needs_cycle, append_record}
use diskqueue.Store.Log.Whole.{append_refines}
use diskqueue.Store.Action.{Result, ok, err}
use diskqueue.Store.Block.{record_at, past}
use diskqueue.Store.Block.Mirror.{Coherent}
use diskqueue.Store.Block.Steady.{Faulty, Steady}
use diskqueue.Store.Block.Lookup.{uncached_record, record_at_uncached, Looked}
use diskqueue.Store.Log.{region, extent_of, log_bytes}
use diskqueue.Store.Log.Refine.{Whole, Represents, LogAfter, OthersKept, log_bytes-append}

take-drop : (n : ℕ) (xs : List ℕ) → take n xs ++ drop n xs ≡ xs
take-drop zero xs = refl
take-drop (suc n) [] = refl
take-drop (suc n) (x ∷ xs) = ap (◌∷◌ x) (take-drop n xs)

-- The offset of the record behind the records `ps`.
abbrev pub offset_after : Env → Store → ℕ → List (List ℕ) → ℕ
offset_after env s num ps = (s.heap num).base + length (log_bytes env.sum64 ps)

-- The record came back, or a call to the file system failed; the cache is coherent either way.
abbrev pub ReadsBack : Env → Store → List ℕ → ℕ → Result (Option (List ℕ × ℕ × ℕ)) → Store → Type 0
ReadsBack env s payload off (ok r) t =
    Steady s t × (r ≡ some (payload, env.sum64 payload, off + framed_len (length payload)))
ReadsBack env s payload off (err e) t = Steady s t × Faulty env

module _ (env : Env) (s : Store) (num : ℕ) (ps : List (List ℕ)) (payload : List ℕ)
    (qs : List (List ℕ)) (log : Represents env s num (ps ++ (payload ∷ qs))) (h : List ℕ)
    (there : s.disk num ≡ some h) (room : (s.heap num).size ≤ length (drop header_size h))
    (small : (s.heap num).size < 2 ^ 63) (hash : env.sum64 payload < 2 ^ 64) where
  abbrev before : List ℕ
  before = log_bytes env.sum64 ps

  abbrev after : List ℕ
  after = log_bytes env.sum64 qs

  published_bytes :
      take (s.heap num).size (drop header_size h) ≡ before ++ (frame env.sum64 payload ++ after)
  published_bytes =
      sym (ap (λ o. extent_of (s.heap num).size (region o)) there)
      ∙ log
      ∙ log_bytes-append env.sum64 ps (payload ∷ qs)

  size_parts : (s.heap num).size ≡ length before + (framed_len (length payload) + length after)
  size_parts = omega (
    arith,
    length-take (s.heap num).size (drop header_size h) room,
    ap length published_bytes,
    length-append before (frame env.sum64 payload ++ after),
    length-append (frame env.sum64 payload) after,
    length-frame env.sum64 payload,
  )

  frame_here :
      (rest : List ℕ) × (drop (header_size + length before) h ≡ frame env.sum64 payload ++ rest)
  frame_here =
      let tail = drop (s.heap num).size (drop header_size h) in
      (
        after ++ tail,
        sym (drop-drop (length before) header_size h)
            ∙ ap (drop (length before)) (
                sym (take-drop (s.heap num).size (drop header_size h))
                ∙ ap (λ x. x ++ tail) published_bytes
                ∙ append_assoc before (frame env.sum64 payload ++ after) tail)
            ∙ drop-length_append before ((frame env.sum64 payload ++ after) ++ tail)
            ∙ append_assoc (frame env.sum64 payload) after tail,
      )

  framed : length payload + 8 ≤ framed_len (length payload)
  unfolding framed_len
  framed = omega arith

  decoded :
      decode (drop (header_size + length before) h) ((s.heap num).size - length before)
      ≡ some (payload, env.sum64 payload, framed_len (length payload))
  decoded =
      let (rest, e) = frame_here in
      let left = (s.heap num).size - length before in
      ap (λ x. decode x left) e
      ∙ decode-frame env.sum64 payload rest left (omega (arith, framed, size_parts, small)) hash
          (omega (arith, size_parts)) (omega (arith, small))

  uncached_here :
      uncached_record h (s.heap num) (offset_after env s num ps)
      ≡ some (payload, env.sum64 payload, offset_after env s num ps + framed_len (length payload))
  unfolding uncached_record
  uncached_here =
      let off = offset_after env s num ps in
      let base = (s.heap num).base in
      let at : off - base ≡ length before = omega arith in
      let inside : (ltb off base || leb (s.heap num).size (off - base)) ≡ false =
        ground (arith, framed, size_parts) in
      rw inside (
        ap (λ k. past off (decode (drop (header_size + k) h) ((s.heap num).size - k))) at
        ∙ ap (past off) decoded)

  Looked-back :
      (long : header_size + (s.heap num).size ≤ length h) (r : Result (Option (List ℕ × ℕ × ℕ)))
      (t : Store)
      → Looked env s num h there long (offset_after env s num ps) r t
      → ReadsBack env s payload (offset_after env s num ps) r t
  Looked-back long (ok r) t (x, e) = (x, e ∙ uncached_here)
  Looked-back long (err e) t x = x

  reads_back :
      Coherent s
      → ReadsBack env s payload
          (offset_after env s num ps)
          (record_at env num (offset_after env s num ps) s).0
          (record_at env num (offset_after env s num ps) s).1
  reads_back c =
      let off = offset_after env s num ps in
      let long : header_size + (s.heap num).size ≤ length h =
        omega (arith, framed, size_parts, length-drop header_size h, room) in
      Looked-back long _ _ (record_at_uncached env s num off h there long small c).0

-- Whatever the segment's cache holds: each record of the log is read back, with its checksum and the
-- offset of the next, from the offset behind the records before it; or a call to the file system
-- failed. For a checksum function with a 64-bit value of the payload, and a segment below 2 ^ 63
-- bytes.
pub record_at_log :
    (env : Env) (s : Store) (num : ℕ) (ps : List (List ℕ)) (payload : List ℕ) (qs : List (List ℕ))
    → Represents env s num (ps ++ (payload ∷ qs))
    → Whole num s
    → (s.heap num).size < 2 ^ 63
    → env.sum64 payload < 2 ^ 64
    → Coherent s
    → let off = offset_after env s num ps in
      let (r, t) = record_at env num off s in ReadsBack env s payload off r t
record_at_log env s num ps payload qs log ((b, here, room), fit) small hash c =
    elim (Option-cases (s.disk num)) [
      | inl gone ↦ absurd (let x : none ≡ some b = sym (ap region gone) ∙ here in cc)
      | inr (h, there) ↦
          let d : b ≡ drop header_size h = some-injective (sym here ∙ ap region there) in
          reads_back env s num ps payload qs log h there (omega (arith, room, ap length d)) small
            hash c
    ]

-- What an append that succeeds put at the end of the segment's log is read back from its offset.
pub append_read_back :
    (env : Env) (payload : List ℕ) (force : Bool) (num : ℕ) (s t : Store) (ps : List (List ℕ))
    → active s ≡ some num
    → needs_cycle (framed_len (length payload)) s ≡ false
    → Whole num s
    → Represents env s num ps
    → Coherent s
    → append_record env payload force s ≡ (ok tt, t)
    → (t.heap num).size < 2 ^ 63
    → env.sum64 payload < 2 ^ 64
    → let off = offset_after env t num ps in
      let (r, u) = record_at env num off t in ReadsBack env t payload off r u
append_read_back env payload force num s t ps act stay whole log c run small hash =
    let after = append_refines env payload force num s ps act stay whole log c in
    let (l, others, w, k) =
      subst
        (λ x.
          LogAfter env num ps payload x.0 x.1 × OthersKept num s x.1 × Whole num x.1 × Coherent x.1)
        run after in
    record_at_log env t num ps payload [] l w small hash k
