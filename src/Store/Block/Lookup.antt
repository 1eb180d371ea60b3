-- ===== src/Store/Block/Lookup.antt =====
-- record.go: a record read through the cache is the record that is in the file.
use Prim.Native.Nat.{min}
use diskqueue.Base.{
  ℕ, ◌+◌, ◌-◌, ◌^◌, ◌≤◌, ◌<◌, ◌≡◌, refl, sym, ap, ◌∙◌, Bool, true, false, not, ◌||◌, Option, none,
  some, List, arith, length, slice, take, drop, take-take, drop-take, leb, ltb, if◌then◌else◌,
  subst,
}
use diskqueue.Frame.{
  header_size, max_varint_len64, uvarint, judge, cut, decode, frame_header, checksum_size,
}
use diskqueue.Frame.Bounds.{frame_header_bounds}
use diskqueue.Store.State.{Store, DataFile, Env}
use diskqueue.Store.Action.{M, Result, ok, err, ◌>>=◌, pure, when}
use diskqueue.Store.Block.{
  block_has, block_at, fill_block, frame_header_at, fetch_frame, record_at, record_len, past,
}
use diskqueue.Store.Meets.{Meets, bind-Meets, gets-Meets, pure-Meets, if-Meets}
use diskqueue.Store.Block.Mirror.{block_has-covers, Coherent, block_at-file}
use diskqueue.Store.Block.Steady.{Steady, Faulty, Filled, repeats}
use diskqueue.Store.Block.Fill.{fill_block-Filled}

-- Nothing of a frame lies past its size.
cut-take :
    (n total : ℕ) (bytes : List ℕ)
    → n + 8 ≤ total
    → cut (take total bytes) (some (n, total)) ≡ cut bytes (some (n, total))
unfolding cut
cut-take n total bytes l =
    let len = total - n - checksum_size in
    let a : take len (drop n (take total bytes)) ≡ take len (drop n bytes) =
      ap (take len) (drop-take n total bytes (omega (arith, l)))
      ∙ take-take len (total - n) (drop n bytes) (omega arith) in
    let b : take 8 (drop (n + len) (take total bytes)) ≡ take 8 (drop (n + len) bytes) =
      ap (take 8) (drop-take (n + len) total bytes (omega (arith, l)))
      ∙ take-take 8 (total - (n + len)) (drop (n + len) bytes) (omega (arith, l)) in
    rw (a, b) refl

-- The record at `off` as the file alone gives it: what `recordAt` answers without its cache.
unfoldable pub uncached_record : List ℕ → DataFile → ℕ → Option (List ℕ × ℕ × ℕ)
uncached_record h df off =
    if ltb off df.base || leb df.size (off - df.base)
    then none
    else past off (decode (drop (header_size + (off - df.base)) h) (df.size - (off - df.base)))

-- The offset past the record.
abbrev end_of : Option (List ℕ × ℕ × ℕ) → Option ℕ
end_of none = none
end_of (some (payload, sum, end)) = some end

module _ (env : Env) (s : Store) (num : ℕ) (h : List ℕ) (there : s.disk num ≡ some h)
    (long : header_size + (s.heap num).size ≤ length h) where
  module _ (off avail : ℕ) (fits : off + avail ≤ (s.heap num).size) where
    fill-Filled :
        (n : ℕ) (t : Store)
        → n ≤ avail
        → Steady s t
        → Meets (fill_block env num off avail n) t (Filled env s num h there off n)
    fill-Filled n t l x =
        subst (λ k. Meets (fill_block env num off avail n) t (Filled env s num h there off k))
          (omega (arith, l)) (fill_block-Filled env s num h there off avail n t x fits long)

    bytes_there :
        (n : ℕ) (t : Store)
        → Steady s t
        → block_has num off n t ≡ true
        → block_at off n t ≡ slice (header_size + off) n h
    bytes_there n t x e =
        block_at-file num off n (s.heap num).size h t e
          (repeats env s num h there t x (block_has-covers num off n t e).0)

    -- What the block covers already is not fetched.
    covered :
        (n : ℕ) (m : M (Unit {0})) (t : Store)
        → Steady s t
        → (block_has num off n t ≡ false → Meets m t (Filled env s num h there off n))
        → Meets (when (not (block_has num off n t)) m) t (Filled env s num h there off n)
    covered n m t x g =
        if-Meets (not (block_has num off n t)) m (pure tt) t (λ e. g (ground (arith, e)))
          (λ e. pure-Meets tt t (x, ground (arith, e)))

    abbrev Headed : Result (Option (ℕ × ℕ)) → Store → Type 0
    Headed (ok r) t = Steady s t × (r ≡ frame_header (drop (header_size + off) h) avail)
    Headed (err e) t = Steady s t × Faulty env

    frame_header_at-Headed :
        (t : Store) → Steady s t → Meets (frame_header_at env num off avail) t Headed
    unfolding frame_header_at frame_header
    frame_header_at-Headed t x =
        let probe = min max_varint_len64 avail in
        gets-Meets _ _ t (
          bind-Meets {R = Filled env s num h there off probe} _ _ t
            (covered probe _ t x (λ _. fill-Filled probe t (omega arith) x))
            (λ _ u f. gets-Meets _ _ u (
              pure-Meets _ u
                (f.0, ap (λ b. judge avail (uvarint b)) (bytes_there probe u f.0 f.1))))
            (λ e u f. f))

    abbrev Fetched : ℕ → ℕ → Result (Option (List ℕ × ℕ × ℕ)) → Store → Type 0
    Fetched n total (ok r) t = Steady s t × (r ≡ cut (drop (header_size + off) h) (some (n, total)))
    Fetched n total (err e) t = Steady s t × Faulty env

    fetch_frame-Fetched :
        (n total : ℕ) (t : Store)
        → total ≤ avail
        → n + 8 ≤ total
        → Steady s t
        → Meets (fetch_frame env num off avail n total) t (Fetched n total)
    unfolding fetch_frame
    fetch_frame-Fetched n total t le room x = gets-Meets _ _ t (
        bind-Meets {R = Filled env s num h there off total} _ _ t
          (covered total _ t x (λ _.
            bind-Meets {R = Filled env s num h there off total} _ _ t (fill-Filled total t le x)
              (λ _ u f.
                gets-Meets _ _ u
                  (covered total _ u f.0 (λ e. absurd (let h : true ≡ false = sym f.1 ∙ e in cc))))
              (λ e u f. f)))
          (λ _ u f. gets-Meets _ _ u (
            pure-Meets _ u (
              f.0,
              ap (λ b. cut b (some (n, total))) (bytes_there total u f.0 f.1)
                  ∙ cut-take n total _ room,
            )))
          (λ e u f. f))

  abbrev pub Looked : ℕ → Result (Option (List ℕ × ℕ × ℕ)) → Store → Type 0
  Looked off (ok r) t = Steady s t × (r ≡ uncached_record h (s.heap num) off)
  Looked off (err e) t = Steady s t × Faulty env

  -- Where the record lies: its offset in the data region and the bytes behind it.
  abbrev outside : ℕ → Bool
  outside off = ltb off (s.heap num).base || leb (s.heap num).size (off - (s.heap num).base)

  module _ (off : ℕ) (e : outside off ≡ false) where
    abbrev at : ℕ
    at = off - (s.heap num).base

    abbrev left : ℕ
    left = (s.heap num).size - at

    abbrev region : List ℕ
    region = drop (header_size + at) h

    inside : at + left ≤ (s.heap num).size
    inside = ground (arith, e)

    uncached_inside :
        (header : Option (ℕ × ℕ))
        → header ≡ frame_header region left
        → past off (cut region header) ≡ uncached_record h (s.heap num) off
    unfolding uncached_record decode
    uncached_inside header f = rw e (ap (λ x. past off (cut region x)) f)

    framed-Looked :
        (header : Option (ℕ × ℕ)) (t : Store)
        → (s.heap num).size < 2 ^ 63
        → Steady s t
        → header ≡ frame_header region left
        → Meets
            (elim header [
              | none ↦ pure none
              | some (n, total) ↦ (do
                frame ← fetch_frame env num at left n total
                pure (past off frame))
            ])
            t
            (Looked off)
    unfolding cut
    framed-Looked none t small x f = pure-Meets none t (x, uncached_inside none f)
    framed-Looked (some (n, total)) t small x f =
        let b = frame_header_bounds region left n total (omega (arith, small)) (sym f) in
        bind-Meets {R = Fetched at left inside n total} _ _ t
          (fetch_frame-Fetched at left inside n total t b.2 b.1 x)
          (λ frame u g.
            pure-Meets _ u (g.0, ap (past off) g.1 ∙ uncached_inside (some (n, total)) f))
          (λ e u g. g)

  record_at-Looked :
      (off : ℕ)
      → (s.heap num).size < 2 ^ 63
      → Coherent s
      → Meets (record_at env num off) s (Looked off)
  unfolding record_at uncached_record
  record_at-Looked off small c = gets-Meets _ _ s (
      if-Meets (outside off) _ _ s (λ e. pure-Meets none s ((refl, refl, c), (rw e refl)))
        (λ e.
          bind-Meets {R = Headed (at off e) (left off e) (inside off e)} _ _ s
            (frame_header_at-Headed (at off e) (left off e) (inside off e) s (refl, refl, c))
            (λ header u f. framed-Looked off e header u small f.0 f.1) (λ e u f. f)))

  abbrev pub Measured : ℕ → Result (Option ℕ) → Store → Type 0
  Measured off (ok r) t = Steady s t × (r ≡ end_of (uncached_record h (s.heap num) off))
  Measured off (err e) t = Steady s t × Faulty env

  end_of-past :
      (off : ℕ) (bytes : List ℕ) (header : Option (ℕ × ℕ))
      → elim header [ none ↦ none | some (n, total) ↦ some (off + total) ]
        ≡ end_of (past off (cut bytes header))
  unfolding cut
  end_of-past off bytes none = refl
  end_of-past off bytes (some (n, total)) = refl

  record_len-Measured : (off : ℕ) → Coherent s → Meets (record_len env num off) s (Measured off)
  unfolding record_len uncached_record
  record_len-Measured off c = gets-Meets _ _ s (
      if-Meets (outside off) _ _ s (λ e. pure-Meets none s ((refl, refl, c), (rw e refl)))
        (λ e.
          bind-Meets {R = Headed (at off e) (left off e) (inside off e)} _ _ s
            (frame_header_at-Headed (at off e) (left off e) (inside off e) s (refl, refl, c))
            (λ header u f. pure-Meets _ u (
              f.0,
              end_of-past off (region off e) header ∙ ap end_of (uncached_inside off e header f.1),
            ))
            (λ e u f. f)))

-- With the cache coherent and the segment's file whole, reading and measuring a record through the
-- cache answer what decoding the file alone does, or fail because a call to the file system failed.
-- Either way the cache stays coherent, and the files, contents and cursors are as they were.
pub record_at_uncached :
    (env : Env) (s : Store) (num off : ℕ) (h : List ℕ) (there : s.disk num ≡ some h)
    (long : header_size + (s.heap num).size ≤ length h)
    → (s.heap num).size < 2 ^ 63
    → Coherent s
    → Looked env s num h there long off (record_at env num off s).0 (record_at env num off s).1
      × Measured env s num h there long off
          (record_len env num off s).0
          (record_len env num off s).1
record_at_uncached env s num off h there long small c = (
  (record_at-Looked env s num h there long off small c).at,
  (record_len-Measured env s num h there long off c).at,
)
