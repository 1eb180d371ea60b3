-- ===== src/Store/Block/Fill.antt =====
-- store.go, record.go: filling the cached block from a file keeps the cache coherent.
use Prim.Native.Nat.{min, max}
use diskqueue.Base.{
  some-injective, ℕ, ◌+◌, ◌-◌, ◌≤◌, ◌≡◌, refl, ap, ◌∙◌, Bool, true, false, not, ◌&&◌, some, List,
  [], ◌++◌, arith, length, length-append, slice, slice-append, length-slice, ◌==◌, ==_iff, leb, ltb,
  if◌then◌else◌, subst,
}
use diskqueue.Frame.{header_size}
use diskqueue.Store.State.{Store, Block, Env, Error, errors_is, short_read}
use diskqueue.Store.Action.{M, ok, err, ◌>>=◌, ◌>>◌, pure, fail, when, modify}
use diskqueue.Store.Os.{os_read_at}
use diskqueue.Store.Files.{is_num}
use diskqueue.Store.Segments.{drop_block}
use diskqueue.Store.Block.{
  read_ahead, block_has, starts_at, read_block, fill_block, short_read_is_corrupt,
}
use diskqueue.Store.Meets.{
  Meets, bind-Meets, gets-Meets, pure-Meets, if-Meets, when-Meets, try-Meets,
}
use diskqueue.Store.Block.Mirror.{Repeats}
use diskqueue.Store.Block.Steady.{
  Faulty, Steady, Got, os_read_at-Got, Filled, drop_block-Steady, starts_at→, Prefix, have_bytes,
  Ready, moved,
}

module _ (env : Env) (s : Store) (num : ℕ) (h : List ℕ) (there : s.disk num ≡ some h) where
  module _ (off n : ℕ) (have : List ℕ) where
    -- The read behind what the block holds, and the block that it leaves.
    abbrev extend_block : M (Unit {0})
    extend_block = do
      when (length have == 0) drop_block
      tail ← os_read_at env num (header_size + off + length have) (n - length have)
      modify (λ s. record s { block = record { file = some num; off = off; bytes = have ++ tail } })

    -- The block that the read leaves.
    abbrev new_block : List ℕ → Block
    new_block tail = record { file = some num; off = off; bytes = have ++ tail }

    module _ (le : length have ≤ n) (fits : off + n ≤ (s.heap num).size)
        (long : header_size + (s.heap num).size ≤ length h) (tail : List ℕ)
        (e : tail ≡ slice (header_size + off + length have) (n - length have) h) where
      length-extended : length (have ++ tail) ≡ n
      length-extended = omega (
        arith,
        length-append have tail,
        ap length e,
        length-slice (header_size + off + length have) (n - length have) h
            (omega (arith, le, fits, long)),
        le,
      )

      extended : Prefix env s num h there off have → Repeats (new_block tail) (s.heap num).size h
      extended p =
          let total : length have + (n - length have) ≡ length (have ++ tail) =
            omega (arith, length-extended, le) in
          record {
            same_bytes =
                ap (λ b. b ++ tail) p
                ∙ ap (λ b. slice (header_size + off) (length have) h ++ b) e
                ∙ slice-append (header_size + off) (length have) (n - length have) h
                ∙ ap (λ k. slice (header_size + off) k h) total;
            within = omega (arith, length-extended, fits);
          }

    set_block-Filled :
        (tail : List ℕ) (t : Store)
        → Steady s t
        → length (have ++ tail) ≡ n
        → Repeats (new_block tail) (s.heap num).size h
        → Meets
            (modify (λ s. record s { block = new_block tail }))
            t
            (Filled env s num h there off n)
    unfolding block_has
    set_block-Filled tail t x l r = record {
      at = (
        (
          x.0,
          x.1,
          λ m e.
              let same : num ≡ m = some-injective e in
              subst
                (λ k.
                  (h : List ℕ) × (s.disk k ≡ some h) × Repeats (new_block tail) (s.heap k).size h)
                same (h, there, r),
        ),
        ground (arith, l, (==_iff num num).1 refl),
      );
    }

    extend_block-Filled :
        (t : Store)
        → Steady s t
        → Prefix env s num h there off have
        → length have ≤ n
        → off + n ≤ (s.heap num).size
        → header_size + (s.heap num).size ≤ length h
        → Meets extend_block t (Filled env s num h there off n)
    unfolding drop_block
    extend_block-Filled t x p le fits long =
        bind-Meets {R = Ready env s num h there} _ _ t
          (when-Meets (length have == 0) drop_block t
            (record { at = drop_block-Steady env s num h there t x }) x)
          (λ _ u y.
            bind-Meets
              {R = Got env s num h there (header_size + off + length have) (n - length have) u} _ _
              u (os_read_at-Got env s num h there _ _ u (omega (arith, le, fits, long)) y.0)
              (λ tail v g.
                set_block-Filled tail v (moved env s num h there u v y g.0)
                  (length-extended le fits long tail g.1) (extended le fits long tail g.1 p))
              (λ e v g. (moved env s num h there u v y g.0, g.1)))
          (λ e u y. absurd y)

  covers :
      (off n : ℕ) (t : Store)
      → t.block.file ≡ some num
      → t.block.off ≡ off
      → n ≤ length t.block.bytes
      → block_has num off n t ≡ true
  unfolding block_has
  covers off n t f o l =
      let e : is_num num t.block.file ≡ true = ap (is_num num) f ∙ (==_iff num num).1 refl in
      rw e (ground arith)

  short_have :
      (off n : ℕ) (t : Store) (same : Bool)
      → (same && leb n (length t.block.bytes)) ≡ false
      → length (if same then t.block.bytes else []) ≤ n
  short_have off n t false e = omega arith
  short_have off n t true e = ground arith

  read_block-Filled :
      (off n : ℕ) (t : Store)
      → Steady s t
      → off + n ≤ (s.heap num).size
      → header_size + (s.heap num).size ≤ length h
      → Meets (read_block env num off n) t (Filled env s num h there off n)
  unfolding read_block block_has
  read_block-Filled off n t x fits long = gets-Meets _ _ t (
      gets-Meets _ _ t (
        if-Meets (starts_at num off t && leb n (length t.block.bytes)) (pure tt)
          (extend_block off n (if starts_at num off t then t.block.bytes else [])) t
          (λ yes.
            let p = starts_at→ env s num h there off t (ground arith) in
            pure-Meets tt t (x, covers off n t p.0 p.1 (ground arith)))
          (λ no.
            extend_block-Filled off n _ t x
              (have_bytes env s num h there off t (starts_at num off t) x refl)
              (short_have off n t (starts_at num off t) no) fits long)))

  -- A block that covers `n` bytes covers its first ones.
  block_has_le :
      (off m n : ℕ) (t : Store)
      → m ≤ n
      → block_has num off n t ≡ true
      → block_has num off m t ≡ true
  unfolding block_has
  block_has_le off m n t l e = ground arith

  -- The block is given up, and a failed call reported.
  give_up :
      (e : Error) (off n : ℕ) (t : Store)
      → Steady s t
      → Faulty env
      → Meets (do drop_block; fail e) t (Filled env s num h there off n)
  unfolding drop_block ◌>>=◌
  give_up e off n t x f = record { at = (drop_block-Steady env s num h there t x, f) }

  pub fill_block-Filled :
      (off avail need : ℕ) (t : Store)
      → Steady s t
      → off + avail ≤ (s.heap num).size
      → header_size + (s.heap num).size ≤ length h
      → Meets (fill_block env num off avail need) t (Filled env s num h there off (min need avail))
  unfolding fill_block
  fill_block-Filled off avail need t x fits long =
      let want = min (max read_ahead need) avail in
      try-Meets {R = Filled env s num h there off want} _ _ t
        (read_block-Filled off want t x (omega arith) long)
        (elim [
          | ok _ ↦ λ u f.
              pure-Meets tt u (f.0, block_has_le off (min need avail) want u (omega arith) f.1)
          | err e ↦ λ u f.
              if-Meets (not (errors_is e short_read)) _ _ u (λ _. give_up e off _ u f.0 f.1)
                (λ _.
                  if-Meets (ltb (min need avail) want) _ _ u
                    (λ _.
                      try-Meets {R = Filled env s num h there off (min need avail)} _ _ u
                        (read_block-Filled off (min need avail) u f.0 (omega arith) long)
                        (elim [
                          | ok _ ↦ λ v g. pure-Meets tt v g
                          | err e' ↦ λ v g. give_up (short_read_is_corrupt e') off _ v g.0 g.1
                        ]))
                    (λ _. give_up (short_read_is_corrupt e) off _ u f.0 f.1))
        ])
