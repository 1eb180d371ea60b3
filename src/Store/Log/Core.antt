-- ===== src/Store/Log/Core.antt =====
-- store.go: what an append changes of the segments' bytes: the region of one file, then its extent.
use mathlib.Core.Path.{fun_ext}
use diskqueue.Base.{
  ℕ, refl, sym, ◌≡◌, ap, ◌∙◌, ◌≤◌, inl, inr, Option, some, List, ◌++◌, arith, ◌+◌, length, take,
  drop, slice, slice-append, ◌==◌, ==_iff, Bool-cases, compare_cases, length-drop,
}
use diskqueue.Frame.{header_size}
use diskqueue.Store.State.{Store, Block, update}
use diskqueue.Store.Os.{write_bytes}
use diskqueue.Store.Log.Bytes.{slice-write_same, slice-write_below}
use diskqueue.Store.Log.Header.{Plain, plain}

-- The data regions, the published sizes and the cached block.
pub record Core : Type 0 where
  pub regions_held : ℕ → Option (List ℕ)
  pub sizes : ℕ → ℕ
  pub cached : Block

abbrev pub core_of : Plain → Core
core_of p = record {
  regions_held = p.bodies;
  sizes = λ n. (p.shown.extents n).size;
  cached = p.cached;
}

abbrev pub core : Store → Core
core s = core_of (plain s)

-- Region `num` is `b`.
abbrev pub laid : Core → ℕ → List ℕ → Core
laid c num b = record c { regions_held = update c.regions_held num (some b) }

-- Extent `num` is `n` bytes.
abbrev pub sized : Core → ℕ → ℕ → Core
sized c num n = record c { sizes = update c.sizes num n }

-- What `g` shows of a map with one value replaced.
pub update-shown {ℓ κ} :
    {A : Type ℓ} {X : Type κ} (g : A → X) (f : ℕ → A) (p : ℕ) (v : A)
    → (λ n. g (update f p v n)) ≡ update (λ n. g (f n)) p (g v)
update-shown {X = X} g f p v = fun_ext at
  where
    at : (n : ℕ) → g (update f p v n) ≡ update (λ n. g (f n)) p (g v) n
    at n = elim (Bool-cases (p == n)) [ inl e ↦ rw e refl | inr e ↦ rw e refl ]

update_self {ℓ} : {A : Type ℓ} (f : ℕ → A) (p : ℕ) (v : A) → v ≡ f p → update f p v ≡ f
update_self {A = A} f p v e = fun_ext at
  where
    at : (q : ℕ) → update f p v q ≡ f q
    at q = elim (Bool-cases (p == q)) [
      | inl h ↦ rw h (e ∙ ap f ((==_iff p q).0 h))
      | inr h ↦ rw h refl
    ]

update_twice {ℓ} :
    {A : Type ℓ} (f : ℕ → A) (p : ℕ) (v w : A) → update (update f p v) p w ≡ update f p w
update_twice {A = A} f p v w = fun_ext at
  where
    at : (q : ℕ) → update (update f p v) p w q ≡ update f p w q
    at q = elim (Bool-cases (p == q)) [ inl h ↦ rw h refl | inr h ↦ rw h refl ]

pub laid_same : (c : Core) (num : ℕ) (b : List ℕ) → c.regions_held num ≡ some b → laid c num b ≡ c
laid_same c num b e =
    ap (λ (x : ℕ → Option (List ℕ)). record c { regions_held = x })
      (update_self c.regions_held num (some b) (sym e))

pub sized_same : (c : Core) (num : ℕ) → sized c num (c.sizes num) ≡ c
sized_same c num =
    ap (λ (x : ℕ → ℕ). record c { sizes = x }) (update_self c.sizes num (c.sizes num) refl)

-- An extent that grows and shrinks again.
pub sized_back :
    (c : Core) (num n : ℕ) → n ≡ c.sizes num → (m : ℕ) → sized (sized c num m) num n ≡ c
sized_back c num n e m =
    ap (λ (x : ℕ → ℕ). record c { sizes = x })
      (update_twice c.sizes num m n ∙ update_self c.sizes num n e)

-- The published bytes are untouched by a write at the end of them.
pub take-write_end :
    (size : ℕ) (bs h : List ℕ)
    → size ≤ length (drop header_size h)
    → take size (drop header_size (write_bytes (header_size + size) bs h))
      ≡ take size (drop header_size h)
take-write_end size bs h l = elim (compare_cases (length h) header_size) [
  | inl short ↦ let z : size ≡ 0 = omega (arith, length-drop header_size h, l, short) in rw z refl
  | inr long ↦
      slice-write_below header_size size (header_size + size) bs h (omega arith)
        (omega (arith, length-drop header_size h, l, long))
]

-- What was written there follows the published bytes.
pub take-write_more :
    (size : ℕ) (bs h : List ℕ)
    → size ≤ length (drop header_size h)
    → take (size + length bs) (drop header_size (write_bytes (header_size + size) bs h))
      ≡ take size (drop header_size h) ++ bs
take-write_more size bs h l =
    let h' = write_bytes (header_size + size) bs h in
    sym (slice-append header_size size (length bs) h')
    ∙ ap (λ x. x ++ slice (header_size + size) (length bs) h') (take-write_end size bs h l)
    ∙ ap (λ x. take size (drop header_size h) ++ x) (slice-write_same (header_size + size) bs h)
