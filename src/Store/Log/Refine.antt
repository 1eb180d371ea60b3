-- ===== src/Store/Log/Refine.antt =====
-- store.go: the active segment is a log, and an append puts its record at the end of it.
use diskqueue.Base.{
  ℕ, refl, sym, ◌≡◌, ◌≢◌, ap, ◌∙◌, ◌≤◌, ◌⊎◌, inl, inr, some, List, [], ◌∷◌, ◌++◌, append_assoc,
  append-nil, ◌+◌, length, take, ◌==◌, ==_iff, Bool-cases,
}
use diskqueue.Frame.{framed_len, frame}
use diskqueue.Store.State.{Store, Env, update}
use diskqueue.Store.Action.{Result, ok, err}
use diskqueue.Store.Quiet.{update_here}
use diskqueue.Store.Log.{regions, extent_of, published, log_bytes}
use diskqueue.Store.Log.Header.{Fits}
use diskqueue.Store.Log.Core.{Core, core, laid, sized}
use diskqueue.Store.Log.Append.{Ended, Unpublished, Published}

pub log_bytes-append :
    (sum64 : List ℕ → ℕ) (ps qs : List (List ℕ))
    → log_bytes sum64 (ps ++ qs) ≡ log_bytes sum64 ps ++ log_bytes sum64 qs
log_bytes-append sum64 [] qs = refl
log_bytes-append sum64 (p ∷ ps) qs =
    ap (λ x. frame sum64 p ++ x) (log_bytes-append sum64 ps qs)
    ∙ sym (append_assoc (frame sum64 p) (log_bytes sum64 ps) (log_bytes sum64 qs))

-- The published bytes as the core shows them.
abbrev published_of : Core → ℕ → List ℕ
published_of c m = extent_of (c.sizes m) (c.regions_held m)

pub update_other {ℓ} : {A : Type ℓ} (f : ℕ → A) (p q : ℕ) (v : A) → q ≢ p → update f p v q ≡ f q
update_other f p q v ne = elim (Bool-cases (p == q)) [
  | inl e ↦ absurd (ne (sym ((==_iff p q).0 e)))
  | inr e ↦ rw e refl
]

module _ (c : Core) (num : ℕ) (b : List ℕ) where
  published_laid : published_of (laid c num b) num ≡ take (c.sizes num) b
  published_laid = ap (extent_of (c.sizes num)) (update_here c.regions_held num (some b))

  published_sized : (n : ℕ) → published_of (sized (laid c num b) num n) num ≡ take n b
  published_sized n =
      ap (λ k. extent_of k (update c.regions_held num (some b) num)) (update_here c.sizes num n)
      ∙ ap (extent_of n) (update_here c.regions_held num (some b))

  other_laid : (m : ℕ) → m ≢ num → published_of (laid c num b) m ≡ published_of c m
  other_laid m ne = ap (extent_of (c.sizes m)) (update_other c.regions_held num m (some b) ne)

  other_sized : (n m : ℕ) → m ≢ num → published_of (sized (laid c num b) num n) m ≡ published_of c m
  other_sized n m ne =
      ap (λ k. extent_of k (update c.regions_held num (some b) m)) (update_other c.sizes num m n ne)
      ∙ other_laid m ne

-- A segment's file is there, holds what is published of it, and its header images have their size.
abbrev pub Whole : ℕ → Store → Type 0
Whole num s =
    ((b : List ℕ) × (regions s num ≡ some b) × ((s.heap num).size ≤ length b)) × Fits num s

-- The published bytes of the segment are the records of the log.
abbrev pub Represents : Env → Store → ℕ → List (List ℕ) → Type 0
Represents env s num ps = published s num ≡ log_bytes env.sum64 ps

-- After an append: the record is at the end, or nothing was published, or its flush failed.
abbrev pub LogAfter : Env → ℕ → List (List ℕ) → List ℕ → Result (Unit {0}) → Store → Type 0
LogAfter env num ps payload (ok _) t = Represents env t num (ps ++ (payload ∷ []))
LogAfter env num ps payload (err e) t =
    Represents env t num ps ⊎ Represents env t num (ps ++ (payload ∷ []))

-- The other segments' published bytes are as they were.
abbrev pub OthersKept : ℕ → Store → Store → Type 0
OthersKept num s t = (m : ℕ) → m ≢ num → published t m ≡ published s m

module _ (env : Env) (payload : List ℕ) (num : ℕ) (s0 : Store) (b : List ℕ)
    (here : regions s0 num ≡ some b) (room : (s0.heap num).size ≤ length b) (fit : Fits num s0)
    (ps : List (List ℕ)) (log : Represents env s0 num ps) where
  held : take (s0.heap num).size b ≡ log_bytes env.sum64 ps
  held = sym (ap (extent_of (s0.heap num).size) here) ∙ log

  Unpublished-log :
      (t : Store)
      → Unpublished env payload num s0 b here room fit t
      → Represents env t num ps × OthersKept num s0 t
  Unpublished-log t (f, (b', w, k)) = (
    ap (λ c. published_of c num) k ∙ published_laid (core s0) num b' ∙ w ∙ held,
    λ m ne. ap (λ c. published_of c m) k ∙ other_laid (core s0) num b' m ne,
  )

  Published-log :
      (t : Store)
      → Published env payload num s0 b here room fit t
      → Represents env t num (ps ++ (payload ∷ [])) × OthersKept num s0 t
  Published-log t (f, (b', w, k)) =
      let n = (s0.heap num).size + framed_len (length payload) in
      (
        ap (λ c. published_of c num) k
            ∙ published_sized (core s0) num b' n
            ∙ w
            ∙ ap (λ x. x ++ frame env.sum64 payload) held
            ∙ ap (λ x. log_bytes env.sum64 ps ++ x) (sym (append-nil (frame env.sum64 payload)))
            ∙ sym (log_bytes-append env.sum64 ps (payload ∷ [])),
        λ m ne. ap (λ c. published_of c m) k ∙ other_sized (core s0) num b' n m ne,
      )

  pub Ended-log :
      (r : Result (Unit {0})) (t : Store)
      → Ended env payload num s0 b here room fit r t
      → LogAfter env num ps payload r t × OthersKept num s0 t
  Ended-log (ok _) t e = Published-log t e
  Ended-log (err x) t (inl e) = let p = Unpublished-log t e in (inl p.0, p.1)
  Ended-log (err x) t (inr e) = let p = Published-log t e in (inr p.0, p.1)
