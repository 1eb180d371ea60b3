-- ===== src/Store/Log/Write.antt =====
-- What one write to a file leaves, and what a write of the header leaves of the data regions.
use mathlib.Core.Path.{fun_ext}
use diskqueue.Base.{
  ℕ, refl, sym, ◌≡◌, ap, ◌∙◌, ◌⊎◌, inl, inr, ◌≤◌, Option, none, some, List, arith, length, take,
  ◌==◌, ==_iff, Bool-cases, zero, suc, [], ◌∷◌,
}
use diskqueue.Frame.{header_size}
use diskqueue.Store.State.{Store, Block, Env, Outcome, done, fails, sentinel, not_exist, update}
use diskqueue.Store.Action.{M, Result, ok, err, ◌>>=◌, fail, modify}
use diskqueue.Store.Os.{os_write_at, file_bytes, write_bytes}
use diskqueue.Store.Quiet.{Keeps, View}
use diskqueue.Store.Meets.{Meets, bind-Meets, then-Meets}
use diskqueue.Store.Log.{region}
use diskqueue.Store.Log.Bytes.{drop-write_header}
use diskqueue.Store.Log.Handling.{Data, data_of, os_call-Data}

-- One file is another.
abbrev pub put_on : Data → ℕ → List ℕ → Data
put_on d num h = record d { on = update d.on num (some h) }

-- The write was done, or a part of it, or nothing.
abbrev pub Wrote : Store → ℕ → ℕ → List ℕ → Result (Unit {0}) → Store → Type 0
Wrote s num off bs (ok _) t =
    (h : List ℕ) × (s.disk num ≡ some h)
    × (data_of t ≡ put_on (data_of s) num (write_bytes off bs h))
Wrote s num off bs (err e) t =
    (data_of t ≡ data_of s)
    ⊎ ((h : List ℕ) × (n : ℕ) × (s.disk num ≡ some h)
        × (data_of t ≡ put_on (data_of s) num (write_bytes off (take n bs) h)))

abbrev Found : Store → ℕ → Result (List ℕ) → Store → Type 0
Found s num (ok h) t = (t ≡ s) × (s.disk num ≡ some h)
Found s num (err e) t = t ≡ s

module _ (env : Env) where
  file_bytes-Found : (num : ℕ) (s : Store) → Meets (file_bytes env num) s (Found s num)
  file_bytes-Found num s = record { at = go (s.disk num) refl }
    where
      answer : Option (List ℕ) → Result (List ℕ) × Store
      answer o = elim o [ none ↦ (err (sentinel not_exist), s) | some h ↦ (ok h, s) ]

      go : (o : Option (List ℕ)) → s.disk num ≡ o → Found s num (answer o).0 (answer o).1
      go none e = refl
      go (some h) e = (refl, e)

  pub os_write_at-Wrote :
      (num off : ℕ) (bs : List ℕ) (s : Store)
      → Meets (os_write_at env num off bs) s (Wrote s num off bs)
  unfolding os_write_at ◌>>=◌
  os_write_at-Wrote num off bs s =
      then-Meets {p = data_of} _ _ s (os_call-Data env)
        (λ o t d.
          bind-Meets {R = Found t num} _ _ t (file_bytes-Found num t)
            (λ h u f.
              let k = ap data_of f.0 ∙ d in
              let there : s.disk num ≡ some h = ap (λ (w : Data). w.on num) (sym d) ∙ f.1 in
              ending o h u k there)
            (λ e u f. inl (ap data_of f ∙ d)))
        (λ e t d. inl d)
    where
      write : List ℕ → List ℕ → M (Unit {0})
      write cs h = modify (λ s. record s { disk = update s.disk num (some (write_bytes off cs h)) })

      ending :
          (o : Outcome) (h : List ℕ) (u : Store)
          → data_of u ≡ data_of s
          → s.disk num ≡ some h
          → Meets
              (elim o [
                | done ↦ write bs h
                | fails e n ↦ write (take n bs) h >>= λ _. fail (sentinel e)
              ])
              u
              (Wrote s num off bs)
      ending done h u k there = record {
        at = (h, there, ap (λ d. put_on d num (write_bytes off bs h)) k);
      }
      ending (fails e n) h u k there = record {
        at = inr (h, n, there, ap (λ d. put_on d num (write_bytes off (take n bs) h)) k);
      }

-- What a header write does not see: the data regions, contents, block and headers in memory.
pub record Facts : Type 0 where
  pub bodies : ℕ → Option (List ℕ)
  pub shown : View
  pub cached : Block
  pub headers : ℕ → List ℕ × List ℕ

abbrev pub facts_of_data : Data → Facts
facts_of_data d = record {
  bodies = λ n. region (d.on n);
  shown = d.shown;
  cached = d.cached;
  headers = d.headers;
}

abbrev pub facts : Store → Facts
facts s = facts_of_data (data_of s)

pub Data-Facts : {A : Type 0} (m : M A) → Keeps data_of m → Keeps facts m
Data-Facts m k = record { at = λ s. ap facts_of_data (k.at s) }

-- The regions of the files once one of them is another with the same region.
put_on-facts :
    (d : Data) (num : ℕ) (h h' : List ℕ)
    → d.on num ≡ some h
    → region (some h') ≡ region (some h)
    → facts_of_data (put_on d num h') ≡ facts_of_data d
put_on-facts d num h h' there same =
    ap (λ (x : ℕ → Option (List ℕ)). record (facts_of_data d) { bodies = x }) (fun_ext at)
  where
    at : (n : ℕ) → region (update d.on num (some h') n) ≡ region (d.on n)
    at n = elim (Bool-cases (num == n)) [
      | inl e ↦ rw e (same ∙ ap region (sym there) ∙ ap (λ i. region (d.on i)) ((==_iff num n).0 e))
      | inr e ↦ rw e refl
    ]

pub length-take_le : (n : ℕ) (xs : List ℕ) → length (take n xs) ≤ length xs
length-take_le zero xs = omega arith
length-take_le (suc n) [] = omega arith
length-take_le (suc n) (x ∷ xs) = let h = length-take_le n xs in omega arith

module _ (env : Env) where
  pub os_write_header-Facts :
      (num : ℕ) (bs : List ℕ) → length bs ≤ header_size → Keeps facts (os_write_at env num 0 bs)
  os_write_header-Facts num bs l = record {
    at = λ s. go s _ _ (os_write_at-Wrote env num 0 bs s).at;
  }
    where
      go :
          (s : Store) (r : Result (Unit {0})) (t : Store) → Wrote s num 0 bs r t → facts t ≡ facts s
      go s (ok _) t (h, there, k) =
          ap facts_of_data k
          ∙ put_on-facts (data_of s) num h (write_bytes 0 bs h) there
              (ap some (drop-write_header bs h l))
      go s (err e) t (inl k) = ap facts_of_data k
      go s (err e) t (inr (h, n, there, k)) =
          ap facts_of_data k
          ∙ put_on-facts (data_of s) num h (write_bytes 0 (take n bs) h) there
              (ap some (drop-write_header (take n bs) h (omega (arith, length-take_le n bs, l))))
