-- ===== src/Store/Block/Steady.antt =====
-- store.go, record.go: a read of a file, and what it leaves of a coherent cache.
use diskqueue.Base.{
  some-injective, ℕ, ◌+◌, ◌≤◌, ◌≡◌, refl, sym, ap, ◌∙◌, Bool, true, false, Option, none, some, List,
  [], arith, length, slice, leb, if◌then◌else◌, subst, le→leb,
}
use diskqueue.Frame.{header_size}
use diskqueue.Store.State.{Store, Block, Env, Outcome, done, fails, Sentinel, sentinel, not_exist}
use diskqueue.Store.Action.{Result, ok, err}
use diskqueue.Store.Os.{os_call, file_bytes, os_read_at}
use diskqueue.Store.Segments.{drop_block}
use diskqueue.Store.Block.{block_has, starts_at}
use diskqueue.Store.Quiet.{View, view}
use diskqueue.Store.Quiet.Disk.{on_disk}
use diskqueue.Store.Meets.{Meets, bind-Meets, pure-Meets, fail-Meets}
use diskqueue.Store.Block.Mirror.{Repeats, Mirrors, is_num→some}

-- A call to the file system failed.
abbrev pub Faulty : Env → Type 0
Faulty env = (k : ℕ) × (c : Sentinel) × (n : ℕ) × (env.outcome k ≡ fails c n)

-- What a read leaves alone, and the block.
abbrev pub behind : Store → (ℕ → Option (List ℕ)) × View × Block
behind s = (s.disk, view s, s.block)

-- The outcome of the call, which changed nothing of this.
abbrev Called : Env → Store → Result Outcome → Store → Type 0
Called env s (ok o) t = (behind t ≡ behind s) × ((k : ℕ) × (env.outcome k ≡ o))
Called env s (err e) t = ⊥

os_call-Called : (env : Env) (s : Store) → Meets (os_call env) s (Called env s)
unfolding os_call
os_call-Called env s = record { at = (refl, (s.calls, refl)) }

-- The disk, the contents and the cursors are those of `s`, and the block repeats its file.
abbrev pub Steady : Store → Store → Type 0
Steady s t =
    (on_disk t ≡ on_disk s) × (view t ≡ view s) × Mirrors s.disk (λ n. (s.heap n).size) t.block

module _ (env : Env) (s : Store) (num : ℕ) (h : List ℕ) (there : s.disk num ≡ some h) where
  -- `n` bytes at `off` of the file, or a failed call.
  abbrev pub Got : ℕ → ℕ → Store → Result (List ℕ) → Store → Type 0
  Got off n t (ok bytes) u = (behind u ≡ behind t) × (bytes ≡ slice off n h)
  Got off n t (err e) u = (behind u ≡ behind t) × Faulty env

  file_here : (t u : Store) → on_disk t ≡ on_disk s → behind u ≡ behind t → u.disk num ≡ some h
  file_here t u d b = ap (λ w. w.0 num) b ∙ ap (λ w. w num) d ∙ there

  abbrev Held : Store → Result (List ℕ) → Store → Type 0
  Held t (ok bytes) u = (behind u ≡ behind t) × (bytes ≡ h)
  Held t (err e) u = ⊥

  file_bytes-Held : (t : Store) → t.disk num ≡ some h → Meets (file_bytes env num) t (Held t)
  file_bytes-Held t e = record {
    at = subst (λ o. Held t (answer o).0 (answer o).1) (sym e) (refl, refl);
  }
    where
      answer : Option (List ℕ) → Result (List ℕ) × Store
      answer o = elim o [ none ↦ (err (sentinel not_exist), t) | some h ↦ (ok h, t) ]

  pub os_read_at-Got :
      (off n : ℕ) (t : Store)
      → off + n ≤ length h
      → on_disk t ≡ on_disk s
      → Meets (os_read_at env num off n) t (Got off n t)
  unfolding os_read_at
  os_read_at-Got off n t l d =
      bind-Meets {R = Called env t} _ _ t (os_call-Called env t)
        (elim [
          | done ↦ λ u c.
              bind-Meets {R = Held u} _ _ u (file_bytes-Held u (file_here t u d c.0))
                (λ bytes v x.
                  let fits : leb (off + n) (length bytes) ≡ true =
                    rw x.1 (le→leb (off + n) (length h) l) in
                  rw fits (pure-Meets _ v (x.0 ∙ c.0, ap (slice off n) x.1)))
                (λ e v x. absurd x)
          | fails e k ↦ λ u c. fail-Meets (sentinel e) u (c.0, (c.1.0, e, k, c.1.1))
        ])
        (λ e u x. absurd x)

  -- The block covers the `n` bytes at `off`, or a call failed; the cache is coherent either way.
  abbrev pub Filled : ℕ → ℕ → Result (Unit {0}) → Store → Type 0
  Filled off n (ok _) t = Steady s t × (block_has num off n t ≡ true)
  Filled off n (err e) t = Steady s t × Faulty env

  pub drop_block-Steady : (t : Store) → Steady s t → Steady s (drop_block t).1
  unfolding drop_block
  drop_block-Steady t x = (x.0, x.1, λ m e. absurd (let n : none ≡ some m = e in cc))

  -- A block of this file repeats it.
  pub repeats :
      (t : Store) → Steady s t → t.block.file ≡ some num → Repeats t.block (s.heap num).size h
  repeats t x e =
      let (h', d, r) = x.2 num e in
      let same : h' ≡ h = some-injective (sym d ∙ there) in
      subst (λ k. Repeats t.block (s.heap num).size k) same r

  pub starts_at→ :
      (off : ℕ) (t : Store)
      → starts_at num off t ≡ true
      → (t.block.file ≡ some num) × (t.block.off ≡ off)
  unfolding starts_at
  starts_at→ off t e = (is_num→some num t.block.file (ground arith), ground arith)

  -- What the block holds already is a prefix of what is asked.
  abbrev pub Prefix : ℕ → List ℕ → Type 0
  Prefix off have = have ≡ slice (header_size + off) (length have) h

  pub have_bytes :
      (off : ℕ) (t : Store) (same : Bool)
      → Steady s t
      → starts_at num off t ≡ same
      → Prefix off (if same then t.block.bytes else [])
  have_bytes off t false x e = refl
  have_bytes off t true x e =
      let p = starts_at→ off t e in
      (repeats t x p.0).same_bytes ∙ ap (λ o. slice (header_size + o) (length t.block.bytes) h) p.1

  abbrev pub Ready : Result (Unit {0}) → Store → Type 0
  Ready (ok _) t = Steady s t
  Ready (err e) t = ⊥

  pub moved : (t u : Store) → Steady s t → behind u ≡ behind t → Steady s u
  moved t u x b = (
    ap (λ w. w.0) b ∙ x.0,
    ap (λ w. w.1) b ∙ x.1,
    subst (λ w. Mirrors s.disk (λ n. (s.heap n).size) w) (ap (λ w. w.2) (sym b)) x.2,
  )
