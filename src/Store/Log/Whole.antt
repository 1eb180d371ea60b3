-- ===== src/Store/Log/Whole.antt =====
-- store.go: an append keeps the segment's file whole and the read cache coherent, and is the append
-- of the abstract log.
use diskqueue.Base.{
  zero, suc, ℕ, sym, ◌≡◌, ap, ◌∙◌, ◌≤◌, inl, inr, Bool, false, none, some, List, [], ◌∷◌, arith,
  ◌+◌, ◌-◌, length, length-append, length-take, take, drop, drop-drop, drop-take, take-take, slice,
  subst, ◌==◌, ==_iff, Bool-cases, some-injective, Option-cases,
}
use diskqueue.Frame.{header_size, framed_len, frame}
use diskqueue.Frame.Bounds.{length-frame}
use diskqueue.Store.State.{Store, Env, active, update}
use diskqueue.Store.Action.{Result, ok, err}
use diskqueue.Store.Append.{needs_cycle, append_record}
use diskqueue.Store.Quiet.{update_here}
use diskqueue.Store.Block.Mirror.{Coherent}
use diskqueue.Store.Log.{region, regions}
use diskqueue.Store.Log.Header.{Fits}
use diskqueue.Store.Log.Core.{Core, core, laid, sized, sized_same}
use diskqueue.Store.Log.Append.{Ended, Unpublished, Published, below}
use diskqueue.Store.Log.Outcome.{append_record-Ended}
use diskqueue.Store.Log.Refine.{Whole, Represents, LogAfter, OthersKept, Ended-log}

length_of_take : (n : ℕ) (xs : List ℕ) → length (take n xs) ≡ n → n ≤ length xs
length_of_take zero xs e = omega arith
length_of_take (suc n) [] e = absurd (omega (arith, e))
length_of_take (suc n) (x ∷ xs) e =
    let h = length_of_take n xs (omega (arith, e)) in omega (arith, h)

-- The block repeats the published bytes of its region.
abbrev CoreCoherent : Core → Type 0
CoreCoherent c =
    (m : ℕ)
    → c.cached.file ≡ some m
    → (b : List ℕ) × (c.regions_held m ≡ some b)
      × (c.cached.bytes ≡ slice c.cached.off (length c.cached.bytes) b)
      × (c.cached.off + length c.cached.bytes ≤ c.sizes m)

slice-region :
    (off n : ℕ) (h : List ℕ) → slice (header_size + off) n h ≡ slice off n (drop header_size h)
slice-region off n h = ap (take n) (sym (drop-drop off header_size h))

Coherent-core : (s : Store) → Coherent s → CoreCoherent (core s)
Coherent-core s c m e =
    let (h, there, r) = c m e in
    (
      drop header_size h,
      ap region there,
      r.same_bytes ∙ slice-region s.block.off (length s.block.bytes) h,
      r.within,
    )

core-Coherent : (s : Store) → CoreCoherent (core s) → Coherent s
core-Coherent s c m e =
    let (b, there, same, within) = c m e in
    elim (Option-cases (s.disk m)) [
      | inl gone ↦ absurd (let x : none ≡ some b = sym (ap region gone) ∙ there in cc)
      | inr (h, found) ↦
          let d : drop header_size h ≡ b = some-injective (sym (ap region found) ∙ there) in
          (
            h,
            found,
            record {
              same_bytes =
                  same
                  ∙ ap (slice s.block.off (length s.block.bytes)) (sym d)
                  ∙ sym (slice-region s.block.off (length s.block.bytes) h);
              within = within;
            },
          )
    ]

slice-take : (off n z : ℕ) (b : List ℕ) → off + n ≤ z → slice off n (take z b) ≡ slice off n b
slice-take off n z b l =
    ap (take n) (drop-take off z b (omega arith)) ∙ take-take n (z - off) (drop off b) (omega arith)

module _ (c : Core) (num : ℕ) (b b' : List ℕ) (n : ℕ) (here : c.regions_held num ≡ some b)
    (same : take (c.sizes num) b' ≡ take (c.sizes num) b) (more : c.sizes num ≤ n) where
  sized_above : (m : ℕ) → c.sizes m ≤ update c.sizes num n m
  sized_above m = elim (Bool-cases (num == m)) [
    | inl e ↦ rw e (subst (λ k. c.sizes k ≤ n) ((==_iff num m).0 e) more)
    | inr e ↦ rw e (omega arith)
  ]

  -- What coherence says where the block is of file `m`.
  abbrev CoherentAt : ℕ → Type 0
  CoherentAt m =
      (g : List ℕ) × (update c.regions_held num (some b') m ≡ some g)
      × (c.cached.bytes ≡ slice c.cached.off (length c.cached.bytes) g)
      × (c.cached.off + length c.cached.bytes ≤ update c.sizes num n m)

  at_num : CoreCoherent c → c.cached.file ≡ some num → CoherentAt num
  at_num k e =
      let (g, there, bytes, within) = k num e in
      let off = c.cached.off in
      let len = length c.cached.bytes in
      let z = c.sizes num in
      let g_b : g ≡ b = some-injective (sym there ∙ here) in
      (
        b',
        update_here c.regions_held num (some b'),
        bytes
            ∙ ap (slice off len) g_b
            ∙ sym (slice-take off len z b within)
            ∙ ap (slice off len) (sym same)
            ∙ slice-take off len z b' within,
        omega (arith, within, sized_above num),
      )

  -- The region changes behind the published bytes, and the extent may grow.
  laid-CoreCoherent : CoreCoherent c → CoreCoherent (sized (laid c num b') num n)
  laid-CoreCoherent k m e =
      let (g, there, bytes, within) = k m e in
      let up = sized_above m in
      elim (Bool-cases (num == m)) [
        | inl y ↦
            let q : num ≡ m = (==_iff num m).0 y in
            subst CoherentAt q (at_num k (e ∙ ap some (sym q)))
        | inr other ↦ (g, rw other there, bytes, omega (arith, within, up))
      ]

module _ (env : Env) (payload : List ℕ) (num : ℕ) (s0 : Store) (b : List ℕ)
    (here : regions s0 num ≡ some b) (room : (s0.heap num).size ≤ length b)
    (fit : Fits num s0) where
  abbrev KeptWhole : Store → Type 0
  KeptWhole t = Whole num t × (Coherent s0 → Coherent t)

  -- A store whose core is `s0`'s with the region `b'` and the extent `n`.
  core-Whole :
      (t : Store) (b' : List ℕ) (n : ℕ)
      → Fits num t
      → take (s0.heap num).size b' ≡ take (s0.heap num).size b
      → (s0.heap num).size ≤ n
      → n ≤ length b'
      → core t ≡ sized (laid (core s0) num b') num n
      → KeptWhole t
  core-Whole t b' n f same more long k = (
    (
      (
        b',
        ap (λ (c : Core). c.regions_held num) k ∙ update_here (core s0).regions_held num (some b'),
        omega (arith, ap (λ (c : Core). c.sizes num) k ∙ update_here (core s0).sizes num n, long),
      ),
      f,
    ),
    λ c. core-Coherent t (
        subst CoreCoherent (sym k)
          (laid-CoreCoherent (core s0) num b b' n here same more (Coherent-core s0 c))),
  )

  Unpublished-Whole : (t : Store) → Unpublished env payload num s0 b here room fit t → KeptWhole t
  Unpublished-Whole t (f, (b', w, k)) =
      let z = (s0.heap num).size in
      let same : core t ≡ sized (laid (core s0) num b') num z =
        k ∙ sym (sized_same (laid (core s0) num b') num) in
      core-Whole t b' z f w (omega arith) (length_of_take z b' (ap length w ∙ length-take z b room))
        same

  Published-Whole : (t : Store) → Published env payload num s0 b here room fit t → KeptWhole t
  Published-Whole t (f, (b', w, k)) =
      let z = (s0.heap num).size in
      let n = framed_len (length payload) in
      let l : length (take (z + n) b') ≡ z + n = omega (
        arith,
        ap length w,
        length-append (take z b) (frame env.sum64 payload),
        length-take z b room,
        length-frame env.sum64 payload,
      ) in
      core-Whole t b' (z + n) f (below env payload num s0 b here room fit b' w) (omega arith)
        (length_of_take (z + n) b' l) k

  Ended-Whole :
      (r : Result (Unit {0})) (t : Store)
      → Ended env payload num s0 b here room fit r t
      → KeptWhole t
  Ended-Whole (ok _) t e = Published-Whole t e
  Ended-Whole (err x) t (inl e) = Unpublished-Whole t e
  Ended-Whole (err x) t (inr e) = Published-Whole t e

-- The active segment of a store is a log of records. An append that fits it, whatever the calls to
-- the file system do, ends with the record at the end of the log, or fails: then the log is as it
-- was, or has the record and its flush failed. The other segments' published bytes are as they were,
-- the file stays whole and the read cache coherent.
pub append_refines :
    (env : Env) (payload : List ℕ) (force : Bool) (num : ℕ) (s : Store) (ps : List (List ℕ))
    → active s ≡ some num
    → needs_cycle (framed_len (length payload)) s ≡ false
    → Whole num s
    → Represents env s num ps
    → Coherent s
    → let (r, t) = append_record env payload force s in
      LogAfter env num ps payload r t × OthersKept num s t × Whole num t × Coherent t
append_refines env payload force num s ps act stay ((b, here, room), fit) log c =
    let e = (append_record-Ended env payload force num s b here room fit act stay).at in
    let l = Ended-log env payload num s b here room fit ps log _ _ e in
    let w = Ended-Whole env payload num s b here room fit _ _ e in (l.0, l.1, w.0, w.1 c)
