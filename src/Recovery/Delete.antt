-- ===== src/Recovery/Delete.antt =====
-- recovery.go: what `loadFile` deletes, and what it has to see first.
use diskqueue.Base.{
  ℕ, ◌+◌, ◌<◌, ◌≡◌, refl, sym, ap, ◌∙◌, subst, Bool, true, false, Option, none, some, List, arith,
  length, leb, slice, inl, inr, ◌⊎◌, ==_iff, not, Bool-cases, if◌then◌else◌, ◌==◌,
}
use diskqueue.Frame.{header_size}
use diskqueue.Store.State.{
  Store, Env, Error, Outcome, done, fails, sentinel, join, errors_is, corrupt, short_read,
  not_exist, update,
}
use diskqueue.Store.Files.{sync_dir}
use diskqueue.Store.Action.{when, gets, M, Result, ok, err, ◌>>=◌, ◌>>◌}
use diskqueue.Store.Os.{os_call, os_touch, os_read_at, os_remove, file_bytes}
use diskqueue.Store.Quiet.{
  Keeps, when-Keeps, bind-Keeps, gets-Keeps, if-Keeps, pure-Keeps, fail-Keeps, modify-Keeps,
}
use diskqueue.Store.Quiet.Disk.{
  on_disk, sync_dir-disk, file_len, Sized, os_stat-Sized, present-file_len, os_call-disk,
  file_bytes-Present,
}
use diskqueue.Store.Meets.{
  Meets, then-Meets, attempt-Meets, bind-Meets, if-Meets, either-Meets, pure-Meets, fail-Meets,
  weaken-Meets, keeps-Meets,
}
use diskqueue.Recovery.Drop.{remove_file, drop_segment, read_header, short_header}
use diskqueue.Recovery.Segment.{
  Verdict, bad_magic, torn, unknown, foreign, trusted, judge_header, dropped, kept, load_unmarked,
  load_judged, load_read, load_file,
}
use diskqueue.Recovery.Silence.{
  book_drop-disk, salvage_torn_header-disk, load_trusted-disk, aborted_create-disk,
}

-- No error that the file system answers is one of the code's own marks for damage.
abbrev pub Genuine : Outcome → Type 0
Genuine done = Unit {0}
Genuine (fails c n) =
    (errors_is (sentinel c) corrupt ≡ false) × (errors_is (sentinel c) short_read ≡ false)

abbrev pub Honest : Env → Type 0
Honest env = (n : ℕ) → Genuine (env.outcome n)

-- The headers that no segment can be loaded from.
abbrev pub condemned : Verdict → Bool
condemned bad_magic = true
condemned torn = false
condemned unknown = true
condemned foreign = true
condemned trusted = false

-- The file is too short for a header, or its header is no header of a segment, or of an unknown
-- version.
abbrev pub Condemned : Env → List ℕ → Type 0
Condemned env h =
    (length h < header_size) ⊎ (condemned (judge_header env (slice 0 header_size h)) ≡ true)

-- The disk is as it was, or the file `num` alone is gone, and it deserved it.
abbrev pub Fate : Env → (ℕ → Option (List ℕ)) → ℕ → List ℕ → Store → Type 0
Fate env d num h t = (on_disk t ≡ d) ⊎ ((on_disk t ≡ update d num none) × Condemned env h)

-- The disk is as it was, or the file is gone.
abbrev Gone : (ℕ → Option (List ℕ)) → ℕ → Store → Type 0
Gone d num t = (on_disk t ≡ d) ⊎ (on_disk t ≡ update d num none)

Gone-kept :
    (d : ℕ → Option (List ℕ)) (num : ℕ) (s t : Store)
    → on_disk t ≡ on_disk s
    → Gone d num s
    → Gone d num t
Gone-kept d num s t e (inl g) = inl (e ∙ g)
Gone-kept d num s t e (inr g) = inr (e ∙ g)

condemn :
    (env : Env) (d : ℕ → Option (List ℕ)) (num : ℕ) (h : List ℕ) (t : Store)
    → Condemned env h
    → Gone d num t
    → Fate env d num h t
condemn env d num h t c (inl g) = inl g
condemn env d num h t c (inr g) = inr (g, c)

abbrev Asked : (ℕ → Option (List ℕ)) → Result Outcome → Store → Type 0
Asked d (ok o) t = Genuine o × (on_disk t ≡ d)
Asked d (err e) t = ⊥

abbrev Got : (ℕ → Option (List ℕ)) → List ℕ → Result (List ℕ) → Store → Type 0
Got d h (ok b) t = (on_disk t ≡ d) × (b ≡ h)
Got d h (err e) t = ⊥

abbrev Touched : (ℕ → Option (List ℕ)) → Result (Unit {0}) → Store → Type 0
Touched d (ok a) t = on_disk t ≡ d
Touched d (err e) t = (on_disk t ≡ d) × (errors_is e corrupt ≡ false)

-- The first 64 bytes were read; a short read is a short file.
abbrev ReadOf : (ℕ → Option (List ℕ)) → List ℕ → Result (List ℕ) → Store → Type 0
ReadOf d h (ok b) t = (on_disk t ≡ d) × (b ≡ slice 0 header_size h)
ReadOf d h (err e) t =
    (on_disk t ≡ d)
    × (errors_is e corrupt ≡ false)
    × (errors_is e short_read ≡ true → length h < header_size)

abbrev HeaderOf : (ℕ → Option (List ℕ)) → List ℕ → Result (List ℕ) → Store → Type 0
HeaderOf d h (ok b) t = (on_disk t ≡ d) × (b ≡ slice 0 header_size h)
HeaderOf d h (err e) t = (on_disk t ≡ d) × (errors_is e corrupt ≡ true → length h < header_size)

-- So it is with the outcome in hand.
abbrev Tried : {A : Type 0} → (Result A → Store → Type 0) → Result (Result A) → Store → Type 0
Tried Q (ok r) t = Q r t
Tried Q (err e) t = ⊥

short_header_lem :
    (e : Error)
    → errors_is e corrupt ≡ false
    → errors_is (short_header e) corrupt ≡ true
    → errors_is e short_read ≡ true
short_header_lem e c h = elim (Bool-cases (errors_is e short_read)) [
  | inl short ↦ short
  | inr other ↦
      let k : errors_is e corrupt ≡ true =
        subst (λ (b : Bool). errors_is (if b then join (sentinel corrupt) e else e) corrupt ≡ true)
          other h in
      absurd (let x : false ≡ true = sym c ∙ k in cc)
]

module _ (env : Env) (d : ℕ → Option (List ℕ)) (num : ℕ) where
  os_remove-Gone : (s : Store) → on_disk s ≡ d → Meets (os_remove env num) s (λ r t. Gone d num t)
  unfolding os_remove
  os_remove-Gone s e =
      bind-Meets {R = λ r t. on_disk t ≡ d} _ _ s
        (keeps-Meets {p = on_disk} _ s (os_call-disk env) (λ r t k. k ∙ e))
        (elim [
          | done ↦ λ t k.
              bind-Meets {R = λ r u. on_disk u ≡ d} _ _ t
                (weaken-Meets _ t (file_bytes-Present env num t t refl)
                  (elim [ ok h ↦ λ u x. x.0 ∙ k | err f ↦ λ u x. x ∙ k ]))
                (λ h u k'. record {
                  at = inr (ap (λ (x : ℕ → Option (List ℕ)). update x num none) k');
                })
                (λ f u k'. inl k')
          | fails c n ↦ λ t k. fail-Meets _ t (inl k)
        ])
        (λ f t k. inl k)

  settled-Gone :
      (m : M (Unit {0})) (s : Store)
      → Meets m s (λ r t. Gone d num t)
      → Meets
          (do m; no_sync ← gets (λ s. s.no_sync); when (not no_sync) (sync_dir env))
          s
          (λ r t. Gone d num t)
  settled-Gone m s h =
      bind-Meets {R = λ r t. Gone d num t} _ _ s h
        (λ _ t g.
          keeps-Meets _ t
            (bind-Keeps _ _ (gets-Keeps _) (λ no_sync. when-Keeps _ _ (sync_dir-disk env)))
            (λ r u k. Gone-kept d num t u k g))
        (λ f t g. g)

  remove_file-Gone :
      (s : Store) → on_disk s ≡ d → Meets (remove_file env num) s (λ r t. Gone d num t)
  unfolding remove_file
  remove_file-Gone s e =
      bind-Meets {R = Tried (λ r t. Gone d num t)} _ _ s (attempt-Meets _ s (os_remove-Gone s e))
        (elim [
          | ok _ ↦ λ t g. settled-Gone _ t (pure-Meets tt t g)
          | err f ↦
              λ t g. settled-Gone _ t (either-Meets _ _ _ t (pure-Meets tt t g) (fail-Meets f t g))
        ])
        (λ f t x. absurd x)

  drop_segment-Gone :
      (size : ℕ) (alien : Bool) (s : Store)
      → on_disk s ≡ d
      → Meets (drop_segment env num size alien) s (λ r t. Gone d num t)
  unfolding drop_segment
  drop_segment-Gone size alien s e =
      bind-Meets {R = λ r t. Gone d num t} _ _ s (remove_file-Gone s e)
        (λ _ t g. keeps-Meets _ t (book_drop-disk _ alien) (λ r u k. Gone-kept d num t u k g))
        (λ f t g. g)

  doomed-Fate :
      (h : List ℕ) (m : M (Unit {0})) (s : Store)
      → Condemned env h
      → Meets m s (λ r t. Gone d num t)
      → Meets (dropped env m) s (λ r t. Fate env d num h t)
  unfolding dropped
  doomed-Fate h m s c g =
      bind-Meets {R = λ r t. Gone d num t} _ _ s g
        (λ _ t x. pure-Meets none t (condemn env d num h t c x))
        (λ e t x. condemn env d num h t c x)

  quiet-Fate :
      {A : Type 0} (h : List ℕ) (m : M A) (s : Store)
      → on_disk s ≡ d
      → Keeps on_disk m
      → Meets m s (λ r t. Fate env d num h t)
  quiet-Fate h m s e k = keeps-Meets m s k (λ r t k'. inl (k' ∙ e))

  load_judged-Fate :
      (base size : ℕ) (tail : Bool) (h b : List ℕ) (v : Verdict) (s : Store)
      → on_disk s ≡ d
      → (condemned v ≡ true → Condemned env h)
      → Meets (load_judged env num base size tail b v) s (λ r t. Fate env d num h t)
  unfolding load_judged load_unmarked kept
  load_judged-Fate base size tail h b bad_magic s e c =
      then-Meets {p = on_disk} _ _ s
        (if-Keeps tail _ _ (aborted_create-disk env num size b) (pure-Keeps false))
        (λ aborted t k. doomed-Fate h _ t (c refl) (
          either-Meets aborted _ _ t (remove_file-Gone t (k ∙ e))
            (drop_segment-Gone size false t (k ∙ e))))
        (λ f t k. inl (k ∙ e))
  load_judged-Fate base size tail h b torn s e c = quiet-Fate h _ s e (
      bind-Keeps _ _
        (bind-Keeps _ _ (salvage_torn_header-disk env num base size)
          (λ cc. bind-Keeps _ _ (modify-Keeps _ (λ t. refl)) (λ _. pure-Keeps cc)))
        (λ cc. pure-Keeps (some cc)))
  load_judged-Fate base size tail h b unknown s e c =
      doomed-Fate h _ s (c refl) (drop_segment-Gone size false s e)
  load_judged-Fate base size tail h b foreign s e c =
      doomed-Fate h _ s (c refl) (drop_segment-Gone size true s e)
  load_judged-Fate base size tail h b trusted s e c = quiet-Fate h _ s e (
      bind-Keeps _ _ (gets-Keeps _) (λ segment_size.
        if-Keeps _ _ _
          (bind-Keeps _ _ (load_trusted-disk env num base size b) (λ cc. pure-Keeps (some cc)))
          (fail-Keeps _)))

  load_read-Fate :
      (base size : ℕ) (tail : Bool) (h : List ℕ) (r : Result (List ℕ)) (s : Store)
      → HeaderOf d h r s
      → Meets (load_read env num base size tail r) s (λ r t. Fate env d num h t)
  unfolding load_read
  load_read-Fate base size tail h (err e) s x =
      if-Meets (errors_is e corrupt) _ _ s
        (λ damage. doomed-Fate h _ s (inl (x.1 damage)) (drop_segment-Gone size false s x.0))
        (λ other. fail-Meets e s (inl x.0))
  load_read-Fate base size tail h (ok b) s x =
      load_judged-Fate base size tail h b (judge_header env b) s x.0
        (λ c. inr (subst (λ y. condemned (judge_header env y) ≡ true) x.1 c))

module _ (env : Env) (honest : Honest env) (d : ℕ → Option (List ℕ)) (num : ℕ) (h : List ℕ)
    (there : d num ≡ some h) where
  os_call-Asked : (s : Store) → on_disk s ≡ d → Meets (os_call env) s (Asked d)
  unfolding os_call
  os_call-Asked s e = record { at = (honest s.calls, e) }

  file_bytes-Got : (s : Store) → on_disk s ≡ d → Meets (file_bytes env num) s (Got d h)
  file_bytes-Got s e = record { at = go (s.disk num) refl }
    where
      found : s.disk num ≡ some h
      found = ap (λ (x : ℕ → Option (List ℕ)). x num) e ∙ there

      answer : Option (List ℕ) → Result (List ℕ) × Store
      answer o = elim o [ none ↦ (err (sentinel not_exist), s) | some b ↦ (ok b, s) ]

      go : (o : Option (List ℕ)) → s.disk num ≡ o → Got d h (answer o).0 (answer o).1
      go none f = absurd (let x : none ≡ some h = sym f ∙ found in cc)
      go (some b) f = (e, let x : some b ≡ some h = sym f ∙ found in cc)

  os_touch-Touched : (s : Store) → on_disk s ≡ d → Meets (os_touch env num) s (Touched d)
  unfolding os_touch
  os_touch-Touched s e =
      bind-Meets {R = Asked d} _ _ s (os_call-Asked s e)
        (elim [
          | done ↦ λ t x.
              bind-Meets {R = Got d h} _ _ t (file_bytes-Got t x.1) (λ b u y. pure-Meets tt u y.0)
                (λ f u y. absurd y)
          | fails c n ↦ λ t x. fail-Meets _ t (x.1, x.0.0)
        ])
        (λ f t x. absurd x)

  os_read_at-ReadOf :
      (s : Store) → on_disk s ≡ d → Meets (os_read_at env num 0 header_size) s (ReadOf d h)
  unfolding os_read_at errors_is
  os_read_at-ReadOf s e =
      bind-Meets {R = Asked d} _ _ s (os_call-Asked s e)
        (elim [
          | done ↦ λ t x.
              bind-Meets {R = Got d h} _ _ t (file_bytes-Got t x.1)
                (λ b u y.
                  if-Meets (leb (0 + header_size) (length b)) _ _ u
                    (λ long. pure-Meets _ u (y.0, ap (slice 0 header_size) y.1))
                    (λ short. fail-Meets _ u (
                      y.0,
                      refl,
                      λ _. subst (λ z. length z < header_size) y.1 (ground (arith, short)),
                    )))
                (λ f u y. absurd y)
          | fails c n ↦ λ t x.
              fail-Meets _ t
                (x.1, x.0.0, λ short. absurd (let k : false ≡ true = sym x.0.1 ∙ short in cc))
        ])
        (λ f t x. absurd x)

  read_header-HeaderOf : (s : Store) → on_disk s ≡ d → Meets (read_header env num) s (HeaderOf d h)
  unfolding read_header
  read_header-HeaderOf s e =
      bind-Meets {R = Touched d} _ _ s (os_touch-Touched s e)
        (λ _ t k.
          bind-Meets {R = Tried (ReadOf d h)} _ _ t
            (attempt-Meets _ t (weaken-Meets _ t (os_read_at-ReadOf t k) (λ r u x. x)))
            (elim [
              | ok b ↦ λ u x. pure-Meets b u x
              | err f ↦ λ u x. fail-Meets _ u (x.0, λ damage. x.2 (short_header_lem f x.1 damage))
            ])
            (λ f u x. absurd x))
        (λ f t x. (x.0, λ damage. absurd (let k : false ≡ true = sym x.1 ∙ damage in cc)))

  load_file-Fate :
      (base : ℕ) (tail : Bool) (s : Store)
      → on_disk s ≡ d
      → Meets (load_file env num base tail) s (λ r t. Fate env d num h t)
  unfolding load_file
  load_file-Fate base tail s e =
      bind-Meets {R = Sized s num} _ _ s (os_stat-Sized env num s)
        (λ size t x.
          if-Meets (size == 0) _ _ t
            (λ empty. doomed-Fate env d num h _ t (inl (short size x.1 empty)) (
              either-Meets tail _ _ t (remove_file-Gone env d num t (x.0 ∙ e))
                (drop_segment-Gone env d num size false t (x.0 ∙ e))))
            (λ _.
              bind-Meets {R = Tried (HeaderOf d h)} _ _ t
                (attempt-Meets _ t
                  (weaken-Meets _ t (read_header-HeaderOf t (x.0 ∙ e)) (λ r u y. y)))
                (λ r u y. load_read-Fate env d num base size tail h r u y) (λ f u y. absurd y)))
        (λ f t x. inl (x ∙ e))
    where
      short : (size : ℕ) → size ≡ file_len s num → (size == 0) ≡ true → length h < header_size
      short size same empty =
          let k = present-file_len s num h (ap (λ (x : ℕ → Option (List ℕ)). x num) e ∙ there) in
          let z = (==_iff size 0).0 empty in omega (arith, same, k, z)

-- What is not evidence of damage deletes nothing: whatever loading a segment returns, and wherever a
-- call to the file system fails on the way, each file holds what it held, or this segment's file alone
-- is gone; and then it was shorter than a header, or its header has a foreign magic, a foreign version,
-- or a bad checksum and no known version. The file is there, and no error of the file system is the
-- code's own mark for damage.
pub load_file-deletes :
    (env : Env) (num base : ℕ) (tail : Bool) (s : Store) (h : List ℕ)
    → Honest env
    → s.disk num ≡ some h
    → Fate env (on_disk s) num h (load_file env num base tail s).1
load_file-deletes env num base tail s h honest there =
    (load_file-Fate env honest (on_disk s) num h there base tail s refl).at
