-- ===== src/Store/Walk/Skip.antt =====
-- store.go: abandoning a damaged segment moves the commit cursor on.
use diskqueue.Base.{
  ℕ, ◌<◌, ◌≡◌, refl, sym, ap, subst, ◌∙◌, Bool, true, false, Option, none, some, List, [], ◌∷◌,
  ◌++◌, arith, leb, ◌==◌, if◌then◌else◌, All,
}
use diskqueue.Store.State.{Store, Reservation, Env}
use diskqueue.Store.Action.{M, Result, ok, err, ◌>>◌, pure}
use diskqueue.Store.Segments.{file_for_offset}
use diskqueue.Store.Segments.Offset.{Covers, file_for_offset-Covers}
use diskqueue.Store.Ledger.{retire, drop_retired, push_reserved}
use diskqueue.Store.Commit.{
  force_files, force_commit_all, skip_to_tail, retire_segment, abandon_tail, skip_segment,
  skip_corrupt_segment,
}
use diskqueue.Store.Quiet.{
  Keeps, Quiet, View, view, bind-Keeps, pure-Keeps, gets-Keeps, if-Keeps, when-Keeps, modify-Keeps,
}
use diskqueue.Store.Quiet.Reads.{publish_full_commit-Quiet}
use diskqueue.Store.Meets.{
  Meets, then-Meets, gets-Meets, modify-Meets, bind-Meets, if-Meets, when-Meets,
}

-- Every reservation spans a byte at least.
abbrev pub Proper : List Reservation → Type 0
Proper rs = All (λ r. r.start < r.end) rs

if-Proper :
    (b : Bool) (xs ys : List Reservation) → Proper xs → Proper ys → Proper (if b then xs else ys)
if-Proper true xs ys p q = p
if-Proper false xs ys p q = q

retire-Proper : (c : ℕ) (rs : List Reservation) → Proper rs → Proper (retire c rs)
unfolding retire
retire-Proper c [] p = tt
retire-Proper c (r ∷ rs) p = let rest = retire-Proper c rs p.1 in if-Proper (leb r.end c) _ _ rest p

append-Proper :
    (rs : List Reservation) (r : Reservation)
    → Proper rs
    → r.start < r.end
    → Proper (rs ++ (r ∷ []))
append-Proper [] r p h = (h, tt)
append-Proper (x ∷ rs) r p h = (p.0, append-Proper rs r p.1 h)

-- The commit cursor is past `c`, the tail is `tail`, and the ledger is proper.
pub record Past (c tail : ℕ) (t : Store) : Type 0 where
  pub further : c < t.commit_off
  pub tail_kept : t.write_off ≡ tail
  pub proper : Proper t.reserved

abbrev pub Moved : ℕ → ℕ → Result (Unit {0}) → Store → Type 0
Moved c tail (ok _) t = Past c tail t
Moved c tail (err e) t = Unit {0}

-- The tail and the ledger.
abbrev pub ends : Store → ℕ × List Reservation
ends s = (s.write_off, s.reserved)

pub Quiet-ends : {A : Type 0} (m : M A) → Quiet m → Keeps ends m
Quiet-ends m q = record { at = λ s. ap (λ (v : View). (v.write_off, v.reserved)) (q.at s) }

abbrev cursor_ends : Store → ℕ × ℕ × List Reservation
cursor_ends s = (s.commit_off, s.write_off, s.reserved)

Past-cursor_ends :
    (c tail : ℕ) (s t : Store) → cursor_ends t ≡ cursor_ends s → Past c tail s → Past c tail t
Past-cursor_ends c tail s t e p = record {
  further = subst (λ (k : ℕ). c < k) (sym (ap (λ x. x.0) e)) p.further;
  tail_kept = ap (λ x. x.1) e ∙ p.tail_kept;
  proper = subst Proper (sym (ap (λ x. x.2) e)) p.proper;
}

module _ (env : Env) where
  force_files-Keeps : (ns : List ℕ) → Keeps ends (force_files env ns)
  unfolding force_files
  force_files-Keeps [] = pure-Keeps tt
  force_files-Keeps (n ∷ ns) = bind-Keeps _ _ (gets-Keeps _) (λ df.
      if-Keeps _ _ _ (force_files-Keeps ns) (
        bind-Keeps _ _ (Quiet-ends _ (publish_full_commit-Quiet env n)) (λ _.
          bind-Keeps _ _ (modify-Keeps _ (λ s. refl)) (λ _.
            bind-Keeps _ _ (modify-Keeps _ (λ s. refl)) (λ _.
              bind-Keeps _ _ (modify-Keeps _ (λ s. refl))
                (λ _. bind-Keeps _ _ (modify-Keeps _ (λ s. refl)) (λ _. force_files-Keeps ns)))))))

  force_commit_all-Keeps : Keeps ends (force_commit_all env)
  unfolding force_commit_all
  force_commit_all-Keeps =
      bind-Keeps _ _ (gets-Keeps _)
        (λ files. bind-Keeps _ _ (force_files-Keeps files) (λ _. modify-Keeps _ (λ s. refl)))

  skip_to_tail-Moved :
      (s : Store)
      → s.commit_off < s.write_off
      → Proper s.reserved
      → Meets (skip_to_tail env) s (Moved s.commit_off s.write_off)
  unfolding skip_to_tail
  skip_to_tail-Moved s h pr = gets-Meets _ _ s (
      then-Meets {p = ends} _ _ s force_commit_all-Keeps
        (λ _ t e.
          let tail = ap (λ x. x.0) e in
          modify-Meets _ _ t (
            gets-Meets _ _ _ (
              modify-Meets _ _ _ (record {
                at = record {
                  further = omega (arith, tail);
                  tail_kept = tail;
                  proper = subst Proper (sym (ap (λ x. x.1) e)) pr;
                };
              }))))
        (λ e t _. tt))

  retire_segment-Moved :
      (s : Store) (num : ℕ)
      → Covers s.commit_off (s.heap num)
      → Proper s.reserved
      → Meets (retire_segment env num) s (Moved s.commit_off s.write_off)
  unfolding retire_segment
  retire_segment-Moved s num h pr =
      then-Meets {p = view} _ _ s (publish_full_commit-Quiet env num)
        (λ _ t v.
          let b = ap (λ (x : View). (x.extents num).base) v in
          let z = ap (λ (x : View). (x.extents num).size) v in
          gets-Meets _ _ t (
            then-Meets {p = ends} _ _ t
              (when-Keeps _ _
                (bind-Keeps _ _ (modify-Keeps _ (λ s. refl)) (λ _. modify-Keeps _ (λ s. refl))))
              (λ _ u e. record {
                at = record {
                  further = omega (arith, b, z, h);
                  tail_kept = ap (λ x. x.0) e ∙ ap (λ (x : View). x.write_off) v;
                  proper =
                      subst Proper (sym (ap (λ x. x.1) e ∙ ap (λ (x : View). x.reserved) v)) pr;
                };
              })
              (λ e u _. tt)))
        (λ e t _. tt)

  Past-head_off :
      {c tail : ℕ} {t : Store} {h : ℕ} → Past c tail t → Past c tail (record t { head_off = h })
  Past-head_off q = record { further = q.further; tail_kept = q.tail_kept; proper = q.proper }

  book_damage :
      (r : Reservation) (c tail : ℕ) (s : Store)
      → r.start < r.end
      → Past c tail s
      → Meets (drop_retired >> push_reserved r) s (Moved c tail)
  unfolding drop_retired push_reserved
  book_damage r c tail s h q = modify-Meets _ _ _ (record {
    at = record {
      further = q.further;
      tail_kept = q.tail_kept;
      proper = append-Proper _ _ (retire-Proper _ _ q.proper) h;
    };
  })

  abandon_tail-Moved :
      (num off end c tail : ℕ) (s : Store)
      → off < end
      → Past c tail s
      → Meets (abandon_tail env num off end) s (Moved c tail)
  unfolding abandon_tail
  abandon_tail-Moved num off end c tail s h p = gets-Meets _ _ s (
      then-Meets {p = cursor_ends} _ _ s (when-Keeps _ _ (modify-Keeps _ (λ s. refl)))
        (λ _ t e.
          let q = Past-cursor_ends c tail s t e p in
          modify-Meets _ _ t (
            bind-Meets {R = Moved c tail} _ _ _
              (when-Meets _ _ _ (book_damage _ c tail _ h (Past-head_off q)) (Past-head_off q))
              (λ _ u r. record {
                at = record { further = r.further; tail_kept = r.tail_kept; proper = r.proper };
              })
              (λ e u _. tt)))
        (λ e t _. tt))

  -- The two arms of `skipCorruptSegment` at the commit cursor.
  skip_found :
      (s : Store) (found : Option ℕ)
      → file_for_offset s.commit_off s ≡ found
      → s.commit_off < s.write_off
      → Proper s.reserved
      → Meets (skip_segment env s.commit_off found) s (Moved s.commit_off s.write_off)
  unfolding skip_segment
  skip_found s none e h pr = skip_to_tail-Moved s h pr
  skip_found s (some num) e h pr =
      let covers = file_for_offset-Covers s.commit_off s num e in
      gets-Meets _ _ s (
        bind-Meets {R = Moved s.commit_off s.write_off} _ _ s
          (if-Meets (s.commit_off == s.commit_off) (retire_segment env num) (pure tt) s
            (λ _. retire_segment-Moved s num covers pr) (λ apart. absurd (ground arith)))
          (λ _ t p.
            abandon_tail-Moved num s.commit_off _ s.commit_off s.write_off t (omega (arith, covers))
              p)
          (λ e t _. tt))

  -- Abandoning the segment at the commit cursor moves the cursor on, or fails.
  pub skip_corrupt_segment-Moved :
      (s : Store)
      → s.commit_off < s.write_off
      → Proper s.reserved
      → Meets (skip_corrupt_segment env s.commit_off) s (Moved s.commit_off s.write_off)
  unfolding skip_corrupt_segment
  skip_corrupt_segment-Moved s h pr = gets-Meets _ _ s (skip_found s _ refl h pr)
