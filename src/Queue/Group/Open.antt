-- ===== src/Queue/Group/Open.antt =====
-- diskqueue.go: which groups are open, and the two steps of a span before its end.
use diskqueue.Base.{
  ℕ, ◌+◌, ◌≤◌, ◌≡◌, refl, sym, ap, ◌∙◌, subst, Option, none, some, ◌==◌, ==_iff, Bool-cases, inl,
  inr, ◌⊎◌, arith,
}
use diskqueue.Store.State.{Store, Error}
use diskqueue.Store.Quiet.{update_here}
use diskqueue.Queue.Group.{Phase, syncing, stamping, Leader, Shared, leading, close_group, own}
use diskqueue.Queue.Group.Moves.{Outcome, leader-Sane}
use diskqueue.Queue.Group.Invariant.{
  Reached, Settled, MineSane, HeldSane, LeaderSane, is_led, Sane, joined, held, decided, Onward,
}

pub same_leader : (sh : Shared) (l l' : Leader) → sh.leader ≡ some l → sh.leader ≡ some l' → l ≡ l'
same_leader sh l l' e e' = let h : some l ≡ some l' = sym e ∙ e' in cc

-- A closed group has its verdict.
pub close_group-here :
    (g : ℕ) (e : Option Error) (v : ℕ → Option (Option Error)) → close_group (some g) e v g ≡ some e
close_group-here g e v = update_here v g (some e)

-- Closing a group leaves the verdict of any other.
pub close_group-other :
    (o : Option ℕ) (g : ℕ) (e : Option Error) (v : ℕ → Option (Option Error))
    → ¬ (o ≡ some g)
    → close_group o e v g ≡ v g
close_group-other none g e v d = refl
close_group-other (some k) g e v d = elim (Bool-cases (k == g)) [
  | inl same ↦ absurd (d (ap some ((==_iff k g).0 same)))
  | inr other ↦ rw other
]

-- Closing a group with one error, a group has that verdict or its old one.
pub close_group-either :
    (o : Option ℕ) (g : ℕ) (e : Option Error) (v : ℕ → Option (Option Error))
    → (close_group o e v g ≡ some e) ⊎ (close_group o e v g ≡ v g)
close_group-either none g e v = inr refl
close_group-either (some k) g e v = elim (Bool-cases (k == g)) [
  | inl same ↦ inl (rw same)
  | inr other ↦ inr (rw other)
]

-- The group of the leader is not the current one, and is below the next.
pub held-apart :
    (cur : Option ℕ) (next g : ℕ) (v : ℕ → Option (Option Error)) (o : Option ℕ)
    → HeldSane cur next v o
    → next ≤ g
    → ¬ (o ≡ some g)
held-apart cur next g v none x h = λ e. absurd cc
held-apart cur next g v (some k) x h =
    λ e. let same : k ≡ g = cc in absurd (omega (arith, x.0, same, h))

pub held-current :
    (cur : Option ℕ) (next g : ℕ) (v : ℕ → Option (Option Error)) (o : Option ℕ)
    → HeldSane cur next v o
    → cur ≡ some g
    → ¬ (o ≡ some g)
held-current cur next g v none x h = λ e. absurd cc
held-current cur next g v (some k) x h = λ e. x.2 (h ∙ sym e)

-- A group that has a verdict is none of the open ones.
pub held-decided :
    (cur : Option ℕ) (next g : ℕ) (e : Option Error) (v : ℕ → Option (Option Error)) (o : Option ℕ)
    → HeldSane cur next v o
    → v g ≡ some e
    → ¬ (o ≡ some g)
held-decided cur next g e v none x h = λ q. absurd cc
held-decided cur next g e v (some k) x h =
    λ q. let same : k ≡ g = cc in let c : none ≡ some e = sym (x.1) ∙ (ap v same ∙ h) in absurd cc

pub own-Settled :
    (s : Store) (durable : ℕ) (phase : Phase) (end : ℕ) (m : Option (Option Error))
    (e : Option Error)
    → MineSane s durable phase end m
    → (Reached s phase end → Settled durable e end)
    → Settled durable (own m e) end
own-Settled s durable phase end none e x f = f x
own-Settled s durable phase end (some k) e x f = x

-- The header is written: the span's records are below the write cursor.
pub publish-Outcome :
    (sh : Shared) (l : Leader) (t : Store)
    → Sane sh
    → sh.leader ≡ some l
    → l.phase ≡ syncing
    → t.write_off ≡ sh.st.write_off + sh.st.in_flight
    → t.in_flight ≡ 0
    → t.pending_bytes ≡ sh.st.pending_bytes
    → Outcome l.thread sh
        (leading, record sh { st = t; leader = some (record l { phase = stamping }) })
publish-Outcome sh l t s el ph w f p =
    let x = leader-Sane sh l s el in
    record {
      onward = record {
        sane = record {
          led = s.led ∙ ap is_led el;
          leader_sane = (
            moved l.mine (subst (λ h. MineSane sh.st sh.durable h l.end l.mine) ph x.0),
            x.1,
            f,
            λ n. p ∙ x.3 n,
          );
          fresh = s.fresh;
          current = s.current;
          durable_le = let h = s.durable_le in omega (arith, w, h);
        };
        covered = λ g end. elim [
          | joined c h ↦ joined c (omega (arith, w, f, p, h))
          | held l' e k r ↦
              let same = same_leader sh l l' el e in
              held (record l { phase = stamping }) refl (ap (λ y. y.group) same ∙ k)
                (reached end
                  (subst (λ h. Reached sh.st h end) (sym (ap (λ y. y.phase) same) ∙ ph) r))
          | decided e k r ↦ decided e k r
        ];
        durable_grows = omega arith;
        others = λ l' e.
            inr
              (record l { phase = stamping }, refl, ap (λ y. y.thread) (same_leader sh l l' el e));
      };
      good = (record l { phase = stamping }, refl, refl);
    }
  where
    reached : (end : ℕ) → Reached sh.st syncing end → Reached t stamping end
    reached end r = omega (arith, w, r)

    moved :
        (m : Option (Option Error))
        → MineSane sh.st sh.durable syncing l.end m
        → MineSane t sh.durable stamping l.end m
    moved none y = reached l.end y
    moved (some e) y = y

-- The header is on disk up to the write cursor.
pub durable_step :
    (i : ℕ) (sh : Shared) → Sane sh → Onward i sh (record sh { durable = sh.st.write_off })
durable_step i sh s = record {
  sane = record {
    led = s.led;
    leader_sane = later sh.leader s.leader_sane;
    fresh = s.fresh;
    current = s.current;
    durable_le = omega arith;
  };
  covered = λ g end. elim [
    | joined c h ↦ joined c h
    | held l e k r ↦ held l e k r
    | decided e k r ↦ decided e k (λ n. let h = r n in let d = s.durable_le in omega (arith, h, d))
  ];
  durable_grows = s.durable_le;
  others = λ l e. inr (l, e, refl);
}
  where
    mine :
        (phase : Phase) (end : ℕ) (m : Option (Option Error))
        → MineSane sh.st sh.durable phase end m
        → MineSane sh.st sh.st.write_off phase end m
    mine phase end none x = x
    mine phase end (some e) x = λ n. let h = x n in let d = s.durable_le in omega (arith, h, d)

    later :
        (o : Option Leader)
        → LeaderSane sh.st sh.durable sh.cur_group sh.next_group sh.verdicts o
        → LeaderSane sh.st sh.st.write_off sh.cur_group sh.next_group sh.verdicts o
    later none x = x
    later (some l) x = (mine l.phase l.end l.mine x.0, x.1, x.2, x.3)
