-- ===== src/Queue/Group/Staging.antt =====
-- diskqueue.go: a record that is staged joins a group, or its producer leads.
use diskqueue.Base.{
  ℕ, ◌+◌, ◌≤◌, ◌≡◌, refl, sym, ap, ◌∙◌, subst, true, false, Option, none, some, inl, inr,
  Option-cases, arith,
}
use diskqueue.Store.State.{Store}
use diskqueue.Store.Append.{take_span}
use diskqueue.Queue.Group.{Leader, Shared, leading, staged_end, start_span, join_group}
use diskqueue.Queue.Group.Moves.{
  Outcome, leader-Sane, idle-Sane, Alike, Reached-Alike, mine-Alike, Flown-Alike,
}
use diskqueue.Queue.Group.Invariant.{HeldSane, LeaderSane, is_led, Sane, joined, held, decided}

pub led_by : (sh : Shared) → Sane sh → sh.flushing ≡ true → (l : Leader) × (sh.leader ≡ some l)
led_by sh s f = elim (Option-cases sh.leader) [
  | inl free ↦ absurd (ground (arith, sym f ∙ s.led ∙ ap is_led free))
  | inr (l, e) ↦ (l, e)
]

pub unled : (sh : Shared) → Sane sh → sh.flushing ≡ false → sh.leader ≡ none
unled sh s f = elim (Option-cases sh.leader) [
  | inl free ↦ free
  | inr (l, e) ↦ absurd (ground (arith, sym f ∙ s.led ∙ ap is_led e))
]

-- The state with a record staged behind the leader's span, and its group.
abbrev pub grouped : Shared → Store → Option ℕ → Shared
grouped sh t (some g) = record sh { st = t }
grouped sh t none = record sh {
  st = t;
  cur_group = some sh.next_group;
  next_group = sh.next_group + 1;
}

-- The next group is fresh.
held-grouped :
    (sh : Shared) (g : Option ℕ)
    → HeldSane sh.cur_group sh.next_group sh.verdicts g
    → HeldSane (some sh.next_group) (sh.next_group + 1) sh.verdicts g
held-grouped sh none x = tt
held-grouped sh (some g) x =
    (omega (arith, x.0), x.1, λ e. let h : sh.next_group ≡ g = cc in omega (arith, x.0, h))

pub join_group-Outcome :
    (i : ℕ) (sh : Shared) (t : Store) (c : Option ℕ)
    → Sane sh
    → sh.flushing ≡ true
    → sh.cur_group ≡ c
    → Alike sh.st t
    → sh.st.pending_bytes ≤ t.pending_bytes
    → Outcome i sh (join_group c (record sh { st = t }))
unfolding join_group
join_group-Outcome i sh t (some g) s f e a p =
    let (l, el) = led_by sh s f in
    let x = leader-Sane sh l s el in
    record {
      onward = record {
        sane = record {
          led = s.led;
          leader_sane =
              subst (LeaderSane t sh.durable sh.cur_group sh.next_group sh.verdicts) (sym el) (
                mine-Alike sh.st t sh.durable l.phase l.end l.mine a x.0,
                x.1,
                Flown-Alike sh.st t l.phase a x.2,
                λ n. absurd (let h : some g ≡ none = sym e ∙ n in cc),
              );
          fresh = s.fresh;
          current = s.current;
          durable_le = let h = s.durable_le in omega (arith, a, h);
        };
        covered = λ k end. elim [
          | joined c h ↦ joined c (omega (arith, a, p, h))
          | held l e k r ↦ held l e k (Reached-Alike sh.st t l.phase end a r)
          | decided e k r ↦ decided e k r
        ];
        durable_grows = omega arith;
        others = λ l e. inr (l, e, refl);
      };
      good = joined e (omega arith);
    }
join_group-Outcome i sh t none s f e a p =
    let (l, el) = led_by sh s f in
    let x = leader-Sane sh l s el in
    record {
      onward = record {
        sane = record {
          led = s.led;
          leader_sane =
              subst (LeaderSane t sh.durable (some sh.next_group) (sh.next_group + 1) sh.verdicts)
                (sym el)
                (
                  mine-Alike sh.st t sh.durable l.phase l.end l.mine a x.0,
                  held-grouped sh l.group x.1,
                  Flown-Alike sh.st t l.phase a x.2,
                  λ n. absurd cc,
                );
          fresh = λ g h. s.fresh g (omega (arith, h));
          current = λ g c.
              let same : sh.next_group ≡ g = cc in
              (omega (arith, same), s.fresh g (omega (arith, same)));
          durable_le = let h = s.durable_le in omega (arith, a, h);
        };
        covered = λ k end. elim [
          | joined c h ↦ absurd (let h : none ≡ some k = sym e ∙ c in cc)
          | held l e k r ↦ held l e k (Reached-Alike sh.st t l.phase end a r)
          | decided e k r ↦ decided e k r
        ];
        durable_grows = omega arith;
        others = λ l e. inr (l, e, refl);
      };
      good = joined refl (omega arith);
    }

-- Nothing was staged, and the producer leads the span of its own record.
pub lead-Outcome :
    (i : ℕ) (sh : Shared) (t : Store)
    → Sane sh
    → sh.flushing ≡ false
    → Alike sh.st t
    → Outcome i sh
        (leading, start_span i none (staged_end t) (record sh { st = t; flushing = true }))
unfolding start_span take_span
lead-Outcome i sh t s f a =
    let free = unled sh s f in
    let x = idle-Sane sh s free in
    record {
      onward = record {
        sane = record {
          led = refl;
          leader_sane = (
            omega (arith, a, x.0),
            subst (HeldSane none sh.next_group sh.verdicts) (sym x.1) tt,
            tt,
            λ n. refl,
          );
          fresh = s.fresh;
          current = λ g c. absurd cc;
          durable_le = let h = s.durable_le in omega (arith, a, h);
        };
        covered = λ k end. elim [
          | joined c h ↦ absurd (let h : none ≡ some k = sym x.1 ∙ c in cc)
          | held l e k r ↦ absurd (let h : none ≡ some l = sym free ∙ e in cc)
          | decided e k r ↦ decided e k r
        ];
        durable_grows = omega arith;
        others = λ l e. absurd (let h : none ≡ some l = sym free ∙ e in cc);
      };
      good = (_, refl, refl);
    }
