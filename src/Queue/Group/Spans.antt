-- ===== src/Queue/Group/Spans.antt =====
-- diskqueue.go: publishing a span, and the end of a span with its verdict.
use diskqueue.Base.{ℕ, ◌≤◌, ◌≡◌, refl, sym, ap, ◌∙◌, subst, Option, none, some, inl, inr, arith}
use diskqueue.Store.State.{Store, Error}
use diskqueue.Store.Append.{take_span, discard_staged}
use diskqueue.Queue.Group.{
  stamping, Leader, Shared, close_group, own, start_span, finish_next, finish,
}
use diskqueue.Queue.Group.Moves.{Outcome, leader-Sane}
use diskqueue.Queue.Group.Invariant.{
  Reached, Settled, Flown, MineSane, HeldSane, is_led, Sane, joined, held, decided,
}
use diskqueue.Queue.Group.Open.{
  same_leader, close_group-here, close_group-other, close_group-either, held-apart, held-current,
  held-decided, own-Settled,
}

-- The span failed: every open group has the error, and nothing is staged.
pub fail-Outcome :
    (sh : Shared) (l : Leader) (t : Store) (e : Error)
    → Sane sh
    → sh.leader ≡ some l
    → t.write_off ≡ sh.st.write_off
    → Outcome l.thread sh (finish l (some e) (record sh { st = t }))
unfolding finish discard_staged
fail-Outcome sh l t e s el w =
    let x = leader-Sane sh l s el in
    let apart : (g : ℕ) → sh.next_group ≤ g → ¬ (sh.cur_group ≡ some g) =
      λ g h c. omega (arith, (s.current g c).0, h) in
    record {
      onward = record {
        sane = record {
          led = refl;
          leader_sane = (refl, refl);
          fresh = λ g h.
              close_group-other sh.cur_group g _ _ (apart g h)
              ∙ close_group-other l.group g _ _ (held-apart _ _ g _ l.group x.1 h)
              ∙ s.fresh g h;
          current = λ g c. absurd cc;
          durable_le = let h = s.durable_le in omega (arith, w, h);
        };
        covered = λ g end. elim [
          | joined c h ↦
              decided (some e)
                (subst
                  (λ o.
                    close_group o (some e) (close_group l.group (some e) sh.verdicts) g
                    ≡ some (some e))
                  (sym c) (close_group-here g (some e) (close_group l.group (some e) sh.verdicts)))
                (λ n. absurd cc)
          | held l' e' k r ↦
              decided (some e)
                (let k' : l.group ≡ some g = ap (λ y. y.group) (same_leader sh l l' el e') ∙ k in
                  elim (close_group-either sh.cur_group g (some e)
                    (close_group l.group (some e) sh.verdicts)) [
                      | inl here ↦ here
                      | inr there ↦
                          there
                          ∙ subst (λ o. close_group o (some e) sh.verdicts g ≡ some (some e))
                              (sym k') (close_group-here g (some e) sh.verdicts)
                    ])
                (λ n. absurd cc)
          | decided e' k r ↦
              decided e'
                (close_group-other sh.cur_group g _ _
                    (λ c. absurd (let h : none ≡ some e' = sym ((s.current g c).1) ∙ k in cc))
                  ∙ close_group-other l.group g _ _ (held-decided _ _ g e' _ l.group x.1 k)
                  ∙ k)
                r
        ];
        durable_grows = omega arith;
        others = λ l' e'. inl (sym (ap (λ y. y.thread) (same_leader sh l l' el e')));
      };
      good = own-Settled sh.st sh.durable l.phase l.end l.mine (some e) x.0 (λ r n. absurd cc);
    }

-- What is asked where a span ended well: it is on disk, up to the write cursor.
record Done (sh : Shared) (l : Leader) : Type 0 where
  sane : Sane sh
  el : sh.leader ≡ some l
  ph : l.phase ≡ stamping
  on_disk : sh.durable ≡ sh.st.write_off

flown_after : (sh : Shared) (l : Leader) → Done sh l → sh.st.in_flight ≡ 0
flown_after sh l d = subst (Flown sh.st) d.ph (leader-Sane sh l d.sane d.el).2

own_after : (sh : Shared) (l : Leader) → Done sh l → Settled sh.durable (own l.mine none) l.end
own_after sh l d =
    own-Settled sh.st sh.durable stamping l.end l.mine none
      (subst (λ h. MineSane sh.st sh.durable h l.end l.mine) d.ph (leader-Sane sh l d.sane d.el).0)
      (λ r n. let h = d.on_disk in omega (arith, r, h))

fresh_after :
    (sh : Shared) (l : Leader)
    → Done sh l
    → (g : ℕ) → sh.next_group ≤ g
    → close_group l.group none sh.verdicts g ≡ none
fresh_after sh l d g h =
    close_group-other l.group g none sh.verdicts
      (held-apart _ _ g _ l.group (leader-Sane sh l d.sane d.el).1 h)
    ∙ d.sane.fresh g h

held_after :
    (sh : Shared) (l l' : Leader) (g end : ℕ)
    → Done sh l
    → sh.leader ≡ some l'
    → l'.group ≡ some g
    → Reached sh.st l'.phase end
    → (close_group l.group none sh.verdicts g ≡ some none) × (end ≤ sh.durable)
held_after sh l l' g end d e k r =
    let same = same_leader sh l l' d.el e in
    let k' : l.group ≡ some g = ap (λ y. y.group) same ∙ k in
    let r' : end ≤ sh.st.write_off =
      subst (λ h. Reached sh.st h end) (sym (ap (λ y. y.phase) same) ∙ d.ph) r in
    let h = d.on_disk in
    (
      subst (λ o. close_group o none sh.verdicts g ≡ some none) (sym k')
          (close_group-here g none sh.verdicts),
      omega (arith, r', h),
    )

decided_after :
    (sh : Shared) (l : Leader) (g : ℕ) (e : Option Error)
    → Done sh l
    → sh.verdicts g ≡ some e
    → close_group l.group none sh.verdicts g ≡ some e
decided_after sh l g e d k =
    close_group-other l.group g none sh.verdicts
      (held-decided _ _ g e _ l.group (leader-Sane sh l d.sane d.el).1 k)
    ∙ k

finish_next-Outcome :
    (sh : Shared) (l : Leader) (c : Option ℕ)
    → Done sh l
    → sh.cur_group ≡ c
    → Outcome l.thread sh
        (finish_next l c (record sh { verdicts = close_group l.group none sh.verdicts }))
unfolding finish_next start_span take_span
finish_next-Outcome sh l none d c =
    let x = leader-Sane sh l d.sane d.el in
    record {
      onward = record {
        sane = record {
          led = refl;
          leader_sane = (let f = flown_after sh l d in let p = x.3 c in omega (arith, f, p), c);
          fresh = fresh_after sh l d;
          current = λ g e. absurd (let h : none ≡ some g = sym c ∙ e in cc);
          durable_le = d.sane.durable_le;
        };
        covered = λ g end. elim [
          | joined e h ↦ absurd (let h : none ≡ some g = sym c ∙ e in cc)
          | held l' e k r ↦ let v = held_after sh l l' g end d e k r in decided none v.0 (λ n. v.1)
          | decided e k r ↦ decided e (decided_after sh l g e d k) r
        ];
        durable_grows = omega arith;
        others = λ l' e. inl (sym (ap (λ y. y.thread) (same_leader sh l l' d.el e)));
      };
      good = own_after sh l d;
    }
finish_next-Outcome sh l (some g) d c =
    let x = leader-Sane sh l d.sane d.el in
    let f = flown_after sh l d in
    record {
      onward = record {
        sane = record {
          led = d.sane.led ∙ ap is_led d.el;
          leader_sane = (own_after sh l d, apart, tt, λ n. refl);
          fresh = fresh_after sh l d;
          current = λ g e. absurd cc;
          durable_le = d.sane.durable_le;
        };
        covered = λ k end. elim [
          | joined e h ↦ held _ refl e (omega (arith, f, h))
          | held l' e q r ↦ let v = held_after sh l l' k end d e q r in decided none v.0 (λ n. v.1)
          | decided e q r ↦ decided e (decided_after sh l k e d q) r
        ];
        durable_grows = omega arith;
        others = λ l' e. inr (_, refl, ap (λ y. y.thread) (same_leader sh l l' d.el e));
      };
      good = (_, refl, refl);
    }
  where
    apart : HeldSane none sh.next_group (close_group l.group none sh.verdicts) sh.cur_group
    apart = subst (HeldSane none sh.next_group (close_group l.group none sh.verdicts)) (sym c) (
      (d.sane.current g c).0,
      close_group-other l.group g none sh.verdicts
            (held-current _ _ g _ l.group (leader-Sane sh l d.sane d.el).1 c)
          ∙ (d.sane.current g c).1,
      λ e. absurd cc,
    )

-- The span is on disk: its group has no error, and the next group's records are the next span.
pub finish-Outcome :
    (sh : Shared) (l : Leader)
    → Sane sh
    → sh.leader ≡ some l
    → l.phase ≡ stamping
    → sh.durable ≡ sh.st.write_off
    → Outcome l.thread sh (finish l none sh)
unfolding finish
finish-Outcome sh l s el ph w =
    finish_next-Outcome sh l sh.cur_group (record { sane = s; el = el; ph = ph; on_disk = w }) refl
