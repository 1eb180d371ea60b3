-- ===== src/Queue/Group/Moves.antt =====
-- diskqueue.go: each stretch under the lock keeps the invariant: staging, leading, publishing, and
-- the end of a span.
use diskqueue.Base.{ℕ, ◌+◌, ◌≡◌, refl, ap, ◌∙◌, subst, Option, none, some, inr, arith}
use diskqueue.Store.State.{Store, Error}
use diskqueue.Queue.Group.{Phase, syncing, stamping, Leader, Shared, Producer}
use diskqueue.Queue.Group.System.{Marks, marks}
use diskqueue.Queue.Group.Invariant.{
  Reached, Flown, MineSane, LeaderSane, Sane, joined, held, decided, Good, Onward,
}

-- Producer `i` left the lock with the state `x.1` and stands at `x.0`.
pub record Outcome (i : ℕ) (sh : Shared) (x : Producer × Shared) : Type 0 where
  pub onward : Onward i sh x.1
  pub good : Good x.1 i x.0

pub leader-Sane :
    (sh : Shared) (l : Leader)
    → Sane sh
    → sh.leader ≡ some l
    → LeaderSane sh.st sh.durable sh.cur_group sh.next_group sh.verdicts (some l)
leader-Sane sh l s e =
    subst (LeaderSane sh.st sh.durable sh.cur_group sh.next_group sh.verdicts) e s.leader_sane

pub idle-Sane :
    (sh : Shared)
    → Sane sh
    → sh.leader ≡ none
    → (sh.st.in_flight + sh.st.pending_bytes ≡ 0) × (sh.cur_group ≡ none)
idle-Sane sh s e =
    subst (LeaderSane sh.st sh.durable sh.cur_group sh.next_group sh.verdicts) e s.leader_sane

-- The same marks.
abbrev pub Alike : Store → Store → Type 0
Alike s t = (t.write_off ≡ s.write_off) × (t.in_flight ≡ s.in_flight)

pub Reached-Alike :
    (s t : Store) (phase : Phase) (end : ℕ) → Alike s t → Reached s phase end → Reached t phase end
Reached-Alike s t syncing end a r = omega (arith, a, r)
Reached-Alike s t stamping end a r = omega (arith, a, r)

pub Flown-Alike : (s t : Store) (phase : Phase) → Alike s t → Flown s phase → Flown t phase
Flown-Alike s t syncing a x = tt
Flown-Alike s t stamping a x = a.1 ∙ x

pub mine-Alike :
    (s t : Store) (durable : ℕ) (phase : Phase) (end : ℕ) (m : Option (Option Error))
    → Alike s t
    → MineSane s durable phase end m
    → MineSane t durable phase end m
mine-Alike s t durable phase end none a x = Reached-Alike s t phase end a x
mine-Alike s t durable phase end (some e) a x = x

leader-Alike :
    (s t : Store) (durable : ℕ) (cur : Option ℕ) (next : ℕ) (verdicts : ℕ → Option (Option Error))
    (o : Option Leader)
    → Alike s t
    → t.pending_bytes ≡ s.pending_bytes
    → LeaderSane s durable cur next verdicts o
    → LeaderSane t durable cur next verdicts o
leader-Alike s t durable cur next verdicts none a p x = (omega (arith, a, p, x), x.1)
leader-Alike s t durable cur next verdicts (some l) a p x = (
  mine-Alike s t durable l.phase l.end l.mine a x.0,
  x.1,
  Flown-Alike s t l.phase a x.2,
  λ c. p ∙ x.3 c,
)

-- An action that leaves the marks alone.
pub store_step :
    (i : ℕ) (sh : Shared) (t : Store)
    → marks t ≡ marks sh.st
    → Sane sh
    → Onward i sh (record sh { st = t })
store_step i sh t v s =
    let w = ap (λ (m : Marks). m.write_off) v in
    let f = ap (λ (m : Marks). m.in_flight) v in
    let p = ap (λ (m : Marks). m.pending_bytes) v in
    record {
      sane = record {
        led = s.led;
        leader_sane = leader-Alike sh.st t _ _ _ _ sh.leader (w, f) p s.leader_sane;
        fresh = s.fresh;
        current = s.current;
        durable_le = let h = s.durable_le in omega (arith, w, h);
      };
      covered = λ g end. elim [
        | joined c h ↦ joined c (omega (arith, w, f, p, h))
        | held l e k r ↦ held l e k (Reached-Alike sh.st t l.phase end (w, f) r)
        | decided e k r ↦ decided e k r
      ];
      durable_grows = omega arith;
      others = λ l e. inr (l, e, refl);
    }
