-- ===== src/Queue/Group/Invariant.antt =====
-- diskqueue.go: what holds of the producers and the leader whenever the lock is free.
use diskqueue.Base.{
  ℕ, ◌+◌, ◌≤◌, ◌<◌, ◌≡◌, sym, ◌∙◌, subst, if◌then◌else◌, Bool, true, false, Option, none, some,
  ◌==◌, ==_iff, Bool-cases, inl, inr, ◌⊎◌, arith,
}
use diskqueue.Store.State.{Store, Error, update}
use diskqueue.Store.Quiet.{update_here}
use diskqueue.Queue.Group.{
  Phase, syncing, stamping, Leader, Shared, Producer, outside, leading, adding, quiescing, parked,
  waiting, returned, staged_end,
}
use diskqueue.Queue.Group.System.{System, run}

-- A record of the leader's span, up to `end`, has reached the store as far as the phase says.
abbrev pub Reached : Store → Phase → ℕ → Type 0
Reached s syncing end = end ≤ s.write_off + s.in_flight
Reached s stamping end = end ≤ s.write_off

-- A record with the verdict `e`: no error only if it is durable.
abbrev pub Settled : ℕ → Option Error → ℕ → Type 0
Settled durable e end = e ≡ none → end ≤ durable

-- Once the header is written, the span is empty.
abbrev pub Flown : Store → Phase → Type 0
Flown s syncing = Unit {0}
Flown s stamping = s.in_flight ≡ 0

-- The leader's own record, before and behind its verdict.
abbrev pub MineSane : Store → ℕ → Phase → ℕ → Option (Option Error) → Type 0
MineSane s durable phase end none = Reached s phase end
MineSane s durable phase end (some e) = Settled durable e end

-- The group of the span is open and no longer the current one.
abbrev pub HeldSane : Option ℕ → ℕ → (ℕ → Option (Option Error)) → Option ℕ → Type 0
HeldSane cur next verdicts none = Unit {0}
HeldSane cur next verdicts (some g) = (g < next) × (verdicts g ≡ none) × ¬ (cur ≡ some g)

-- Without a leader nothing is staged; what is staged behind the leader's span has a group.
abbrev pub LeaderSane :
    Store → ℕ → Option ℕ → ℕ → (ℕ → Option (Option Error)) → Option Leader → Type 0
LeaderSane s durable cur next verdicts none = (s.in_flight + s.pending_bytes ≡ 0) × (cur ≡ none)
LeaderSane s durable cur next verdicts (some l) =
    MineSane s durable l.phase l.end l.mine
    × HeldSane cur next verdicts l.group
    × Flown s l.phase
    × (cur ≡ none → s.pending_bytes ≡ 0)

abbrev pub is_led : Option Leader → Bool
is_led none = false
is_led (some l) = true

pub record Sane (sh : Shared) : Type 0 where
  pub led : sh.flushing ≡ is_led sh.leader
  pub leader_sane : LeaderSane sh.st sh.durable sh.cur_group sh.next_group sh.verdicts sh.leader
  pub fresh : (g : ℕ) → sh.next_group ≤ g → sh.verdicts g ≡ none
  pub current : (g : ℕ) → sh.cur_group ≡ some g → (g < sh.next_group) × (sh.verdicts g ≡ none)
  pub durable_le : sh.durable ≤ sh.st.write_off

-- A group that a producer waits for, with its record up to `end`: it waits for the next span, it is
-- the leader's, or it is closed with its verdict.
pub data Covered (sh : Shared) (g end : ℕ) : Type 0 where
  joined : sh.cur_group ≡ some g → end ≤ staged_end sh.st → Covered sh g end
  held :
      (l : Leader)
      → sh.leader ≡ some l
      → l.group ≡ some g
      → Reached sh.st l.phase end
      → Covered sh g end
  decided :
      (e : Option Error) → sh.verdicts g ≡ some e → Settled sh.durable e end → Covered sh g end

abbrev pub Good : Shared → ℕ → Producer → Type 0
Good sh i leading = (l : Leader) × (sh.leader ≡ some l) × (l.thread ≡ i)
Good sh i (waiting g end) = Covered sh g end
Good sh i (returned none e) = Unit {0}
Good sh i (returned (some end) e) = Settled sh.durable e end
Good sh i outside = Unit {0}
Good sh i (adding payload force) = Unit {0}
Good sh i (quiescing payload force e) = Unit {0}
Good sh i (parked payload force) = Unit {0}

pub record Inv (q : System) : Type 0 where
  pub sane : Sane q.shared
  pub good : (i : ℕ) → Good q.shared i (q.pc i)

-- What producer `i` changes under the lock breaks nothing of the others.
pub record Onward (i : ℕ) (sh sh' : Shared) : Type 0 where
  pub sane : Sane sh'
  pub covered : (g end : ℕ) → Covered sh g end → Covered sh' g end
  pub durable_grows : sh.durable ≤ sh'.durable
  pub others :
      (l : Leader)
      → sh.leader ≡ some l
      → (l.thread ≡ i) ⊎ ((l' : Leader) × (sh'.leader ≡ some l') × (l'.thread ≡ l.thread))

pub Good-Onward :
    (i j : ℕ) (sh sh' : Shared) (p : Producer)
    → Onward i sh sh'
    → ¬ (i ≡ j)
    → Good sh j p
    → Good sh' j p
Good-Onward i j sh sh' leading o d (l, e, t) = elim (o.others l e) [
  | inl same ↦ absurd (d (sym same ∙ t))
  | inr (l', e', t') ↦ (l', e', t' ∙ t)
]
Good-Onward i j sh sh' (waiting g end) o d x = o.covered g end x
Good-Onward i j sh sh' (returned none e) o d x = tt
Good-Onward i j sh sh' (returned (some end) e) o d x =
    λ clean. let h = x clean in let k = o.durable_grows in omega arith
Good-Onward i j sh sh' outside o d x = tt
Good-Onward i j sh sh' (adding payload force) o d x = tt
Good-Onward i j sh sh' (quiescing payload force e) o d x = tt
Good-Onward i j sh sh' (parked payload force) o d x = tt

pub run-Inv :
    (i : ℕ) (x : Producer × Shared) (q : System)
    → Onward i q.shared x.1
    → Good x.1 i x.0
    → Inv q
    → Inv (run i x q)
run-Inv i x q o g inv = record {
  sane = o.sane;
  good = λ j. elim (Bool-cases (i == j)) [
    | inl here ↦
        let same = (==_iff i j).0 here in
        subst (λ k. Good x.1 k (update q.pc i x.0 k)) same
          (subst (Good x.1 i) (sym (update_here q.pc i x.0)) g)
    | inr there ↦
        subst (λ (b : Bool). Good x.1 j (if b then x.0 else q.pc j)) (sym there)
          (Good-Onward i j q.shared x.1 (q.pc j) o (λ e. absurd (ground (arith, there, e)))
            (inv.good j))
  ];
}

pub Onward-trans : (i : ℕ) (a b c : Shared) → Onward i a b → Onward i b c → Onward i a c
Onward-trans i a b c o p = record {
  sane = p.sane;
  covered = λ g end x. p.covered g end (o.covered g end x);
  durable_grows = let h = o.durable_grows in let k = p.durable_grows in omega arith;
  others = λ l e. elim (o.others l e) [
    | inl same ↦ inl same
    | inr (l', e', t') ↦ elim (p.others l' e') [
      | inl same ↦ inl (sym t' ∙ same)
      | inr (l'', e'', t'') ↦ inr (l'', e'', t'' ∙ t')
    ]
  ];
}
