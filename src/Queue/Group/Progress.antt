-- ===== src/Queue/Group/Progress.antt =====
-- diskqueue.go: who waits for the flush, and the leader at work.
use diskqueue.Base.{
  ℕ, ◌<◌, List, ◌-◌, ◌≡◌, refl, sym, ap, ◌∙◌, subst, Bool, false, Option, none, some, inl, inr, ◌⊎◌,
  if◌then◌else◌, Option-cases, Bool-cases, ◌==◌, ==_iff,
}
use diskqueue.Store.State.{Store, Env, Error, staged_bytes, update}
use diskqueue.Store.Quiet.{update_here}
use diskqueue.Queue.Group.{
  Leader, Shared, Producer, outside, leading, adding, quiescing, parked, waiting, returned,
}
use diskqueue.Queue.Group.System.{
  System, Step, starts, adds, settles, waits_on, resumes, syncs_data, syncs_header, wakes, leaves,
  holds, releases, consumes, closes, run, move, Reach, start, later,
}
use diskqueue.Queue.Group.Invariant.{Covered, joined, held, decided, Inv}
use diskqueue.Queue.Group.Moves.{idle-Sane}
use diskqueue.Queue.Group.Staging.{led_by, unled}
use diskqueue.Queue.Group.Safety.{Reach-Inv, standing}
use diskqueue.Queue.Group.Woken.{Woken, Reach-AllWoken}
use diskqueue.Queue.Group.Heirs.{
  Heir, Sole, keeps_leader, add_pass-Heir, data_synced-Sole, header_synced-Sole,
}

-- The leader is at work.
abbrev pub Manned : System → Type 0
Manned q = (l : Leader) → q.shared.leader ≡ some l → q.pc l.thread ≡ leading

Sole-Manned : (i : ℕ) (x : Producer × Shared) (q : System) → Sole i x → Manned (run i x q)
Sole-Manned i x q h l e =
    let (lead, same) = h.at l e in
    subst (λ k. update q.pc i x.0 k ≡ leading) (sym same) (update_here q.pc i x.0 ∙ lead)

-- A producer that does not lead moves.
Heir-Manned :
    (i : ℕ) (x : Producer × Shared) (q : System)
    → Heir i q.shared x
    → ¬ (q.pc i ≡ leading)
    → Manned q
    → Manned (run i x q)
Heir-Manned i x q h away m l e = elim (h.at l e) [
  | inl (lead, same) ↦
      subst (λ k. update q.pc i x.0 k ≡ leading) (sym same) (update_here q.pc i x.0 ∙ lead)
  | inr before ↦ elim (Bool-cases (i == l.thread)) [
    | inl same ↦ absurd (away (ap q.pc ((==_iff i l.thread).0 same) ∙ m l before))
    | inr other ↦
        subst (λ (b : Bool). (if b then x.0 else q.pc l.thread) ≡ leading) (sym other) (m l before)
  ]
]

move-Manned :
    (i : ℕ) (p : Producer) (q : System) → ¬ (q.pc i ≡ leading) → Manned q → Manned (move i p q)
move-Manned i p q away m = Heir-Manned i (p, q.shared) q (keeps_leader i q.shared _ refl) away m

Step-Manned : (env : Env) (q t : System) → Step env q t → Manned q → Manned t
Step-Manned env q t (starts i payload force e) m =
    move-Manned i _ q (λ h. absurd (let x : outside ≡ leading = sym e ∙ h in cc)) m
Step-Manned env q t (adds i payload force e) m =
    Heir-Manned i _ q (add_pass-Heir env i payload force q.shared)
      (λ h. absurd (let x : adding payload force ≡ leading = sym e ∙ h in cc)) m
Step-Manned env q t (settles i payload force e w l f n) m =
    Heir-Manned i
      (adding payload force, record (q.shared) { quiesce_want = q.shared.quiesce_want - 1 }) q
      (record { at = λ l k. inr k })
      (λ h. absurd (let x : quiescing payload force e ≡ leading = sym w ∙ h in cc)) m
Step-Manned env q t (waits_on i payload force e w l b) m =
    move-Manned i _ q (λ h. absurd (let x : quiescing payload force e ≡ leading = sym w ∙ h in cc))
      m
Step-Manned env q t (resumes i payload force e n) m =
    move-Manned i _ q (λ h. absurd (let x : parked payload force ≡ leading = sym e ∙ h in cc)) m
Step-Manned env q t (syncs_data l el ph e) m = Sole-Manned l.thread _ q (data_synced-Sole env l _ _)
Step-Manned env q t (syncs_header l el ph e) m =
    Sole-Manned l.thread _ q (header_synced-Sole env l _ _)
Step-Manned env q t (wakes i g end e w v) m =
    move-Manned i _ q (λ h. absurd (let x : waiting g end ≡ leading = sym w ∙ h in cc)) m
Step-Manned env q t (leaves i end e w) m =
    move-Manned i _ q (λ h. absurd (let x : returned end e ≡ leading = sym w ∙ h in cc)) m
Step-Manned env q t holds m = m
Step-Manned env q t (releases f n) m = m
Step-Manned env q t (consumes a k) m = m
Step-Manned env q t closes m = m

Reach-Manned : (env : Env) (s : Store) (q : System) → Reach env s q → Manned q
Reach-Manned env s q (start e) = λ l h. absurd cc
Reach-Manned env s q (later {q = r} h st) = Step-Manned env r q st (Reach-Manned env s r h)

-- There is a leader, and its producer is between two stretches of `leadFlushLocked`.
abbrev pub AtWork : System → Type 0
AtWork q = (l : Leader) × (q.shared.leader ≡ some l) × (q.pc l.thread ≡ leading)

-- Nobody who waits for the flush is forgotten: a producer at the `done` of its group finds it closed,
-- or a leader is at work, inside one of its two fsyncs; a producer that waits on `flushDrained` finds its
-- channel closed by a `signalFlushDrained`, or a leader is at work; and the flush has drained, or a
-- leader is at work.
pub never_forgotten :
    (env : Env) (s : Store) (q : System) (i : ℕ)
    → Reach env s q
    → ((g end : ℕ)
        → q.pc i ≡ waiting g end
        → ((e : Option Error) × (q.shared.verdicts g ≡ some e)) ⊎ AtWork q)
      × ((payload : List ℕ) (force : Bool) (e : ℕ)
          → q.pc i ≡ quiescing payload force e
          → (e < q.shared.drains) ⊎ AtWork q)
      × (((q.shared.flushing ≡ false) × (staged_bytes q.shared.st ≡ 0)) ⊎ AtWork q)
unfolding staged_bytes
never_forgotten env s q i h = (
  λ g end w. answered g end (standing i (waiting g end) q inv w),
  λ payload force e w. elim (subst (Woken q.shared) w (Reach-AllWoken env s q h i)) [
    | inl closed ↦ inl closed
    | inr (k, busy) ↦ let (l, at) = led_by q.shared inv.sane busy in inr (l, at, manned l at)
  ],
  elim (Bool-cases q.shared.flushing) [
    | inl busy ↦ let (l, e) = led_by q.shared inv.sane busy in inr (l, e, manned l e)
    | inr idle ↦ inl (idle, (idle-Sane q.shared inv.sane (unled q.shared inv.sane idle)).0)
  ],
)
  where
    inv : Inv q
    inv = Reach-Inv env s q h

    manned : Manned q
    manned = Reach-Manned env s q h

    answered :
        (g end : ℕ)
        → Covered q.shared g end
        → ((e : Option Error) × (q.shared.verdicts g ≡ some e)) ⊎ AtWork q
    answered g end (joined c b) = elim (Option-cases q.shared.leader) [
      | inl free ↦
          absurd (let x : none ≡ some g = sym (idle-Sane q.shared inv.sane free).1 ∙ c in cc)
      | inr (l, e) ↦ inr (l, e, manned l e)
    ]
    answered g end (held l e k r) = inr (l, e, manned l e)
    answered g end (decided e k r) = inl (e, k)
