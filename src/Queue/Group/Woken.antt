-- ===== src/Queue/Group/Woken.antt =====
-- diskqueue.go: who waits for the flush to drain is woken, or a flush is in flight.
use diskqueue.Base.{
  ℕ, ◌<◌, ◌≡◌, refl, sym, subst, Bool, true, inl, inr, ◌⊎◌, if◌then◌else◌, arith, Bool-cases, ◌==◌,
  ==_iff,
}
use diskqueue.Store.State.{Store, Env, staged_bytes, update}
use diskqueue.Store.Quiet.{update_here}
use diskqueue.Queue.Group.{
  Shared, Producer, outside, leading, adding, quiescing, parked, waiting, returned, sync_active,
}
use diskqueue.Queue.Group.System.{
  System, Step, starts, adds, settles, waits_on, resumes, syncs_data, syncs_header, wakes, leaves,
  holds, releases, consumes, closes, run, move, Reach, start, later,
}
use diskqueue.Queue.Group.Invariant.{Inv, Sane}
use diskqueue.Queue.Group.Moves.{idle-Sane}
use diskqueue.Queue.Group.Staging.{unled}
use diskqueue.Queue.Group.Safety.{Reach-Inv}
use diskqueue.Queue.Group.Drains.{
  Waits, Signals, stays, add_pass-Signals, data_synced-Signals, header_synced-Signals,
}

-- A producer waits on a channel that is closed, or on the current one while a flush is in flight.
abbrev pub Woken : Shared → Producer → Type 0
Woken sh (quiescing payload force e) = (e < sh.drains) ⊎ ((e ≡ sh.drains) × (sh.flushing ≡ true))
Woken sh p = Unit {0}

abbrev pub AllWoken : System → Type 0
AllWoken q = (i : ℕ) → Woken q.shared (q.pc i)

Waits-Woken : (sh : Shared) (p : Producer) → Sane sh → Waits sh p → Woken sh p
unfolding staged_bytes
Waits-Woken sh (quiescing payload force e) s (inl h) = inl h
Waits-Woken sh (quiescing payload force e) s (inr (k, busy)) = elim (Bool-cases sh.flushing) [
  | inl f ↦ inr (k, f)
  | inr f ↦ let idle = (idle-Sane sh s (unled sh s f)).0 in absurd (ground (arith, busy, f, idle))
]
Waits-Woken sh outside s w = tt
Waits-Woken sh leading s w = tt
Waits-Woken sh (adding payload force) s w = tt
Waits-Woken sh (parked payload force) s w = tt
Waits-Woken sh (waiting g end) s w = tt
Waits-Woken sh (returned end e) s w = tt

Woken-on :
    (sh : Shared) (x : Producer × Shared) (p : Producer) → Signals sh x → Woken sh p → Woken x.1 p
Woken-on sh x (quiescing payload force e) h (inl k) = let g = h.grows in inl (omega (arith, g, k))
Woken-on sh x (quiescing payload force e) h (inr (k, f)) = elim (h.signals f) [
  | inl f' ↦ elim (Bool-cases (e == x.1.drains)) [
    | inl same ↦ inr ((==_iff e x.1.drains).0 same, f')
    | inr other ↦ let g = h.grows in inl (ground (arith, other, g, k))
  ]
  | inr closed ↦ inl (omega (arith, closed, k))
]
Woken-on sh x outside h w = tt
Woken-on sh x leading h w = tt
Woken-on sh x (adding payload force) h w = tt
Woken-on sh x (parked payload force) h w = tt
Woken-on sh x (waiting g end) h w = tt
Woken-on sh x (returned end e) h w = tt

run-AllWoken :
    (i : ℕ) (x : Producer × Shared) (q : System)
    → Signals q.shared x
    → Inv (run i x q)
    → AllWoken q
    → AllWoken (run i x q)
run-AllWoken i x q h inv w j = elim (Bool-cases (i == j)) [
  | inl same ↦
      subst (λ k. Woken x.1 (update q.pc i x.0 k)) ((==_iff i j).0 same)
        (subst (Woken x.1) (sym (update_here q.pc i x.0)) (Waits-Woken x.1 x.0 inv.sane h.waits))
  | inr other ↦
      subst (λ (b : Bool). Woken x.1 (if b then x.0 else q.pc j)) (sym other)
        (Woken-on q.shared x (q.pc j) h (w j))
]

-- What the lock guards changes, and neither the flush nor its signals.
shared-AllWoken :
    (sh : Shared) (q : System)
    → sh.drains ≡ q.shared.drains
    → sh.flushing ≡ q.shared.flushing
    → AllWoken q
    → AllWoken (record q { shared = sh })
shared-AllWoken sh q d f w i =
    Woken-on q.shared (outside, sh) (q.pc i) (stays q.shared (outside, sh) d f tt) (w i)

move-AllWoken :
    (i : ℕ) (p : Producer) (q : System)
    → Waits q.shared p
    → Inv (move i p q)
    → AllWoken q
    → AllWoken (move i p q)
move-AllWoken i p q h inv w =
    run-AllWoken i (p, q.shared) q (stays q.shared (p, q.shared) refl refl h) inv w

-- The step to `t`, where the invariant holds.
Step-AllWoken : (env : Env) (q t : System) → Step env q t → Inv t → AllWoken q → AllWoken t
Step-AllWoken env q t (starts i payload force e) inv w = move-AllWoken i _ q tt inv w
Step-AllWoken env q t (adds i payload force e) inv w =
    run-AllWoken i _ q (add_pass-Signals env i payload force q.shared) inv w
Step-AllWoken env q t (settles i payload force e k l f n) inv w =
    run-AllWoken i _ q (stays q.shared _ refl refl tt) inv w
Step-AllWoken env q t (waits_on i payload force e k l b) inv w =
    move-AllWoken i _ q (inr (refl, b)) inv w
Step-AllWoken env q t (resumes i payload force e n) inv w = move-AllWoken i _ q tt inv w
Step-AllWoken env q t (syncs_data l el ph e) inv w =
    run-AllWoken l.thread _ q
      (let h =
          data_synced-Signals env l _
            (record (q.shared) { st = (sync_active env q.shared.st).1 }) in
        record { grows = h.grows; signals = h.signals; waits = h.waits })
      inv w
Step-AllWoken env q t (syncs_header l el ph e) inv w =
    run-AllWoken l.thread _ q
      (let h =
          header_synced-Signals env l _
            (record (q.shared) { st = (sync_active env q.shared.st).1 }) in
        record { grows = h.grows; signals = h.signals; waits = h.waits })
      inv w
Step-AllWoken env q t (wakes i g end e k v) inv w = move-AllWoken i _ q tt inv w
Step-AllWoken env q t (leaves i end e k) inv w = move-AllWoken i _ q tt inv w
Step-AllWoken env q t holds inv w = shared-AllWoken t.shared q refl refl w
Step-AllWoken env q t (releases f n) inv w = shared-AllWoken t.shared q refl refl w
Step-AllWoken env q t (consumes m k) inv w = shared-AllWoken t.shared q refl refl w
Step-AllWoken env q t closes inv w = shared-AllWoken t.shared q refl refl w

pub Reach-AllWoken : (env : Env) (s : Store) (q : System) → Reach env s q → AllWoken q
Reach-AllWoken env s q (start e) = λ i. tt
Reach-AllWoken env s q (later {q = r} h st) =
    Step-AllWoken env r q st (Reach-Inv env s q (later h st)) (Reach-AllWoken env s r h)
