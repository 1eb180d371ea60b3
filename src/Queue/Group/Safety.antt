-- ===== src/Queue/Group/Safety.antt =====
-- diskqueue.go: what group commit promises its producers, in every interleaving.
use diskqueue.Base.{ℕ, ◌+◌, ◌≤◌, ◌≡◌, refl, sym, ap, ◌∙◌, subst, true, Option, none, some, arith}
use diskqueue.Store.State.{Store, Env, Error, staged_bytes}
use diskqueue.Queue.Group.{
  Leader, Shared, Producer, outside, leading, adding, quiescing, waiting, returned,
}
use diskqueue.Queue.Group.System.{
  System, Step, starts, adds, settles, waits_on, resumes, syncs_data, syncs_header, wakes, leaves,
  holds, releases, consumes, closes, run, move, opened, Reach, start, later,
}
use diskqueue.Queue.Group.Invariant.{
  HeldSane, is_led, Settled, Sane, Covered, joined, held, decided, Good, Good-Onward, Inv, Onward,
  run-Inv,
}
use diskqueue.Queue.Group.Moves.{Outcome, store_step, leader-Sane}
use diskqueue.Queue.Group.Passes.{want_step, add_pass-Outcome, synced-Outcome}

run-Outcome :
    (i : ℕ) (x : Producer × Shared) (q : System) → Outcome i q.shared x → Inv q → Inv (run i x q)
run-Outcome i x q o inv = run-Inv i x q o.onward o.good inv

-- Producer `i` moves, and the lock guards what it did.
move-Inv : (i : ℕ) (p : Producer) (q : System) → Good q.shared i p → Inv q → Inv (move i p q)
move-Inv i p q g inv =
    run-Inv i (p, q.shared) q (store_step i q.shared q.shared.st refl inv.sane) g inv

pub standing : (i : ℕ) (p : Producer) (q : System) → Inv q → q.pc i ≡ p → Good q.shared i p
standing i p q inv e = subst (Good q.shared i) e (inv.good i)

held-open :
    (sh : Shared) (l : Leader) (g : ℕ)
    → Sane sh
    → sh.leader ≡ some l
    → l.group ≡ some g
    → sh.verdicts g ≡ none
held-open sh l g s el k =
    (subst (HeldSane sh.cur_group sh.next_group sh.verdicts) k (leader-Sane sh l s el).1).1

-- A group that is closed with `e` has the record up to `end` on disk, if `e` is no error.
closed-Settled :
    (sh : Shared) (g end : ℕ) (e : Option Error)
    → Sane sh
    → sh.verdicts g ≡ some e
    → Covered sh g end
    → Settled sh.durable e end
closed-Settled sh g end e s v (joined c h) =
    absurd (let x : none ≡ some e = sym (s.current g c).1 ∙ v in cc)
closed-Settled sh g end e s v (held l el k r) =
    absurd (let x : none ≡ some e = sym (held-open sh l g s el k) ∙ v in cc)
closed-Settled sh g end e s v (decided e' k r) =
    let same : e' ≡ e = (let h : some e' ≡ some e = sym k ∙ v in cc) in
    subst (λ x. Settled sh.durable x end) same r

-- What the lock guards changes behind no producer's back.
shared-Inv :
    (q : System) (sh : Shared)
    → ((i : ℕ) → Onward i q.shared sh)
    → Inv q
    → Inv (record q { shared = sh })
shared-Inv q sh o inv = record {
  sane = (o 0).sane;
  good = λ j.
      Good-Onward (j + 1) j q.shared sh (q.pc j) (o (j + 1)) (λ e. omega (arith, e)) (inv.good j);
}

Step-Inv : (env : Env) (q t : System) → Step env q t → Inv q → Inv t
Step-Inv env q t (starts i payload force e) inv = move-Inv i (adding payload force) q tt inv
Step-Inv env q t (adds i payload force e) inv =
    run-Outcome i _ q (add_pass-Outcome env i payload force q.shared inv.sane) inv
Step-Inv env q t (settles i payload force e w l f n) inv =
    run-Inv i _ q (want_step i _ _ q.shared inv.sane) tt inv
Step-Inv env q t (waits_on i payload force e w l b) inv =
    move-Inv i (quiescing payload force q.shared.drains) q tt inv
Step-Inv env q t (resumes i payload force e n) inv = move-Inv i (adding payload force) q tt inv
Step-Inv env q t (syncs_data l el ph e) inv =
    run-Outcome l.thread _ q ((synced-Outcome env l q.shared inv.sane el).0 ph) inv
Step-Inv env q t (syncs_header l el ph e) inv =
    run-Outcome l.thread _ q ((synced-Outcome env l q.shared inv.sane el).1 ph) inv
Step-Inv env q t (wakes i g end e w v) inv =
    move-Inv i (returned (some end) e) q
      (closed-Settled q.shared g end e inv.sane v (standing i (waiting g end) q inv w)) inv
Step-Inv env q t (leaves i end e w) inv = move-Inv i outside q tt inv
Step-Inv env q t holds inv = shared-Inv q _ (λ i. want_step i _ _ q.shared inv.sane) inv
Step-Inv env q t (releases f n) inv = shared-Inv q _ (λ i. want_step i _ _ q.shared inv.sane) inv
Step-Inv env q t (consumes m k) inv =
    shared-Inv q _ (λ i. store_step i q.shared _ (k.at q.shared.st) inv.sane) inv
Step-Inv env q t closes inv = shared-Inv q _ (λ i. want_step i _ _ q.shared inv.sane) inv

opened-Inv : (s : Store) → staged_bytes s ≡ 0 → Inv (opened s)
unfolding staged_bytes
opened-Inv s e = record {
  sane = record {
    led = refl;
    leader_sane = (e, refl);
    fresh = λ g h. refl;
    current = λ g c. absurd cc;
    durable_le = omega arith;
  };
  good = λ i. tt;
}

-- In every state that the producers, the leader and the other goroutines reach from an opened queue,
-- whenever the lock is free: `flushing` is set exactly while there is a leader; without one nothing
-- is staged and no group is open; the current group and the leader's are open and differ, and what is
-- staged behind the leader's span has a group; and every producer that waits has its record in the
-- staged bytes, in the leader's span, or settled by its group's verdict.
pub Reach-Inv : (env : Env) (s : Store) (q : System) → Reach env s q → Inv q
Reach-Inv env s q (start e) = opened-Inv s e
Reach-Inv env s q (later {q = r} h st) = Step-Inv env r q st (Reach-Inv env s r h)

-- An `Add` that was staged and returns no error has its record on disk: the record is below the
-- write cursor, and the header fsync of a span that has it came back without an error. So it is for
-- the leader and for those who joined its spans, in every interleaving with each other and with
-- goroutines that leave the write cursor and the staged bytes alone, and under every outcome of the
-- calls to the file system.
pub returned-durable :
    (env : Env) (s : Store) (q : System) (i end : ℕ)
    → Reach env s q
    → q.pc i ≡ returned (some end) none
    → (end ≤ q.shared.durable) × (q.shared.durable ≤ q.shared.st.write_off)
returned-durable env s q i end h e =
    let inv = Reach-Inv env s q h in
    (standing i (returned (some end) none) q inv e refl, inv.sane.durable_le)

-- No two producers lead at the same time, and while one leads `flushing` is set.
pub one_leader :
    (env : Env) (s : Store) (q : System) (i j : ℕ)
    → Reach env s q
    → q.pc i ≡ leading
    → q.pc j ≡ leading
    → (i ≡ j) × (q.shared.flushing ≡ true)
one_leader env s q i j h a b =
    let inv = Reach-Inv env s q h in
    let (l, el, tl) = standing i leading q inv a in
    let (k, ek, tk) = standing j leading q inv b in
    let same : l ≡ k = (let x : some l ≡ some k = sym el ∙ ek in cc) in
    (sym tl ∙ ap (λ y. y.thread) same ∙ tk, inv.sane.led ∙ ap is_led el)
