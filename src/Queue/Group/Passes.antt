-- ===== src/Queue/Group/Passes.antt =====
-- diskqueue.go: a pass of a producer and the two returns of the leader's fsyncs keep the invariant.
use diskqueue.Base.{
  ℕ, ◌+◌, ◌≡◌, refl, ap, ◌∙◌, Bool, true, false, Option, none, some, List, if◌then◌else◌, arith,
  length, inr, ◌||◌, ltb,
}
use diskqueue.Frame.{framed_len}
use diskqueue.Store.State.{Store, Env, Error, staged_bytes}
use diskqueue.Store.Action.{Result, ok, err}
use diskqueue.Store.Files.{latch}
use diskqueue.Store.Append.{admit_record, needs_cycle, cycle_counted, discard_staged, publish_span}
use diskqueue.Queue.Group.{
  syncing, stamping, Leader, Shared, Producer, parked, returned, finish, fail_span, published,
  staged_record, staged_with, cycled_with, sync_active, data_synced, header_synced, make_room,
  admitted_with, add_pass,
}
use diskqueue.Queue.Group.System.{Marks, marks}
use diskqueue.Queue.Group.Marks.{
  Staged, Sent, latch-marks, sync_active-marks, admit_record-marks, cycle_counted-marks,
  stage_pending-Staged, publish_span-Sent,
}
use diskqueue.Queue.Group.Invariant.{Sane, joined, held, decided, Onward, Onward-trans}
use diskqueue.Queue.Group.Moves.{Outcome, store_step}
use diskqueue.Queue.Group.Staging.{join_group-Outcome, lead-Outcome}
use diskqueue.Queue.Group.Open.{publish-Outcome, durable_step}
use diskqueue.Queue.Group.Spans.{fail-Outcome, finish-Outcome}

if-Outcome :
    (i : ℕ) (sh : Shared) (b : Bool) (x y : Producer × Shared)
    → Outcome i sh x
    → Outcome i sh y
    → Outcome i sh (if b then x else y)
if-Outcome i sh true x y h k = h
if-Outcome i sh false x y h k = k

after :
    (i : ℕ) (a b : Shared) (x : Producer × Shared) → Onward i a b → Outcome i b x → Outcome i a x
after i a b x o h = record { onward = Onward-trans i a b x.1 o h.onward; good = h.good }

stay : (i : ℕ) (sh : Shared) → Sane sh → Onward i sh sh
stay i sh s = store_step i sh sh.st refl s

-- Only the count of those who wait for the flush to drain changes, or the queue closes.
pub want_step :
    (i w : ℕ) (b : Bool) (sh : Shared)
    → Sane sh
    → Onward i sh (record sh { quiesce_want = w; is_closed = b })
want_step i w b sh s = record {
  sane = record {
    led = s.led;
    leader_sane = s.leader_sane;
    fresh = s.fresh;
    current = s.current;
    durable_le = s.durable_le;
  };
  covered = λ g end. elim [
    | joined c h ↦ joined c h
    | held l e k r ↦ held l e k r
    | decided e k r ↦ decided e k r
  ];
  durable_grows = omega arith;
  others = λ l e. inr (l, e, refl);
}

staged_record-Outcome :
    (i n : ℕ) (sh : Shared) (t : Store) (b : Bool)
    → Sane sh
    → sh.flushing ≡ b
    → marks t ≡ record (marks sh.st) { pending_bytes = sh.st.pending_bytes + n }
    → Outcome i sh (staged_record i b (record sh { st = t }))
unfolding staged_record
staged_record-Outcome i n sh t true s f v =
    let w = ap (λ (m : Marks). m.write_off) v in
    let h = ap (λ (m : Marks). m.in_flight) v in
    let p = ap (λ (m : Marks). m.pending_bytes) v in
    join_group-Outcome i sh t sh.cur_group s f refl (w, h) (omega (arith, p))
staged_record-Outcome i n sh t false s f v =
    lead-Outcome i sh t s f (ap (λ (m : Marks). m.write_off) v, ap (λ (m : Marks). m.in_flight) v)

staged_with-Outcome :
    (i n : ℕ) (sh : Shared) (r : Result (Unit {0})) (t : Store)
    → Sane sh
    → Staged n (marks sh.st) r t
    → Outcome i sh (staged_with i r (record sh { st = t }))
unfolding staged_with
staged_with-Outcome i n sh (ok _) t s v = staged_record-Outcome i n sh t sh.flushing s refl v
staged_with-Outcome i n sh (err e) t s v = record { onward = store_step i sh t v s; good = tt }

cycled_with-Outcome :
    (i : ℕ) (payload : List ℕ) (force : Bool) (r : Result (Unit {0})) (sh : Shared)
    → Sane sh
    → Outcome i sh (cycled_with payload force r sh)
unfolding cycled_with
cycled_with-Outcome i payload force (ok _) sh s = record { onward = stay i sh s; good = tt }
cycled_with-Outcome i payload force (err e) sh s = record { onward = stay i sh s; good = tt }

fail_span-Outcome :
    (sh : Shared) (l : Leader) (t : Store) (e : Error)
    → Sane sh
    → sh.leader ≡ some l
    → t.write_off ≡ sh.st.write_off
    → Outcome l.thread sh (fail_span l e (record sh { st = t }))
unfolding fail_span
fail_span-Outcome sh l t e s el w =
    fail-Outcome sh l (latch e t).1 _ s el
      (ap (λ (m : Marks). m.write_off) ((latch-marks e).at t) ∙ w)

published-Outcome :
    (sh : Shared) (l : Leader) (r : Result (Unit {0})) (t : Store)
    → Sane sh
    → sh.leader ≡ some l
    → l.phase ≡ syncing
    → Sent (marks sh.st) r t
    → Outcome l.thread sh (published l r (record sh { st = t }))
unfolding published
published-Outcome sh l (ok _) t s el ph v = publish-Outcome sh l t s el ph v.0 v.1 v.2
published-Outcome sh l (err e) t s el ph v = fail-Outcome sh l t e s el v

module _ (env : Env) where
  make_room-Outcome :
      (i : ℕ) (payload : List ℕ) (force : Bool) (sh : Shared)
      → Sane sh
      → Outcome i sh (make_room env i payload force sh)
  unfolding make_room
  make_room-Outcome i payload force sh s =
      let n = framed_len (length payload) in
      if-Outcome i sh (needs_cycle n sh.st) _ _
        (if-Outcome i sh (sh.flushing || ltb 0 (staged_bytes sh.st)) _ _
          (record { onward = want_step i (sh.quiesce_want + 1) sh.is_closed sh s; good = tt })
          (let o =
              store_step i sh (cycle_counted env n force sh.st).1
                ((cycle_counted-marks env n force).at sh.st) s in
            after i sh _ _ o (cycled_with-Outcome i payload force _ _ o.sane)))
        (staged_with-Outcome i n sh _ _ s (stage_pending-Staged env payload sh.st).at)

  admitted_with-Outcome :
      (i : ℕ) (payload : List ℕ) (force : Bool) (r : Result (Unit {0})) (sh : Shared)
      → Sane sh
      → Outcome i sh (admitted_with env i payload force r sh)
  unfolding admitted_with
  admitted_with-Outcome i payload force (ok _) sh s = make_room-Outcome i payload force sh s
  admitted_with-Outcome i payload force (err e) sh s = record { onward = stay i sh s; good = tt }

  pub add_pass-Outcome :
      (i : ℕ) (payload : List ℕ) (force : Bool) (sh : Shared)
      → Sane sh
      → Outcome i sh (add_pass env i payload force sh)
  unfolding add_pass
  add_pass-Outcome i payload force sh s =
      let n = framed_len (length payload) in
      if-Outcome i sh sh.is_closed _ _ (record { onward = stay i sh s; good = tt })
        (open_pass sh.st.io_err)
    where
      open_pass :
          (o : Option Error)
          → Outcome i sh (elim o [
            | some e ↦ (returned none (some e), sh)
            | none ↦
                if ltb 0 sh.quiesce_want
                then (parked payload force, sh)
                else (let (r, t) = admit_record (framed_len (length payload)) force sh.st in
                    admitted_with env i payload force r (record sh { st = t }))
          ])
      open_pass (some e) = record { onward = stay i sh s; good = tt }
      open_pass none =
          let n = framed_len (length payload) in
          let o =
            store_step i sh (admit_record n force sh.st).1
              ((admit_record-marks env n force).at sh.st) s in
          if-Outcome i sh (ltb 0 sh.quiesce_want) _ _ (record { onward = stay i sh s; good = tt })
            (after i sh _ _ o (admitted_with-Outcome i payload force _ _ o.sane))

  data_ok-Outcome :
      (l : Leader) (sh : Shared) (o : Option Error)
      → Sane sh
      → sh.leader ≡ some l
      → l.phase ≡ syncing
      → Outcome l.thread sh (elim o [
        | some e ↦ fail_span l e (record sh { st = (discard_staged sh.st).1 })
        | none ↦ let (r, t) = publish_span env sh.st in published l r (record sh { st = t })
      ])
  unfolding discard_staged
  data_ok-Outcome l sh (some e) s el ph = fail_span-Outcome sh l _ e s el refl
  data_ok-Outcome l sh none s el ph =
      published-Outcome sh l _ _ s el ph (publish_span-Sent env sh.st).at

  data_synced-Outcome :
      (l : Leader) (r : Result (Unit {0})) (sh : Shared)
      → Sane sh
      → sh.leader ≡ some l
      → l.phase ≡ syncing
      → Outcome l.thread sh (data_synced env l r sh)
  unfolding data_synced discard_staged
  data_synced-Outcome l (err e) sh s el ph = fail_span-Outcome sh l _ e s el refl
  data_synced-Outcome l (ok _) sh s el ph = data_ok-Outcome l sh sh.st.io_err s el ph

  stamped-Outcome :
      (l : Leader) (o : Option Error) (sh : Shared)
      → Sane sh
      → sh.leader ≡ some l
      → l.phase ≡ stamping
      → sh.durable ≡ sh.st.write_off
      → Outcome l.thread sh (finish l o sh)
  stamped-Outcome l none sh s el ph d = finish-Outcome sh l s el ph d
  stamped-Outcome l (some e) sh s el ph d = fail-Outcome sh l sh.st e s el refl

  header_synced-Outcome :
      (l : Leader) (r : Result (Unit {0})) (sh : Shared)
      → Sane sh
      → sh.leader ≡ some l
      → l.phase ≡ stamping
      → Outcome l.thread sh (header_synced env l r sh)
  unfolding header_synced
  header_synced-Outcome l (err e) sh s el ph = fail_span-Outcome sh l sh.st e s el refl
  header_synced-Outcome l (ok _) sh s el ph =
      let o = durable_step l.thread sh s in
      after l.thread sh _ _ o (stamped-Outcome l sh.st.io_err _ o.sane el ph refl)

  -- The fsync of the active file, and what the leader does with its result.
  pub synced-Outcome :
      (l : Leader) (sh : Shared)
      → Sane sh
      → sh.leader ≡ some l
      → (l.phase ≡ syncing
          → Outcome l.thread sh (
              data_synced env l
                (sync_active env sh.st).0
                (record sh { st = (sync_active env sh.st).1 })))
        × (l.phase ≡ stamping
            → Outcome l.thread sh (
                header_synced env l
                  (sync_active env sh.st).0
                  (record sh { st = (sync_active env sh.st).1 })))
  synced-Outcome l sh s el =
      let o =
        store_step l.thread sh (sync_active env sh.st).1 ((sync_active-marks env).at sh.st) s in
      (
        λ ph. after l.thread sh _ _ o (data_synced-Outcome l _ _ o.sane el ph),
        λ ph. after l.thread sh _ _ o (header_synced-Outcome l _ _ o.sane el ph),
      )
