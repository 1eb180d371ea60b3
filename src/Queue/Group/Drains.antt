-- ===== src/Queue/Group/Drains.antt =====
-- diskqueue.go: `signalFlushDrained`, and the producers that wait for the flush to drain.
use diskqueue.Base.{
  ℕ, ◌≤◌, ◌<◌, ◌≡◌, refl, ◌∙◌, Bool, true, false, Option, none, some, List, inl, inr, ◌⊎◌,
  if◌then◌else◌, length, ◌||◌, ltb, arith,
}
use diskqueue.Frame.{framed_len}
use diskqueue.Store.State.{Store, Env, Error, staged_bytes}
use diskqueue.Store.Action.{Result, ok, err}
use diskqueue.Store.Append.{admit_record, needs_cycle, discard_staged, publish_span}
use diskqueue.Queue.Group.{
  Leader, Shared, Producer, quiescing, parked, returned, start_span, finish_next, finish, fail_span,
  published, join_group, staged_record, staged_with, cycled_with, data_synced, header_synced,
  make_room, admitted_with, add_pass,
}

-- A producer waits on a channel that is closed, or on the current one while the flush is not drained.
abbrev pub Waits : Shared → Producer → Type 0
Waits sh (quiescing payload force e) =
    (e < sh.drains) ⊎ ((e ≡ sh.drains) × ((sh.flushing || ltb 0 (staged_bytes sh.st)) ≡ true))
Waits sh p = Unit {0}

-- A flush that ends is signalled, and who waits then waits for the next signal.
pub record Signals (sh : Shared) (x : Producer × Shared) : Type 0 where
  pub grows : sh.drains ≤ x.1.drains
  pub signals : sh.flushing ≡ true → (x.1.flushing ≡ true) ⊎ (sh.drains < x.1.drains)
  pub waits : Waits x.1 x.0

pub stays :
    (sh : Shared) (x : Producer × Shared)
    → x.1.drains ≡ sh.drains
    → x.1.flushing ≡ sh.flushing
    → Waits x.1 x.0
    → Signals sh x
stays sh x d f w = record { grows = omega (arith, d); signals = λ e. inl (f ∙ e); waits = w }

if-Signals :
    (sh : Shared) (b : Bool) (x y : Producer × Shared)
    → (b ≡ true → Signals sh x)
    → Signals sh y
    → Signals sh (if b then x else y)
if-Signals sh true x y h k = h refl
if-Signals sh false x y h k = k

-- The store is no part of it.
with_store :
    (sh : Shared) (t : Store) (x : Producer × Shared)
    → Signals (record sh { st = t }) x
    → Signals sh x
with_store sh t x h = record { grows = h.grows; signals = h.signals; waits = h.waits }

join_group-Signals : (c : Option ℕ) (sh : Shared) → Signals sh (join_group c sh)
unfolding join_group
join_group-Signals (some g) sh = stays sh _ refl refl tt
join_group-Signals none sh = stays sh _ refl refl tt

staged_record-Signals : (i : ℕ) (b : Bool) (sh : Shared) → Signals sh (staged_record i b sh)
unfolding staged_record start_span
staged_record-Signals i true sh = join_group-Signals sh.cur_group sh
staged_record-Signals i false sh = record {
  grows = omega arith;
  signals = λ e. inl refl;
  waits = tt;
}

staged_with-Signals :
    (i : ℕ) (r : Result (Unit {0})) (sh : Shared) → Signals sh (staged_with i r sh)
unfolding staged_with
staged_with-Signals i (ok _) sh = staged_record-Signals i sh.flushing sh
staged_with-Signals i (err e) sh = stays sh _ refl refl tt

cycled_with-Signals :
    (payload : List ℕ) (force : Bool) (r : Result (Unit {0})) (sh : Shared)
    → Signals sh (cycled_with payload force r sh)
unfolding cycled_with
cycled_with-Signals payload force (ok _) sh = stays sh _ refl refl tt
cycled_with-Signals payload force (err e) sh = stays sh _ refl refl tt

-- The end of a flush closes the channel.
fail-Signals : (l : Leader) (e : Error) (sh : Shared) → Signals sh (finish l (some e) sh)
unfolding finish
fail-Signals l e sh = record { grows = omega arith; signals = λ f. inr (omega arith); waits = tt }

finish_next-Signals : (l : Leader) (c : Option ℕ) (sh : Shared) → Signals sh (finish_next l c sh)
unfolding finish_next start_span
finish_next-Signals l none sh = record {
  grows = omega arith;
  signals = λ f. inr (omega arith);
  waits = tt;
}
finish_next-Signals l (some g) sh = stays sh _ refl refl tt

finish-Signals : (l : Leader) (o : Option Error) (sh : Shared) → Signals sh (finish l o sh)
unfolding finish
finish-Signals l (some e) sh = fail-Signals l e sh
finish-Signals l none sh =
    let h = finish_next-Signals l sh.cur_group _ in
    record { grows = h.grows; signals = h.signals; waits = h.waits }

fail_span-Signals : (l : Leader) (e : Error) (sh : Shared) → Signals sh (fail_span l e sh)
unfolding fail_span
fail_span-Signals l e sh = with_store sh _ _ (fail-Signals l _ _)

published-Signals :
    (l : Leader) (r : Result (Unit {0})) (sh : Shared) → Signals sh (published l r sh)
unfolding published
published-Signals l (ok _) sh = stays sh _ refl refl tt
published-Signals l (err e) sh = fail-Signals l e sh

module _ (env : Env) where
  make_room-Signals :
      (i : ℕ) (payload : List ℕ) (force : Bool) (sh : Shared)
      → Signals sh (make_room env i payload force sh)
  unfolding make_room
  make_room-Signals i payload force sh =
      if-Signals sh (needs_cycle (framed_len (length payload)) sh.st) _ _
        (λ _.
          if-Signals sh (sh.flushing || ltb 0 (staged_bytes sh.st)) _ _
            (λ busy. stays sh _ refl refl (inr (refl, busy)))
            (with_store sh _ _ (cycled_with-Signals payload force _ _)))
        (with_store sh _ _ (staged_with-Signals i _ _))

  admitted_with-Signals :
      (i : ℕ) (payload : List ℕ) (force : Bool) (r : Result (Unit {0})) (sh : Shared)
      → Signals sh (admitted_with env i payload force r sh)
  unfolding admitted_with
  admitted_with-Signals i payload force (ok _) sh = make_room-Signals i payload force sh
  admitted_with-Signals i payload force (err e) sh = stays sh _ refl refl tt

  pub add_pass-Signals :
      (i : ℕ) (payload : List ℕ) (force : Bool) (sh : Shared)
      → Signals sh (add_pass env i payload force sh)
  unfolding add_pass
  add_pass-Signals i payload force sh =
      if-Signals sh sh.is_closed _ _ (λ _. stays sh _ refl refl tt) (open_pass sh.st.io_err)
    where
      open_pass :
          (o : Option Error)
          → Signals sh (elim o [
            | some e ↦ (returned none (some e), sh)
            | none ↦
                if ltb 0 sh.quiesce_want
                then (parked payload force, sh)
                else (let (r, t) = admit_record (framed_len (length payload)) force sh.st in
                    admitted_with env i payload force r (record sh { st = t }))
          ])
      open_pass (some e) = stays sh _ refl refl tt
      open_pass none =
          if-Signals sh (ltb 0 sh.quiesce_want) _ _ (λ _. stays sh _ refl refl tt)
            (with_store sh _ _ (admitted_with-Signals i payload force _ _))

  data_ok-Signals :
      (l : Leader) (sh : Shared) (o : Option Error)
      → Signals sh (elim o [
        | some e ↦ fail_span l e (record sh { st = (discard_staged sh.st).1 })
        | none ↦ let (r, t) = publish_span env sh.st in published l r (record sh { st = t })
      ])
  data_ok-Signals l sh (some e) = with_store sh _ _ (fail_span-Signals l e _)
  data_ok-Signals l sh none = with_store sh _ _ (published-Signals l _ _)

  pub data_synced-Signals :
      (l : Leader) (r : Result (Unit {0})) (sh : Shared) → Signals sh (data_synced env l r sh)
  unfolding data_synced
  data_synced-Signals l (err e) sh = with_store sh _ _ (fail_span-Signals l e _)
  data_synced-Signals l (ok _) sh = data_ok-Signals l sh sh.st.io_err

  pub header_synced-Signals :
      (l : Leader) (r : Result (Unit {0})) (sh : Shared) → Signals sh (header_synced env l r sh)
  unfolding header_synced
  header_synced-Signals l (err e) sh = fail_span-Signals l e sh
  header_synced-Signals l (ok _) sh =
      let h = finish-Signals l sh.st.io_err (record sh { durable = sh.st.write_off }) in
      record { grows = h.grows; signals = h.signals; waits = h.waits }
