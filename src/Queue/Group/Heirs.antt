-- ===== src/Queue/Group/Heirs.antt =====
-- diskqueue.go: who may lead behind each stretch under the lock.
use diskqueue.Base.{
  ℕ, ◌≡◌, refl, sym, ap, ◌∙◌, Bool, true, false, Option, none, some, List, inl, inr, ◌⊎◌,
  if◌then◌else◌, length, ◌||◌, ltb,
}
use diskqueue.Frame.{framed_len}
use diskqueue.Store.State.{Env, Error, staged_bytes}
use diskqueue.Store.Action.{Result, ok, err}
use diskqueue.Store.Append.{admit_record, needs_cycle, discard_staged, publish_span}
use diskqueue.Queue.Group.{
  Leader, Shared, Producer, leading, parked, returned, start_span, finish_next, finish, fail_span,
  published, join_group, staged_record, staged_with, cycled_with, data_synced, header_synced,
  make_room, admitted_with, add_pass,
}

-- Whoever leads afterwards is producer `i`, or led before.
pub record Heir (i : ℕ) (sh : Shared) (x : Producer × Shared) : Type 0 where
  pub at :
      (l : Leader) → x.1.leader ≡ some l → ((x.0 ≡ leading) × (l.thread ≡ i)) ⊎ (sh.leader ≡ some l)

-- Producer `i` alone may lead afterwards.
pub record Sole (i : ℕ) (x : Producer × Shared) : Type 0 where
  pub at : (l : Leader) → x.1.leader ≡ some l → (x.0 ≡ leading) × (l.thread ≡ i)

pub keeps_leader :
    (i : ℕ) (sh : Shared) (x : Producer × Shared) → x.1.leader ≡ sh.leader → Heir i sh x
keeps_leader i sh x e = record { at = λ l k. inr (sym e ∙ k) }

if-Heir :
    (i : ℕ) (sh : Shared) (b : Bool) (x y : Producer × Shared)
    → Heir i sh x
    → Heir i sh y
    → Heir i sh (if b then x else y)
if-Heir i sh true x y h k = h
if-Heir i sh false x y h k = k

join_group-Heir : (i : ℕ) (c : Option ℕ) (sh : Shared) → Heir i sh (join_group c sh)
unfolding join_group
join_group-Heir i (some g) sh = keeps_leader i sh _ refl
join_group-Heir i none sh = keeps_leader i sh _ refl

staged_record-Heir : (i : ℕ) (b : Bool) (sh : Shared) → Heir i sh (staged_record i b sh)
unfolding staged_record start_span
staged_record-Heir i true sh = join_group-Heir i sh.cur_group sh
staged_record-Heir i false sh = record {
  at = λ l e.
      inl (refl, sym (ap (λ (o : Option Leader). elim o [ none ↦ i | some y ↦ y.thread ]) e));
}

staged_with-Heir : (i : ℕ) (r : Result (Unit {0})) (sh : Shared) → Heir i sh (staged_with i r sh)
unfolding staged_with
staged_with-Heir i (ok _) sh = staged_record-Heir i sh.flushing sh
staged_with-Heir i (err e) sh = keeps_leader i sh _ refl

cycled_with-Heir :
    (i : ℕ) (payload : List ℕ) (force : Bool) (r : Result (Unit {0})) (sh : Shared)
    → Heir i sh (cycled_with payload force r sh)
unfolding cycled_with
cycled_with-Heir i payload force (ok _) sh = keeps_leader i sh _ refl
cycled_with-Heir i payload force (err e) sh = keeps_leader i sh _ refl

fail-Sole : (l : Leader) (e : Error) (sh : Shared) → Sole l.thread (finish l (some e) sh)
unfolding finish
fail-Sole l e sh = record { at = λ k h. absurd cc }

finish_next-Sole : (l : Leader) (c : Option ℕ) (sh : Shared) → Sole l.thread (finish_next l c sh)
unfolding finish_next start_span
finish_next-Sole l none sh = record { at = λ k h. absurd cc }
finish_next-Sole l (some g) sh = record {
  at = λ k h.
      (refl, sym (ap (λ (o : Option Leader). elim o [ none ↦ l.thread | some y ↦ y.thread ]) h));
}

finish-Sole : (l : Leader) (o : Option Error) (sh : Shared) → Sole l.thread (finish l o sh)
unfolding finish
finish-Sole l (some e) sh = fail-Sole l e sh
finish-Sole l none sh = finish_next-Sole l sh.cur_group _

fail_span-Sole : (l : Leader) (e : Error) (sh : Shared) → Sole l.thread (fail_span l e sh)
unfolding fail_span
fail_span-Sole l e sh = fail-Sole l _ _

published-Sole :
    (l : Leader) (r : Result (Unit {0})) (sh : Shared) → Sole l.thread (published l r sh)
unfolding published
published-Sole l (ok _) sh = record {
  at = λ k h.
      (refl, sym (ap (λ (o : Option Leader). elim o [ none ↦ l.thread | some y ↦ y.thread ]) h));
}
published-Sole l (err e) sh = fail-Sole l e sh

module _ (env : Env) where
  make_room-Heir :
      (i : ℕ) (payload : List ℕ) (force : Bool) (sh : Shared)
      → Heir i sh (make_room env i payload force sh)
  unfolding make_room
  make_room-Heir i payload force sh =
      if-Heir i sh (needs_cycle (framed_len (length payload)) sh.st) _ _
        (if-Heir i sh (sh.flushing || ltb 0 (staged_bytes sh.st)) _ _ (keeps_leader i sh _ refl)
          (record { at = (cycled_with-Heir i payload force _ _).at }))
        (record { at = (staged_with-Heir i _ _).at })

  admitted_with-Heir :
      (i : ℕ) (payload : List ℕ) (force : Bool) (r : Result (Unit {0})) (sh : Shared)
      → Heir i sh (admitted_with env i payload force r sh)
  unfolding admitted_with
  admitted_with-Heir i payload force (ok _) sh = make_room-Heir i payload force sh
  admitted_with-Heir i payload force (err e) sh = keeps_leader i sh _ refl

  pub add_pass-Heir :
      (i : ℕ) (payload : List ℕ) (force : Bool) (sh : Shared)
      → Heir i sh (add_pass env i payload force sh)
  unfolding add_pass
  add_pass-Heir i payload force sh =
      if-Heir i sh sh.is_closed _ _ (keeps_leader i sh _ refl) (open_pass sh.st.io_err)
    where
      open_pass :
          (o : Option Error)
          → Heir i sh (elim o [
            | some e ↦ (returned none (some e), sh)
            | none ↦
                if ltb 0 sh.quiesce_want
                then (parked payload force, sh)
                else (let (r, t) = admit_record (framed_len (length payload)) force sh.st in
                    admitted_with env i payload force r (record sh { st = t }))
          ])
      open_pass (some e) = keeps_leader i sh _ refl
      open_pass none =
          if-Heir i sh (ltb 0 sh.quiesce_want) _ _ (keeps_leader i sh _ refl)
            (record { at = (admitted_with-Heir i payload force _ _).at })

  data_ok-Sole :
      (l : Leader) (sh : Shared) (o : Option Error)
      → Sole l.thread (elim o [
        | some e ↦ fail_span l e (record sh { st = (discard_staged sh.st).1 })
        | none ↦ let (r, t) = publish_span env sh.st in published l r (record sh { st = t })
      ])
  data_ok-Sole l sh (some e) = fail_span-Sole l e _
  data_ok-Sole l sh none = published-Sole l _ _

  pub data_synced-Sole :
      (l : Leader) (r : Result (Unit {0})) (sh : Shared) → Sole l.thread (data_synced env l r sh)
  unfolding data_synced
  data_synced-Sole l (err e) sh = fail_span-Sole l e _
  data_synced-Sole l (ok _) sh = data_ok-Sole l sh sh.st.io_err

  pub header_synced-Sole :
      (l : Leader) (r : Result (Unit {0})) (sh : Shared) → Sole l.thread (header_synced env l r sh)
  unfolding header_synced
  header_synced-Sole l (err e) sh = fail_span-Sole l e sh
  header_synced-Sole l (ok _) sh = finish-Sole l sh.st.io_err _
