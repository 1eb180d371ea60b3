-- ===== src/Store/Log/Header.antt =====
-- store.go: writing a segment's header, however it ends, leaves the data regions, the contents and
-- the cache alone.
use mathlib.Core.Path.{fun_ext}
use diskqueue.Base.{
  ℕ, refl, sym, ◌≡◌, ap, ◌∙◌, ◌≤◌, true, Option, List, arith, ◌+◌, length, take, ◌==◌, subst,
}
use diskqueue.Frame.{header_size}
use diskqueue.Header.Fields.{IsHeader}
use diskqueue.Store.State.{Store, DataFile, Block, Env, Error, join, errors_is, os_closed}
use diskqueue.Store.Action.{Result, ok, err, ◌>>=◌, ◌>>◌, fail, pure, modify}
use diskqueue.Store.Os.{os_call, os_read_at}
use diskqueue.Store.Files.{change_file, latch}
use diskqueue.Store.Segments.{changed_prefix, restore_header, write_header}
use diskqueue.Store.Quiet.{
  Keeps, View, view, Extent, extent, shown-update, update_here, bind-Keeps, fail-Keeps, when-Keeps,
  check_io-Keeps,
}
use diskqueue.Store.Quiet.Handles.{ensure_open-Keeps}
use diskqueue.Store.Meets.{
  Meets, then-Meets, attempt_then, try-Meets, gets-Meets, fail-Meets, pure-Meets, either-Meets,
  keeps-Meets, weaken-Meets,
}
use diskqueue.Store.Log.Handling.{images, data_of, data-Handles, mark_written-Data}
use diskqueue.Store.Log.Write.{Facts, facts, Data-Facts, os_write_header-Facts, length-take_le}

-- The data regions, contents and block.
pub record Plain : Type 0 where
  pub bodies : ℕ → Option (List ℕ)
  pub shown : View
  pub cached : Block

abbrev pub plain_of : Facts → Plain
plain_of f = record { bodies = f.bodies; shown = f.shown; cached = f.cached }

abbrev pub plain : Store → Plain
plain s = plain_of (facts s)

-- Both images of a file's header have 64 bytes.
abbrev pub Fit : List ℕ × List ℕ → Type 0
Fit h = IsHeader h.0 × IsHeader h.1

abbrev pub Fits : ℕ → Store → Type 0
Fits num s = Fit (images (s.heap num))

-- Whatever the result, regions, contents and block are those of `s`, and the header has its size.
abbrev pub Upheld : {A : Type 0} → ℕ → Store → Result A → Store → Type 0
Upheld num s r t = (plain t ≡ plain s) × Fits num t

pub facts-Upheld :
    {A : Type 0} (num : ℕ) (s t : Store) (r : Result A)
    → Fits num s
    → facts t ≡ facts s
    → Upheld num s r t
facts-Upheld num s t r f k = (ap plain_of k, subst (λ (w : Facts). Fit (w.headers num)) (sym k) f)

module _ (env : Env) where
  os_read_at-Data : (num off n : ℕ) → Keeps data_of (os_read_at env num off n)
  unfolding os_read_at os_call ◌>>=◌
  os_read_at-Data num off n = record { at = λ s. ground arith }

  restore_header-Upheld :
      (num : ℕ) (s : Store)
      → Fits num s
      → Meets (restore_header env num) s (λ r t. facts t ≡ facts s)
  unfolding restore_header
  restore_header-Upheld num s f =
      then-Meets {p = facts} _ _ s (Data-Facts _ (os_read_at-Data num 0 header_size))
        (λ current t k. gets-Meets _ _ t (
          let image =
            take (changed_prefix current (t.heap num).disk_header) (t.heap num).disk_header in
          let small : length image ≤ header_size = omega (
            arith,
            length-take_le (changed_prefix current (t.heap num).disk_header)
                (t.heap num).disk_header,
            (facts-Upheld {A = Unit {0}} num s t (ok tt) f k).1.1,
          ) in
          either-Meets (changed_prefix current (t.heap num).disk_header == 0) (pure tt) _ t
            (pure-Meets tt t k)
            (keeps-Meets {p = facts} _ t
              (bind-Keeps _ _ (Data-Facts _ (mark_written-Data num)) (λ _.
                bind-Keeps _ _ (os_write_header-Facts env num image small)
                  (λ _. Data-Facts _ (data-Handles.os_touch_kept env num))))
              (λ r u e. e ∙ k))))
        (λ e t k. k)

  set_header-Upheld :
      (num : ℕ) (hdr : List ℕ) (s : Store)
      → IsHeader hdr
      → (s.heap num).hdr ≡ hdr
      → Meets
          (do
            change_file num
                (λ df. record df { disk_header = hdr; dirty = true; write_seq = df.write_seq + 1 })
            modify (λ s. record s {
              counters = record (s.counters) { n_header_writes = s.n_header_writes + 1 };
            }))
          s
          (Upheld num s)
  unfolding ◌>>=◌
  set_header-Upheld num hdr s l e =
      let f : DataFile → DataFile =
        λ df. record df { disk_header = hdr; dirty = true; write_seq = df.write_seq + 1 } in
      record {
        at = (
          ap (λ (x : ℕ → Extent). record (plain s) { shown = record (view s) { extents = x } })
              (fun_ext (shown-update extent s.heap num f (λ df. refl))),
          subst Fit (sym (ap images (update_here s.heap num (f (s.heap num)))))
              (ap length e ∙ l, l),
        );
      }

  give_back :
      (num : ℕ) (e : Error) (r : Result (Unit {0})) (s t : Store)
      → Fits num s
      → facts t ≡ facts s
      → Meets
          (elim r [ ok _ ↦ fail e | err re ↦ (do latched ← latch re; fail (join e latched)) ])
          t
          (Upheld {A = Unit {0}} num s)
  give_back num e (ok _) s t f k = fail-Meets e t (facts-Upheld {A = Unit {0}} num s t (err e) f k)
  give_back num e (err re) s t f k =
      keeps-Meets {p = facts} _ t
        (bind-Keeps _ _ (Data-Facts _ (data-Handles.latch_kept re)) (λ latched. fail-Keeps _))
        (λ r u l. facts-Upheld num s u r f (l ∙ k))

  -- `writeHeader`.
  pub write_header-Upheld :
      (num : ℕ) (s : Store) → Fits num s → Meets (write_header env num) s (Upheld num s)
  unfolding write_header
  write_header-Upheld num s f = gets-Meets _ _ s (
      then-Meets {p = facts} _ _ s
        (when-Keeps _ _ (Data-Facts _ (ensure_open-Keeps data-Handles env num)))
        (λ _ t k.
          then-Meets {p = facts} _ _ t check_io-Keeps
            (λ _ u l. gets-Meets _ _ u (
              let g = facts-Upheld {A = Unit {0}} num s u (ok tt) f (l ∙ k) in
              attempt_then {p = facts} _ _ u
                (os_write_header-Facts env num (u.heap num).hdr (omega (arith, g.1.0)))
                (elim [
                  | ok _ ↦ λ v m.
                      weaken-Meets _ v
                        (set_header-Upheld num (u.heap num).hdr v g.1.0
                          (ap (λ (w : Facts). (w.headers num).0) m))
                        (λ r w n. (n.0 ∙ ap plain_of (m ∙ l ∙ k), n.1))
                  | err e ↦ λ v m.
                      either-Meets (errors_is e os_closed) (fail e) _ v
                        (fail-Meets e v (facts-Upheld {A = Unit {0}} num s v (err e) f (m ∙ l ∙ k)))
                        (try-Meets {R = λ r w. facts w ≡ facts v} _ _ v
                          (restore_header-Upheld num v
                            (facts-Upheld {A = Unit {0}} num s v (ok tt) f (m ∙ l ∙ k)).1)
                          (λ r w n. give_back num e r s w f (n ∙ m ∙ l ∙ k)))
                ])))
            (λ e u l. facts-Upheld {A = Unit {0}} num s u (err e) f (l ∙ k)))
        (λ e t k. facts-Upheld {A = Unit {0}} num s t (err e) f k))
