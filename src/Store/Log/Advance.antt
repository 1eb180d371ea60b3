-- ===== src/Store/Log/Advance.antt =====
-- store.go: moving the published extent of a segment changes its size and no byte of a region.
use mathlib.Core.Path.{fun_ext}
use diskqueue.Base.{ℕ, refl, sym, ◌≡◌, ap, ◌∙◌, List, [], ◌∷◌, ◌+◌, ◌-◌, subst}
use diskqueue.Frame.{header_size}
use diskqueue.Header.{Modifier, header, set_write_cursor, set_written_count}
use diskqueue.Header.Layout.{at_write_cursor, at_written_count, length-put}
use diskqueue.Header.Fields.{length-header}
use diskqueue.Store.State.{Store, DataFile, Env}
use diskqueue.Store.Action.{Result, ok, err, ◌>>=◌}
use diskqueue.Store.Files.{change_file}
use diskqueue.Store.Segments.{modify_header}
use diskqueue.Store.Append.{stamp_written, advance, retreat}
use diskqueue.Store.Quiet.{shown-update, update_here}
use diskqueue.Store.Meets.{Meets, bind-Meets, modify-Meets}
use diskqueue.Store.Log.Handling.{images}
use diskqueue.Store.Log.Header.{Fit, Fits}
use diskqueue.Store.Log.Core.{Core, core, sized, update-shown}

-- The core is `c`, the header has its size, and nothing failed.
abbrev pub Moved : ℕ → Core → Result (Unit {0}) → Store → Type 0
Moved num c (ok _) t = (core t ≡ c) × Fits num t
Moved num c (err e) t = ⊥

module _ (env : Env) (num : ℕ) where
  stamp_written-Moved :
      (s : Store) → Fits num s → Meets (stamp_written env num) s (Moved num (core s))
  unfolding stamp_written modify_header ◌>>=◌
  stamp_written-Moved s f =
      let ms : List Modifier =
        set_write_cursor (header_size + (s.heap num).size)
        ∷ set_written_count (s.heap num).written
        ∷ [] in
      let g : DataFile → DataFile = λ df. record df { hdr = header env.sum64 ms df.hdr } in
      record {
        at = (
          ap (λ (x : ℕ → ℕ). record (core s) { sizes = x })
              (fun_ext (shown-update (λ df. df.size) s.heap num g (λ df. refl))),
          subst Fit (sym (ap images (update_here s.heap num (g (s.heap num))))) (
            length-header env.sum64 ms (s.heap num).hdr
                  (length-put at_write_cursor _, (length-put at_written_count _, tt))
                ∙ f.0,
            f.1,
          ),
        );
      }

  -- The file changes without its headers.
  resize-Moved :
      (g : DataFile → DataFile) (s : Store)
      → ((df : DataFile) → images (g df) ≡ images df)
      → Fits num s
      → Meets (change_file num g) s (Moved num (sized (core s) num (g (s.heap num)).size))
  resize-Moved g s k f = record {
    at = (
      ap (λ (x : ℕ → ℕ). record (core s) { sizes = x })
          (update-shown (λ df. df.size) s.heap num (g (s.heap num))),
      subst Fit (sym (ap images (update_here s.heap num (g (s.heap num))) ∙ k (s.heap num))) f,
    );
  }

  stamped :
      (c : Core) (s : Store)
      → core s ≡ c
      → Fits num s
      → Meets (stamp_written env num) s (Moved num c)
  stamped c s k f =
      subst (λ d. Meets (stamp_written env num) s (Moved num d)) k (stamp_written-Moved s f)

  pub advance-Moved :
      (bytes recs : ℕ) (s : Store)
      → Fits num s
      → Meets
          (advance env num bytes recs)
          s
          (Moved num (sized (core s) num ((s.heap num).size + bytes)))
  unfolding advance
  advance-Moved bytes recs s f =
      let c = sized (core s) num ((s.heap num).size + bytes) in
      let g : DataFile → DataFile =
        λ df. record df { size = df.size + bytes; written = df.written + recs } in
      bind-Meets {R = Moved num c} _ _ s (resize-Moved g s (λ df. refl) f)
        (λ _ t h. modify-Meets _ _ t (stamped c _ h.0 h.1)) (λ e t h. absurd h)

  pub retreat-Moved :
      (bytes recs : ℕ) (s : Store)
      → Fits num s
      → Meets
          (retreat env num bytes recs)
          s
          (Moved num (sized (core s) num ((s.heap num).size - bytes)))
  unfolding retreat
  retreat-Moved bytes recs s f =
      let c = sized (core s) num ((s.heap num).size - bytes) in
      let g : DataFile → DataFile =
        λ df. record df { size = df.size - bytes; written = df.written - recs } in
      bind-Meets {R = Moved num c} _ _ s (resize-Moved g s (λ df. refl) f)
        (λ _ t h. modify-Meets _ _ t (stamped c _ h.0 h.1)) (λ e t h. absurd h)
