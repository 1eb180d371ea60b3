-- ===== src/Tests/Group.antt =====
-- Group commit at one producer that adds a record.
use diskqueue.Base.{
  Bool, List, ◌<◌, Option, ◌⊎◌, ℕ, ◌≤◌, ◌≡◌, refl, [], ◌∷◌, some, none, replicate, true, false,
}
use diskqueue.Store.State.{Error, Store, update}
use diskqueue.Frame.{framed_too_large, framed_len, uvarint_len, frame, put_uvarint}
use diskqueue.Store.State.{active, staged_bytes}
use diskqueue.Store.Action.{◌>>=◌, check_io, attempt}
use diskqueue.Store.Os.{os_write_at, os_call, os_touch}
use diskqueue.Store.Files.{ensure_open, touch_open, lru_unlink, lru_push_mru}
use diskqueue.Store.Append.{
  admit_record, needs_cycle, stage_pending, active_file, write_record, take_span, publish_span,
  advance, stamp_written, publish_or,
}
use diskqueue.Queue.Group.{
  published, finish, finish_next, admitted_with, make_room, staged_with, staged_record, start_span,
}
use diskqueue.Store.Segments.{fresh_file, modify_header, write_header}
use diskqueue.Header.{header, set_header_checksum}
use diskqueue.Queue.Group.{
  waiting, adding, quiescing, leading, returned, add_pass, data_synced, header_synced, sync_active,
  Leader, syncing, stamping,
}
use diskqueue.Queue.Group.System.{
  System, starts, adds, syncs_data, syncs_header, run, move, opened, Reach, start, later,
}
use diskqueue.Queue.Group.Invariant.{Inv}
use diskqueue.Queue.Group.Safety.{Reach-Inv, returned-durable, one_leader}
use diskqueue.Queue.Group.Progress.{never_forgotten, AtWork}
use diskqueue.Tests.{calm, blank}

-- A segment with room for a record, open.
abbrev empty_segment : Store
empty_segment = record blank {
  files = 1 ∷ [];
  heap = update blank.heap 1 (fresh_file calm 0 64);
  disk = update blank.disk 1 (some (replicate 128 0));
}

abbrev first : System
first = move 0 (adding (5 ∷ []) false) (opened empty_segment)

abbrev second : System
second = run 0 (add_pass calm 0 (5 ∷ []) false first.shared) first

abbrev lead : Leader
lead = record { thread = 0; phase = syncing; group = none; mine = none; end = 10 }

abbrev third : System
third =
    run 0
      (data_synced calm lead (sync_active calm second.shared.st).0
        (record (second.shared) { st = (sync_active calm second.shared.st).1 }))
      second

abbrev fourth : System
fourth =
    run 0
      (header_synced calm (record lead { phase = stamping }) (sync_active calm third.shared.st).0
        (record (third.shared) { st = (sync_active calm third.shared.st).1 }))
      third

second_leads : second.shared.leader ≡ some lead
unfolding add_pass admitted_with make_room staged_with staged_record start_span admit_record ◌>>=◌
    framed_too_large framed_len uvarint_len needs_cycle active staged_bytes stage_pending
    active_file ensure_open touch_open lru_unlink lru_push_mru check_io write_record frame
    put_uvarint os_write_at os_call take_span
second_leads = refl

second_pc : second.pc 0 ≡ leading
unfolding add_pass admitted_with make_room staged_with staged_record start_span admit_record ◌>>=◌
    framed_too_large framed_len uvarint_len needs_cycle active staged_bytes stage_pending
    active_file ensure_open touch_open lru_unlink lru_push_mru check_io write_record frame
    put_uvarint os_write_at os_call take_span
second_pc = refl

second-Reach : Reach calm empty_segment second
unfolding staged_bytes
second-Reach =
    later (later (start refl) (starts 0 (5 ∷ []) false refl)) (adds 0 (5 ∷ []) false refl)

third-Reach : Reach calm empty_segment third
third-Reach = later second-Reach (syncs_data lead second_leads refl second_pc)

third_leads : third.shared.leader ≡ some (record lead { phase = stamping })
unfolding add_pass admitted_with make_room staged_with staged_record start_span admit_record ◌>>=◌
    framed_too_large framed_len uvarint_len needs_cycle active staged_bytes stage_pending
    active_file ensure_open touch_open lru_unlink lru_push_mru check_io write_record frame
    put_uvarint os_write_at os_call take_span sync_active os_touch data_synced published
    publish_span advance stamp_written publish_or attempt modify_header write_header header
    set_header_checksum
third_leads = refl

third_pc : third.pc 0 ≡ leading
unfolding add_pass admitted_with make_room staged_with staged_record start_span admit_record ◌>>=◌
    framed_too_large framed_len uvarint_len needs_cycle active staged_bytes stage_pending
    active_file ensure_open touch_open lru_unlink lru_push_mru check_io write_record frame
    put_uvarint os_write_at os_call take_span sync_active os_touch data_synced published
    publish_span advance stamp_written publish_or attempt modify_header write_header header
    set_header_checksum
third_pc = refl

fourth_pc : fourth.pc 0 ≡ returned (some 10) none
unfolding add_pass admitted_with make_room staged_with staged_record start_span admit_record ◌>>=◌
    framed_too_large framed_len uvarint_len needs_cycle active staged_bytes stage_pending
    active_file ensure_open touch_open lru_unlink lru_push_mru check_io write_record frame
    put_uvarint os_write_at os_call take_span sync_active os_touch data_synced published
    publish_span advance stamp_written publish_or attempt modify_header write_header header
    set_header_checksum header_synced finish finish_next
fourth_pc = refl

fourth-Reach : Reach calm empty_segment fourth
fourth-Reach =
    later third-Reach (syncs_header (record lead { phase = stamping }) third_leads refl third_pc)

Reach-Inv_example : Inv second
Reach-Inv_example = Reach-Inv calm empty_segment second second-Reach

returned-durable_example :
    (10 ≤ fourth.shared.durable) × (fourth.shared.durable ≤ fourth.shared.st.write_off)
returned-durable_example = returned-durable calm empty_segment fourth 0 10 fourth-Reach fourth_pc

one_leader_example : (◌≡◌ {A = ℕ} 0 0) × (third.shared.flushing ≡ true)
one_leader_example = one_leader calm empty_segment third 0 0 third-Reach third_pc third_pc

-- A second producer joins while the first one leads.
abbrev both : System
both = run 1 (add_pass calm 1 (6 ∷ []) false second.shared) (move 1 (adding (6 ∷ []) false) second)

both-Reach : Reach calm empty_segment both
both-Reach = later (later second-Reach (starts 1 (6 ∷ []) false refl)) (adds 1 (6 ∷ []) false refl)

never_forgotten_example :
    ((g end : ℕ)
      → both.pc 1 ≡ waiting g end
      → ((e : Option Error) × (both.shared.verdicts g ≡ some e)) ⊎ AtWork both)
    × ((payload : List ℕ) (force : Bool) (e : ℕ)
        → both.pc 1 ≡ quiescing payload force e
        → (e < both.shared.drains) ⊎ AtWork both)
    × (((both.shared.flushing ≡ false) × (staged_bytes both.shared.st ≡ 0)) ⊎ AtWork both)
never_forgotten_example = never_forgotten calm empty_segment both 1 both-Reach
