-- ===== src/Store/Quiet/Reads.antt =====
-- Reading records, peeking and publishing a header leave contents and cursors alone.
use diskqueue.Base.{List, ℕ, Option, none, some}
use diskqueue.Store.State.{Env}
use diskqueue.Store.Action.{ok, err}
use diskqueue.Store.Block.{record_at, record_len, frame_end}
use diskqueue.Store.Consume.{shown, read_from, read, peek_head}
use diskqueue.Store.Segments.{file_for_offset}
use diskqueue.Store.Commit.{publish_full_commit}
use diskqueue.Store.Quiet.{
  Quiet, pure-Keeps, fail-Keeps, gets-Keeps, attempt-Keeps, if-Keeps, bind-Keeps, when-Keeps,
}
use diskqueue.Store.Quiet.Silent.{record_at-Keeps, record_len-Keeps, frame_end-Keeps}
use diskqueue.Store.Quiet.Files.{
  view-Silent, ensure_open-Quiet, flush_file-Quiet, modify_header-Quiet, write_header-Quiet,
}

module _ (env : Env) where
  pub record_at-Quiet : (num off : ℕ) → Quiet (record_at env num off)
  record_at-Quiet num off = record_at-Keeps view-Silent env num off

  pub record_len-Quiet : (num off : ℕ) → Quiet (record_len env num off)
  record_len-Quiet num off = record_len-Keeps view-Silent env num off

  pub frame_end-Quiet : (num off : ℕ) → Quiet (frame_end env num off)
  frame_end-Quiet num off = frame_end-Keeps view-Silent env num off

  read_from-Quiet : (off : ℕ) (found : Option ℕ) → Quiet (read_from env off found)
  unfolding read_from
  read_from-Quiet off none = fail-Keeps _
  read_from-Quiet off (some num) =
      bind-Keeps _ _ (attempt-Keeps _ (ensure_open-Quiet env num)) (elim [
        | err e ↦ fail-Keeps _
        | ok _ ↦
            bind-Keeps _ _ (record_at-Quiet num off)
              (elim [ none ↦ fail-Keeps _ | some x ↦ pure-Keeps (some x) ])
      ])

  pub read-Quiet : (off : ℕ) → Quiet (read env off)
  unfolding read
  read-Quiet off =
      bind-Keeps _ _ (gets-Keeps _)
        (λ s. if-Keeps _ _ _ (pure-Keeps none) (read_from-Quiet off (file_for_offset off s)))

  shown-Quiet : (r : Option (List ℕ × ℕ × ℕ)) → Quiet (shown env r)
  unfolding shown
  shown-Quiet none = pure-Keeps none
  shown-Quiet (some r) = if-Keeps _ _ _ (pure-Keeps _) (fail-Keeps _)

  pub peek_head-Quiet : Quiet (peek_head env)
  unfolding peek_head
  peek_head-Quiet =
      bind-Keeps _ _ (gets-Keeps _) (λ head. bind-Keeps _ _ (read-Quiet head) (λ r. shown-Quiet r))

  pub publish_full_commit-Quiet : (num : ℕ) → Quiet (publish_full_commit env num)
  unfolding publish_full_commit
  publish_full_commit-Quiet num =
      bind-Keeps _ _ (attempt-Keeps _ (ensure_open-Quiet env num)) (elim [
        | err e ↦ if-Keeps _ _ _ (pure-Keeps tt) (fail-Keeps e)
        | ok _ ↦ bind-Keeps _ _ (gets-Keeps _) (λ df.
            bind-Keeps _ _ (modify_header-Quiet env num _) (λ _.
              bind-Keeps _ _ (attempt-Keeps _ (write_header-Quiet env num)) (elim [
                | err e ↦ bind-Keeps _ _ (modify_header-Quiet env num _) (λ _. fail-Keeps e)
                | ok _ ↦
                    bind-Keeps _ _ (gets-Keeps _)
                      (λ no_sync. when-Keeps _ _ (flush_file-Quiet env num))
              ])))
      ])
