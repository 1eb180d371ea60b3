-- ===== src/Recovery/Drop.antt =====
-- recovery.go: reading the header of a segment, and dropping one that cannot be believed.
use Prim.Native.Nat.{min}
use diskqueue.Base.{
  ℕ, zero, suc, ◌+◌, ◌-◌, ◌*◌, ◌/◌, ◌^◌, Bool, true, false, not, ◌&&◌, List, [], ◌∷◌, ◌==◌, ltb,
  if◌then◌else◌, length,
}
use diskqueue.Frame.{header_size}
use diskqueue.Store.State.{Env, Error, sentinel, join, errors_is, corrupt, not_exist, short_read}
use diskqueue.Store.Action.{M, ok, err, ◌>>=◌, ◌>>◌, pure, fail, gets, modify, attempt, when}
use diskqueue.Store.Os.{os_touch, os_read_at, os_read_some, os_remove}
use diskqueue.Store.Files.{sync_dir}

abbrev pub book_corruption : M (Unit {0})
book_corruption = modify (λ s. record s {
  counters = record (s.counters) { corruptions = s.corruptions + 1 };
  pending_corrupt = s.pending_corrupt + 1;
})

-- The bookkeeping of `dropSegment`: `payload` bytes of a foreign format, or of damage.
unfoldable pub book_drop : ℕ → Bool → M (Unit {0})
book_drop payload true = modify (λ s. record s {
  counters = record (s.counters) {
    foreign_segments = s.foreign_segments + 1;
    foreign_bytes = s.foreign_bytes + payload;
  };
})
book_drop payload false = do
  modify (λ s. record s {
    counters = record (s.counters) {
      lost_segments = s.lost_segments + 1;
      lost_bytes = s.lost_bytes + payload;
    };
  })
  book_corruption

-- A short read of the header is damage; any other failure is not.
abbrev pub short_header : Error → Error
short_header e = if errors_is e short_read then join (sentinel corrupt) e else e

abbrev pub all_zero : List ℕ → Bool
all_zero [] = true
all_zero (b ∷ bs) = b == 0 && all_zero bs

-- The size of the buffer of `abortedCreate`.
abbrev pub zero_chunk : ℕ
zero_chunk = 64 * 2 ^ 10

module _ (env : Env) where
  -- `removeFile`.
  unfoldable pub remove_file : ℕ → M (Unit {0})
  remove_file num = do
    r ← attempt (os_remove env num)
    elim r [ ok _ ↦ pure tt | err e ↦ if errors_is e not_exist then pure tt else fail e ]
    no_sync ← gets (λ s. s.no_sync)
    when (not no_sync) (sync_dir env)

  -- `dropSegment`: the segment, of `size` bytes, is unlinked and the loss booked.
  unfoldable pub drop_segment : ℕ → ℕ → Bool → M (Unit {0})
  drop_segment num size alien = do remove_file num; book_drop (size - header_size) alien

  -- `readHeader`.
  unfoldable pub read_header : ℕ → M (List ℕ)
  read_header num = do
    os_touch env num
    r ← attempt (os_read_at env num 0 header_size)
    elim r [ ok h ↦ pure h | err e ↦ fail (short_header e) ]

  -- The loop of `abortedCreate` from `off` on, a chunk a round; `rounds` is how many there are.
  unfoldable pub zero_rounds : ℕ → ℕ → ℕ → ℕ → M Bool
  zero_rounds zero num off size = pure true
  zero_rounds (suc rounds) num off size =
      let n = min zero_chunk (size - off) in
      do
        bs ← os_read_some env num off n
        if not (all_zero bs)
            then pure false
            else (if ltb (length bs) n then pure true else zero_rounds rounds num (off + n) size)

  -- `abortedCreate`.
  unfoldable pub aborted_create : ℕ → ℕ → List ℕ → M Bool
  aborted_create num size h = if not (all_zero h) then pure false else (do
    os_touch env num
    zero_rounds ((size - header_size + zero_chunk - 1) / zero_chunk) num header_size size)
