-- ===== src/Store/State.antt =====
-- store.go, header.go, reserve.go: the state of the store.
-- A `*dataFile` is its segment number, an address of the `heap`: numbers are never used twice in a
-- session. Offsets and counts are int64 that stay at 0 or above; the read and write buffers are
-- modelled by their contents, and the intrusive list of open files by the list of its members.
-- `disk` is what the file system holds, and `calls` numbers the calls made to it so far.
use diskqueue.Base.{
  ℕ, ◌+◌, ◌-◌, Bool, not, ◌&&◌, ◌||◌, Option, none, some, List, [], ◌∷◌, ◌==◌, ltb, leb,
  if◌then◌else◌,
}

-- The errors that the code tells apart; `os_error` is any other of the operating system.
pub data Sentinel : Type 0 where
  corrupt io full record_too_large closed invalid_offset codec segment_size_mismatch num_exhausted
        not_exist short_read os_closed unsupported os_error :
      Sentinel

abbrev pub code : Sentinel → ℕ
code corrupt = 0
code io = 1
code full = 2
code record_too_large = 3
code closed = 4
code invalid_offset = 5
code codec = 6
code segment_size_mismatch = 7
code num_exhausted = 8
code not_exist = 9
code short_read = 10
code os_closed = 11
code os_error = 12
code unsupported = 13

-- `join` is errors.Join, and fmt.Errorf with two `%w`.
pub data Error : Type 0 where
  sentinel : Sentinel → Error
  join : Error → Error → Error

-- `errors.Is(err, target)`.
unfoldable pub errors_is : Error → Sentinel → Bool
errors_is (sentinel c) t = code c == code t
errors_is (join a b) t = errors_is a t || errors_is b t

pub record Config : Type 0 where
  pub segment_size : ℕ
  pub max_segments : ℕ
  pub max_bytes : ℕ
  pub no_sync : Bool
  pub sync_every : ℕ
  pub max_open_files : ℕ

pub record DataFile : Type 0 where
  pub hdr : List ℕ
  pub disk_header : List ℕ
  pub base : ℕ
  pub size : ℕ
  pub capacity : ℕ
  pub written : ℕ
  pub committed : ℕ
  pub is_open : Bool
  pub dirty : Bool
  pub write_seq : ℕ
  pub pins : ℕ
  pub truncated : Bool
  pub reset_commit : Bool

pub record Reservation : Type 0 where
  pub start : ℕ
  pub end : ℕ
  pub acked : Bool
  pub corrupt : Bool
  pub written : ℕ

-- `blockFile`, `blockOff` and the `blockLen` bytes of `readBuf`.
pub record Block : Type 0 where
  pub file : Option ℕ
  pub off : ℕ
  pub bytes : List ℕ

-- The counters of losses and of operations.
pub record Counters : Type 0 where
  pub unreclaimed : ℕ
  pub corruptions : ℕ
  pub lost_bytes : ℕ
  pub lost_records : ℕ
  pub lost_segments : ℕ
  pub foreign_segments : ℕ
  pub foreign_bytes : ℕ
  pub discarded_bytes : ℕ
  pub n_header_writes : ℕ
  pub n_delivered : ℕ
  pub n_full : ℕ

pub record Store : Type 0 where
  pub config : Config
  pub open config use *
  pub io_err : Option Error
  pub heap : ℕ → DataFile
  pub files : List ℕ
  pub next_num : ℕ
  pub disk_bytes : ℕ
  pub lru : List ℕ
  pub pending_bytes : ℕ
  pub pending_recs : ℕ
  pub in_flight : ℕ
  pub in_flight_recs : ℕ
  pub last_frame_at : ℕ
  pub last_frame_end : ℕ
  pub block : Block
  pub write_off : ℕ
  pub head_off : ℕ
  pub commit_off : ℕ
  pub reserved : List Reservation
  pub n_written : ℕ
  pub n_committed : ℕ
  pub n_added : ℕ
  pub n_committed_total : ℕ
  pub unsynced : ℕ
  pub unsynced_bytes : ℕ
  pub flush_epoch : ℕ
  pub pending_corrupt : ℕ
  pub counters : Counters
  pub open counters use *
  pub disk : ℕ → Option (List ℕ)
  pub calls : ℕ

-- How a call to the operating system ends: it does what it is asked, or it fails, a write after
-- `n` of its bytes.
pub data Outcome : Type 0 where
  done : Outcome
  fails : Sentinel → ℕ → Outcome

-- What the code does not implement: the outcome of each call, in order, and xxhash.Sum64.
pub record Env : Type 0 where
  pub outcome : ℕ → Outcome
  pub sum64 : List ℕ → ℕ

abbrev pub update {ℓ} : {A : Type ℓ} → (ℕ → A) → ℕ → A → ℕ → A
update f p v q = if p == q then v else f q

-- `files[len(files)-1]`.
abbrev pub last? : List ℕ → Option ℕ
last? [] = none
last? (n ∷ []) = some n
last? (n ∷ m ∷ ns) = last? (m ∷ ns)

unfoldable pub active : Store → Option ℕ
active s = last? s.files

unfoldable pub batched : Store → Bool
batched s = not s.no_sync && ltb 1 s.sync_every

unfoldable pub per_op : Store → Bool
unfolding batched
per_op s = not s.no_sync && not (batched s)

-- The gauges: `size`, `count` (never negative), `stagedBytes`, `drained`, `empty`.
unfoldable pub size : Store → ℕ
size s = s.write_off - s.commit_off

unfoldable pub count : Store → ℕ
count s = s.n_written - s.n_committed

unfoldable pub staged_bytes : Store → ℕ
staged_bytes s = s.in_flight + s.pending_bytes

unfoldable pub drained : ℕ → Store → Bool
drained end s = leb end s.head_off && s.pending_corrupt == 0

unfoldable pub empty : Store → Bool
unfolding drained
empty s = drained s.write_off s

unfoldable pub flush_chunk_size : Store → ℕ
flush_chunk_size s =
    if s.max_open_files == 0 then 0 else if leb 3 s.max_open_files then s.max_open_files - 2 else 1
