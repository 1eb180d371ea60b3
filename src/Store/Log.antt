-- ===== src/Store/Log.antt =====
-- store.go: a segment as the log of the records in it. The data region of a file starts behind the
-- header; the published extent of a segment is the first `size` bytes of it.
pub mod Bytes
pub mod Handling
pub mod Write
pub mod Header
pub mod Core
pub mod Advance
pub mod Append
pub mod Outcome
pub mod Refine
pub mod Whole
pub mod ReadBack
pub mod Taking
use diskqueue.Base.{ℕ, Option, none, some, List, [], ◌∷◌, ◌++◌, take, drop}
use diskqueue.Frame.{header_size, frame}
use diskqueue.Store.State.{Store}

-- What lies behind the header of a file.
abbrev pub region : Option (List ℕ) → Option (List ℕ)
region none = none
region (some h) = some (drop header_size h)

-- The data regions of the files on disk.
abbrev pub regions : Store → ℕ → Option (List ℕ)
regions s num = region (s.disk num)

abbrev pub extent_of : ℕ → Option (List ℕ) → List ℕ
extent_of size none = []
extent_of size (some b) = take size b

-- The published bytes of a segment.
abbrev pub published : Store → ℕ → List ℕ
published s num = extent_of (s.heap num).size (regions s num)

-- The log of records that the bytes stand for.
abbrev pub log_bytes : (List ℕ → ℕ) → List (List ℕ) → List ℕ
log_bytes sum64 [] = []
log_bytes sum64 (p ∷ ps) = frame sum64 p ++ log_bytes sum64 ps
