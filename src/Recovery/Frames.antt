-- ===== src/Recovery/Frames.antt =====
-- recovery.go: the two walks over the frames of a segment that lost bytes or its header.
use diskqueue.Base.{ℕ, zero, suc, ◌+◌, Option, none, some, List, ◌==◌, leb, if◌then◌else◌}
use diskqueue.Store.State.{Env, sentinel, errors_is, corrupt, os_error}
use diskqueue.Store.Action.{M, Result, ok, err, ◌>>=◌, ◌>>◌, pure, fail, gets, attempt}
use diskqueue.Store.Files.{ensure_open}
use diskqueue.Store.Block.{record_at, record_len}

-- A frame only counts if its payload has the stored checksum.
abbrev pub verified : (List ℕ → ℕ) → Option (List ℕ × ℕ × ℕ) → Option ℕ
verified sum64 none = none
verified sum64 (some (payload, sum, next)) = if sum64 payload == sum then some next else none

-- A read that failed is no verdict on the bytes.
abbrev pub verdict : Result (Option ℕ) → Result (Option ℕ)
verdict (ok next) = ok next
verdict (err e) = if errors_is e corrupt then ok none else err e

-- What the loop does with a verdict: it goes on behind a frame and ends at anything else.
unfoldable pub step_walk : ℕ → ℕ → (ℕ → M (Option (ℕ × ℕ))) → Result (Option ℕ) → M (Option (ℕ × ℕ))
step_walk n off go (err e) = fail e
step_walk n off go (ok none) = pure (some (n, off))
step_walk n off go (ok (some next)) = go next

-- The loop of `surviveCount` and `countVerified`: `probe` answers the offset past the frame at an
-- offset, or none. `none` of the loop is no end of the code: the fuel ran out.
unfoldable pub walk_frames : (ℕ → M (Option ℕ)) → ℕ → ℕ → ℕ → ℕ → M (Option (ℕ × ℕ))
walk_frames probe zero num n off = pure none
walk_frames probe (suc fuel) num n off = do
  df ← gets (λ s. s.heap num)
  if leb (df.base + df.size) off then pure (some (n, off)) else (do
    r ← attempt (probe off)
    step_walk n off (λ next. walk_frames probe fuel num (n + 1) next) (verdict r))

-- The count and the offset past the last frame.
abbrev pub walked : Option (ℕ × ℕ) → M (ℕ × ℕ)
walked none = fail (sentinel os_error)
walked (some x) = pure x

module _ (env : Env) where
  -- What `countVerified` asks of a frame.
  unfoldable pub verified_end : ℕ → ℕ → M (Option ℕ)
  verified_end num off = do r ← record_at env num off; pure (verified env.sum64 r)

  -- A frame is a byte at least, so the segment's size is fuel enough.
  unfoldable pub walk_segment : (ℕ → M (Option ℕ)) → ℕ → M (ℕ × ℕ)
  walk_segment probe num = do
    ensure_open env num
    df ← gets (λ s. s.heap num)
    ended ← walk_frames probe (suc df.size) num 0 df.base
    walked ended

  -- `surviveCount`.
  unfoldable pub survive_count : ℕ → M (ℕ × ℕ)
  survive_count num = walk_segment (record_len env num) num

  -- `countVerified`.
  unfoldable pub count_verified : ℕ → M (ℕ × ℕ)
  count_verified num = walk_segment (verified_end num) num
