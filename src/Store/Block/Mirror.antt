-- ===== src/Store/Block/Mirror.antt =====
-- store.go, record.go: the cached block repeats bytes of its file.
use diskqueue.Base.{
  ℕ, ◌+◌, ◌-◌, ◌≤◌, ◌≡◌, sym, ap, ◌∙◌, true, Option, none, some, List, arith, length, slice,
  slice-slice, ==_iff,
}
use diskqueue.Frame.{header_size}
use diskqueue.Store.State.{Store, Block}
use diskqueue.Store.Files.{is_num}
use diskqueue.Store.Block.{block_has, block_at}

-- The bytes of block `b` are those of a file `h` of `size` record bytes at the block's offset.
pub record Repeats (b : Block) (size : ℕ) (h : List ℕ) : Type 0 where
  pub same_bytes : b.bytes ≡ slice (header_size + b.off) (length b.bytes) h
  pub within : b.off + length b.bytes ≤ size

-- What the block of a file of the disk `d` repeats.
abbrev pub Mirrors : (ℕ → Option (List ℕ)) → (ℕ → ℕ) → Block → Type 0
Mirrors d sizes b =
    (num : ℕ) → b.file ≡ some num → (h : List ℕ) × (d num ≡ some h) × Repeats b (sizes num) h

-- The read cache is coherent: it holds what is on disk, and only records that are published.
abbrev pub Coherent : Store → Type 0
Coherent s = Mirrors s.disk (λ n. (s.heap n).size) s.block

pub is_num→some : (num : ℕ) (o : Option ℕ) → is_num num o ≡ true → o ≡ some num
is_num→some num none e = cc
is_num→some num (some m) e = ap some (sym ((==_iff num m).0 e))

-- Where the `n` bytes that a block covers lie.
pub block_has-covers :
    (num off n : ℕ) (s : Store)
    → block_has num off n s ≡ true
    → (s.block.file ≡ some num)
      × (s.block.off ≤ off)
      × (off + n ≤ s.block.off + length s.block.bytes)
unfolding block_has
block_has-covers num off n s e =
    (is_num→some num s.block.file (ground arith), ground arith, ground arith)

-- What a coherent block answers is what is in the file.
pub block_at-file :
    (num off n size : ℕ) (h : List ℕ) (s : Store)
    → block_has num off n s ≡ true
    → Repeats s.block size h
    → block_at off n s ≡ slice (header_size + off) n h
unfolding block_at
block_at-file num off n size h s e r =
    let c = block_has-covers num off n s e in
    let o : header_size + s.block.off + (off - s.block.off) ≡ header_size + off =
      omega (arith, c.1) in
    ap (slice (off - s.block.off) n) r.same_bytes
    ∙ slice-slice (off - s.block.off) n (header_size + s.block.off) (length s.block.bytes) h
        (omega (arith, c.1, c.2))
    ∙ ap (λ k. slice k n h) o
