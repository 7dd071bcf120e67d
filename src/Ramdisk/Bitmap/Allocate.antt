-- ===== src/Ramdisk/Bitmap/Allocate.antt =====
-- What `allocate_bitmap` and `free_bitmap` do to the bits and to the superblock.
use cs552operating_system.Base.{
  update, ℕ, suc, ◌+◌, ◌-◌, ◌*◌, ◌/◌, ◌%◌, ◌^◌, ◌≤◌, ◌<◌, ◌≡◌, ◌≢◌, some, arith, ◌==◌,
  if◌then◌else◌, lt→ltb, inl, inr, Bool-cases, ==→eq, bit_or,
}
use cs552operating_system.Ramdisk.Store.{
  Fs, done, block_size, bitmap_sublock, allocatable_space_size,
}
use cs552operating_system.Ramdisk.Bitmap.{
  scan_bits, scan_bytes, next_block, mark_block, allocate_bitmap, unmark_block, free_bitmap,
}
use cs552operating_system.Ramdisk.Bitmap.Bits.{
  bit_at, bit_at-set, bit_at-free, bit_or-lt, bit_or-pos, bit_or_free-lt,
}

-- The bit of block `b`, 1 for a block in use.
abbrev pub marked : Fs → ℕ → ℕ
marked s b = bit_at (s.bitmap (b / 8)) (b % 8)

abbrev pub IsBytes : (ℕ → ℕ) → Type 0
IsBytes m = (i : ℕ) → m i < 256

pub marked-mark_block :
    (b c : ℕ) (s : Fs)
    → IsBytes s.bitmap
    → marked (mark_block b s) c ≡ (if c == b then 1 else marked s c)
unfolding mark_block
marked-mark_block b c s bytes = elim (Bool-cases (c / 8 == b / 8)) [
  | inl same ↦
      rw
        (
          same,
          bit_at-set (s.bitmap (b / 8)) (b % 8) (c % 8) (bytes (b / 8)) (omega arith) (omega arith),
        )
        (ground arith)
  | inr other ↦ rw other (ground arith)
]

pub mark_block-IsBytes : (b : ℕ) (s : Fs) → IsBytes s.bitmap → IsBytes (mark_block b s).bitmap
unfolding mark_block
mark_block-IsBytes b s bytes i =
    ground (arith, bytes i, bit_or-lt (s.bitmap (b / 8)) (b % 8) (bytes (b / 8)))

-- A byte that is not 0 ends the search at its first bit.
scan_bytes_nonzero : (k : ℕ) (bits : ℕ → ℕ) (i : ℕ) → bits i ≢ 0 → scan_bytes (suc k) bits i ≡ i * 8
unfolding scan_bytes scan_bits
scan_bytes_nonzero k bits i h = ground arith

next_block_le : (b : ℕ) → b ≤ allocatable_space_size → next_block b ≡ b
unfolding next_block
next_block_le b h = ground arith

pub first_free-mark_block :
    (b : ℕ) (s : Fs)
    → IsBytes s.bitmap
    → b < allocatable_space_size
    → (mark_block b s).superblock.first_free_block ≡ b / 8 * 8
unfolding mark_block
first_free-mark_block b s bytes h =
    let byte = bit_or (s.bitmap (b / 8)) (0x80 / 2 ^ (b % 8)) in
    let bits = update s.bitmap (b / 8) byte in
    let ne : 0 < byte = bit_or-pos _ _ (bytes (b / 8)) (omega arith) in
    let k : bitmap_sublock - b / 8 ≡ suc (1023 - b / 8) = omega arith in
    rw (k, scan_bytes_nonzero (1023 - b / 8) bits (b / 8) (ground arith))
      (next_block_le (b / 8 * 8) (omega arith))

-- `allocate_bitmap` on a block of the space, with bytes in the bitmap, succeeds, sets the bit of that
-- block and no other, takes one from the count of free blocks, and leaves as the first free block
-- not the next one whose bit is clear, but the first block of the same byte.
pub allocate_bitmap_lem :
    (b : ℕ) (s : Fs)
    → IsBytes s.bitmap
    → b < allocatable_space_size
    → 0 < s.superblock.free_block_number
    → s.superblock.free_block_number < 2 ^ 16
    → (s' : Fs) × (allocate_bitmap b s ≡ done (some 0) s')
      × ((c : ℕ) → marked s' c ≡ (if c == b then 1 else marked s c))
      × (s'.superblock.free_block_number + 1 ≡ s.superblock.free_block_number)
      × (s'.superblock.first_free_block ≡ b / 8 * 8)
unfolding allocate_bitmap
allocate_bitmap_lem b s bytes h some_free small = (
  mark_block b s,
  rw (lt→ltb (b / 8) bitmap_sublock (omega arith)),
  λ c. marked-mark_block b c s bytes,
  unfold mark_block in omega arith,
  first_free-mark_block b s bytes h,
)

pub marked-unmark_block-le :
    (b c : ℕ) (s : Fs) → IsBytes s.bitmap → marked s c ≤ marked (unmark_block b s) c
unfolding unmark_block
marked-unmark_block-le b c s bytes = elim (Bool-cases (c / 8 == b / 8)) [
  | inl same ↦
      rw (same, ==→eq (c / 8) (b / 8) same)
        (bit_at-free (s.bitmap (b / 8)) (b % 8) (c % 8) (bytes (b / 8)) (omega arith) (omega arith))
  | inr other ↦ rw other (omega arith)
]

pub unmark_block-IsBytes : (b : ℕ) (s : Fs) → IsBytes s.bitmap → IsBytes (unmark_block b s).bitmap
unfolding unmark_block
unmark_block-IsBytes b s bytes i =
    ground (arith, bytes i, bit_or_free-lt (s.bitmap (b / 8)) (b % 8) (bytes (b / 8)))

-- `free_bitmap` at a block of the space never clears a bit: every block that was in use before stays
-- in use, the freed one included.
pub free_bitmap-le :
    (b c : ℕ) (s : Fs)
    → IsBytes s.bitmap
    → b < allocatable_space_size
    → (s' : Fs) × (free_bitmap (s.space_ptr + b * block_size) s ≡ done (some 0) s')
      × (marked s c ≤ marked s' c)
unfolding free_bitmap
free_bitmap-le b c s bytes h = (unmark_block b s, ground arith, marked-unmark_block-le b c s bytes)
