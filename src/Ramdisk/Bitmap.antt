-- ===== src/Ramdisk/Bitmap.antt =====
-- module/support_function.h: `allocate_bitmap` and `free_bitmap`, the bits of the allocatable blocks.
pub mod Bits
pub mod Allocate
use cs552operating_system.Base.{
  update, ℕ, zero, suc, ◌+◌, ◌-◌, ◌*◌, ◌/◌, ◌%◌, ◌^◌, Bool, not, ◌&&◌, Option, some, ltb, ◌==◌,
  if◌then◌else◌, bit_or, bit_xor,
}
use cs552operating_system.Ramdisk.Store.{
  Superblock, Fs, Run, done, fault, M, Ret, Ptr, block_size, bitmap_sublock, allocatable_space_size,
}

-- The inner loop over the bits of one byte, with the rounds left: `byte && (0x80 >> j)` is the
-- logical conjunction of two numbers.
unfoldable pub scan_bits : ℕ → ℕ → ℕ → ℕ
scan_bits zero byte j = j
scan_bits (suc k) byte j =
    if not (byte == 0) && not (0x80 / 2 ^ j == 0) then j else scan_bits k byte (j + 1)

-- The outer loop over the bytes from `i`, with the rounds left; the result is `i * 8 + j` after
-- `i--`, and the loop that runs out ends with `j == 8`.
unfoldable pub scan_bytes : ℕ → (ℕ → ℕ) → ℕ → ℕ
scan_bytes zero bits i = (i - 1) * 8 + 8
scan_bytes (suc k) bits i =
    let j = scan_bits 8 (bits i) 0 in
    let rest = scan_bytes k bits (i + 1) in if j == 8 then rest else i * 8 + j

-- `(uint16_t)new_block`, where a block past the end has become -1.
unfoldable pub next_block : ℕ → ℕ
next_block b = if ltb allocatable_space_size b then 65535 else b % 2 ^ 16

-- The bit of `new_block` set, the next free block looked for, and the superblock changed.
unfoldable pub mark_block : ℕ → Fs → Fs
unfolding scan_bits scan_bytes next_block
mark_block new_block s =
    let index_num = new_block / 8 in
    let index_offset = new_block % 8 in
    let bits = update s.bitmap index_num (bit_or (s.bitmap index_num) (0x80 / 2 ^ index_offset)) in
    record s {
      bitmap = bits;
      superblock = record (s.superblock) {
        free_block_number = (s.superblock.free_block_number + 2 ^ 16 - 1) % 2 ^ 16;
        first_free_block = next_block (scan_bytes (bitmap_sublock - index_num) bits index_num);
      };
    }

-- A byte past the bitmap is undefined.
unfoldable pub allocate_bitmap : ℕ → M Ret
unfolding mark_block
allocate_bitmap new_block s =
    if ltb (new_block / 8) bitmap_sublock then done (some 0) (mark_block new_block s) else fault

-- `0x08 ^ (0xff >> bitmap_bit_num)`
abbrev pub free_mask : ℕ → ℕ
free_mask bit = bit_xor 0x08 (0xff / 2 ^ bit)

unfoldable pub unmark_block : ℕ → Fs → Fs
unmark_block block_num s =
    let byte_num = block_num / 8 in
    let bit_num = block_num % 8 in
    let freeindex = byte_num * 8 + bit_num in
    let first = s.superblock.first_free_block in
    record s {
      bitmap = update s.bitmap byte_num (bit_or (s.bitmap byte_num) (free_mask bit_num));
      superblock = record (s.superblock) {
        free_block_number = (s.superblock.free_block_number + 1) % 2 ^ 16;
        first_free_block = if ltb freeindex first then freeindex % 2 ^ 16 else first;
      };
    }

unfoldable pub free_bitmap : Ptr → M Ret
unfolding unmark_block
free_bitmap location s =
    let block_num = (location - s.space_ptr) / block_size in
    if not (ltb location s.space_ptr) && ltb (block_num / 8) bitmap_sublock
    then done (some 0) (unmark_block block_num s)
    else fault
