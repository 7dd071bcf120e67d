-- ===== src/Ramdisk/Blocks.antt =====
-- module/support_function.h: `allocate_block` and `free_block`, the blocks of an inode.
pub mod Allocate
use cs552operating_system.Base.{
  update, ℕ, zero, suc, ◌+◌, ◌-◌, ◌*◌, ◌/◌, ◌%◌, Bool, ◌&&◌, ◌||◌, some, ltb, ◌==◌, if◌then◌else◌,
  ℤ, pos, negsuc, ◌+ℤ◌, ◌==ℤ◌, ltb_ℤ,
}
use cs552operating_system.Ramdisk.Store.{
  Ptr, null, M, ◌>>=◌, ◌>>◌, Ret, pure, crash, get, get_inode, put_inode, load32, store32, clear,
  block_size, max_file_size,
}
use cs552operating_system.Ramdisk.Bitmap.{allocate_bitmap, free_bitmap}

-- `new_block = first_freeBlock; allocate_bitmap(new_block)` and the address of the block.
unfoldable pub take_block : M Ptr
take_block s =
    let new_block = s.superblock.first_free_block in
    (do allocate_bitmap new_block; pure (s.space_ptr + new_block * block_size)) s

-- `object_inode->location[k] = p`
unfoldable pub set_location : ℕ → ℕ → Ptr → M (Unit {0})
set_location i k p = do
  object ← get_inode i
  put_inode i (record object { location = update object.location k p })

-- `8 <= block_num < 72`: the new block stands behind the single-indirect pointer.
unfoldable pub extend_single : ℕ → ℕ → Ptr → M Ptr
extend_single i block_num block1 = do
  object ← get_inode i
  if object.location 8 == null
      then (do set_location i 8 block1; block2 ← take_block; store32 block1 block2; pure block2)
      else (do store32 (object.location 8 + 4 * (block_num - 8)) block1; pure block1)

-- `72 <= block_num`: behind the double-indirect pointer.
unfoldable pub extend_double : ℕ → ℕ → Ptr → M Ptr
extend_double i block_num block1 = do
  object ← get_inode i
  if object.location 9 == null
      then (do
        set_location i 9 block1
        block2 ← take_block
        store32 block1 block2
        block3 ← take_block
        single ← load32 block1
        store32 single block3
        pure block3)
      else (do
        let slot = object.location 9 + 4 * ((block_num - 72) / 64)
        single ← load32 slot
        if single == null
            then (do
              store32 slot block1
              block2 ← take_block
              single ← load32 slot
              store32 single block2
              pure block2)
            else (do store32 (single + 4 * ((block_num - 72) % 64)) block1; pure block1))

-- The pointer of the new block `block_num`, wherever it belongs.
unfoldable pub extend : ℕ → ℤ → Ptr → M Ptr
extend i (negsuc n) block1 = crash
extend i (pos n) block1 =
    if ltb n 8
    then (do set_location i n block1; pure block1)
    else if ltb n 72
    then extend_single i n block1
    else extend_double i n block1

-- The guards of `allocate_block`: no room in the file, or too few free blocks.
unfoldable pub refuses : ℤ → ℕ → Bool
refuses block_num free =
    ltb_ℤ (pos (max_file_size / block_size)) block_num
    || ltb free 1
    || (block_num ==ℤ pos 8 && ltb free 2)
    || (block_num ==ℤ pos 72 && ltb free 3)

-- `block_number++; last_block_offset = 0`
unfoldable pub set_last_block : ℕ → ℤ → M (Unit {0})
set_last_block i block_num = do
  object ← get_inode i
  put_inode i (record object { block_number = block_num; last_block_offset = pos 0 })

-- `NULL` where the block is refused.
unfoldable pub allocate_block : ℕ → M Ptr
allocate_block i = do
  object ← get_inode i
  s ← get
  let block_num = object.block_number +ℤ pos 1
  if refuses block_num s.superblock.free_block_number
      then pure null
      else (do block1 ← take_block; set_last_block i block_num; extend i block_num block1)

-- `memset(p, 0, block_size); free_bitmap(p)`
unfoldable pub drop_block : Ptr → M (Unit {0})
drop_block p = do clear p block_size; free_bitmap p; pure tt

-- The direct pointers from `location[i]`, and `location[8]`, with the rounds left.
unfoldable pub free_direct : ℕ → (ℕ → Ptr) → ℕ → M (Unit {0})
unfolding drop_block
free_direct zero location i = pure tt
free_direct (suc k) location i =
    if location i == null
    then pure tt
    else (do drop_block (location i); free_direct k location (i + 1))

-- The pointers of the block `single` from slot `i`.
unfoldable pub free_slots : ℕ → Ptr → ℕ → M (Unit {0})
unfolding drop_block
free_slots zero single i = pure tt
free_slots (suc k) single i = do
  p ← load32 (single + 4 * i)
  if p == null then pure tt else (do drop_block p; free_slots k single (i + 1))

unfoldable pub free_double : ℕ → Ptr → ℕ → M (Unit {0})
unfolding free_slots
free_double zero double i = pure tt
free_double (suc k) double i = do
  single ← load32 (double + 4 * i)
  if single == null then pure tt else (do free_slots 64 single 0; free_double k double (i + 1))

unfoldable pub free_block : ℕ → M Ret
unfolding free_direct free_slots free_double
free_block i = do
  object ← get_inode i
  if ltb_ℤ object.block_number (pos 0) then pure (some 0) else (do
    free_direct 9 object.location 0
    if ltb_ℤ object.block_number (pos 8) then pure (some 0) else (do
      free_slots 64 (object.location 8) 0
      if ltb_ℤ object.block_number (pos 72)
          then pure (some 0)
          else (do free_double 64 (object.location 9) 0; pure (some 0))))
