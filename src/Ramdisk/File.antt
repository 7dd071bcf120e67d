-- ===== src/Ramdisk/File.antt =====
-- module/support_function.h: `write_file`.
pub mod Bytes
pub mod RoundTrip
pub mod Gap
use cs552operating_system.Base.{
  ℕ, suc, ◌+◌, ◌/◌, ◌%◌, ◌^◌, ◌&&◌, none, some, List, [], ◌∷◌, ◌==◌, if◌then◌else◌, ℤ, pos, ◌+ℤ◌,
  ◌==ℤ◌, c_div, c_mod,
}
use cs552operating_system.Ramdisk.Store.{
  Inode, is_dir, Ptr, null, M, ◌>>=◌, ◌>>◌, Ret, pure, get_inode, put_inode, add_ptr, store8,
  block_size,
}
use cs552operating_system.Ramdisk.Address.{switch_address}
use cs552operating_system.Ramdisk.Blocks.{allocate_block}

-- The loop over the input: `w_size`, `block_offset` and `*position` grow by one with each byte; at
-- the end of a block a new one is allocated.
unfoldable pub write_bytes : ℕ → List ℕ → Ptr → ℤ → ℤ → ℕ → M (ℕ × ℤ)
write_bytes i [] w_ptr block_offset position w_size = pure (w_size, position)
write_bytes i (b ∷ bs) w_ptr block_offset position w_size =
    if block_offset ==ℤ pos block_size
    then (do
      block ← allocate_block i
      if block == null then pure (w_size, position) else (do
        store8 block b
        write_bytes i bs (add_ptr block (pos 1)) (pos 1) (position +ℤ pos 1) (w_size + 1)))
    else (do
      store8 w_ptr b
      write_bytes i bs (add_ptr w_ptr (pos 1)) (block_offset +ℤ pos 1) (position +ℤ pos 1)
          (w_size + 1))

-- The fields of the inode after `w_size` bytes.
unfoldable pub grown : Inode → ℕ → Inode
grown object w_size =
    let size = (object.size + w_size) % 2 ^ 32 in
    record object {
      size = size;
      block_number = pos (size / block_size);
      last_block_offset = pos (size % block_size);
    }

unfoldable pub grow : ℕ → ℕ → M (Unit {0})
grow i w_size = do object ← get_inode i; put_inode i (grown object w_size)

-- The result and the new value of `*position`.
unfoldable pub write_file : ℕ → ℤ → List ℕ → ℕ → M (Ret × ℤ)
write_file i position input type = do
  object ← get_inode i
  if type == b'w' && is_dir object.kind then pure (none, position) else (do
    first ← if object.location 0 == null then allocate_block i else pure (object.location 0)
    if first == null then pure (none, position) else (do
      object ← get_inode i
      w_ptr ← switch_address object (c_div position block_size) (c_mod position block_size)
      w_ptr ← if w_ptr == null then allocate_block i else pure w_ptr
      (w_size, position') ← write_bytes i input w_ptr (c_mod position block_size) position 0
      grow i w_size
      pure (some w_size, position')))
