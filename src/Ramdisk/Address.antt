-- ===== src/Ramdisk/Address.antt =====
-- module/support_function.h: `switchAddress` and `get_blockpointer`, from a position in a file to
-- an address.
use cs552operating_system.Base.{
  ℕ, ◌+◌, ◌-◌, ◌*◌, ◌/◌, ◌%◌, ltb, ◌==◌, if◌then◌else◌, ℤ, pos, negsuc,
}
use cs552operating_system.Ramdisk.Store.{
  Inode, Ptr, null, M, ◌>>=◌, pure, crash, add_ptr, load32, block_size,
}

-- `double_indirect[k / 64][k % 64]`
unfoldable pub double_slot : Ptr → ℕ → M Ptr
double_slot double k = do single ← load32 (double + 4 * (k / 64)); load32 (single + 4 * (k % 64))

-- An index below 0 reads in front of `location[]`.
unfoldable pub switch_address : Inode → ℤ → ℤ → M Ptr
switch_address object (negsuc n) block_offset = crash
switch_address object (pos n) block_offset =
    if ltb n 8
    then pure (add_ptr (object.location n) block_offset)
    else if ltb n 72
    then (if object.location 8 == null then pure null else (do
      block ← load32 (object.location 8 + 4 * (n - 8))
      pure (add_ptr block block_offset)))
    else if object.location 9 == null
    then pure null
    else (do block ← double_slot (object.location 9) (n - 72); pure (add_ptr block block_offset))

unfoldable pub get_blockpointer : ℤ → Inode → M Ptr
get_blockpointer (negsuc n) object = pure null
get_blockpointer (pos n) object =
    let block_num = n / block_size in
    let block_offset = pos (n % block_size) in
    if ltb block_num 8
    then (if object.location block_num == null
        then pure null
        else pure (add_ptr (object.location block_num) block_offset))
    else if ltb block_num 72
    then (if object.location 8 == null then pure null else (do
      block ← load32 (object.location 8 + 4 * (block_num - 8))
      pure (add_ptr block block_offset)))
    else if object.location 9 == null
    then pure null
    else (do
      block ← double_slot (object.location 9) (block_num - 72)
      pure (add_ptr block block_offset))
