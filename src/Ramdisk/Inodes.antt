-- ===== src/Ramdisk/Inodes.antt =====
-- module/support_function.h: `allocate_inode`, and the fields and counters that `free_inode` resets.
pub mod Invariant
pub mod Theorems
use cs552operating_system.Base.{
  ℕ, zero, suc, ◌+◌, ◌-◌, ◌^◌, ◌%◌, Option, some, ltb, ◌==◌, if◌then◌else◌, ℤ, pos, negsuc,
}
use cs552operating_system.Ramdisk.Store.{
  Superblock, Inode, Kind, nul, Fs, Run, done, M, ◌>>=◌, ◌>>◌, Ret, pure, modify, get_inode,
  put_inode, inode_list_num,
}

-- The search for the next inode with no operation, with the rounds left.
unfoldable pub next_free : ℕ → (ℕ → Inode) → ℕ → ℕ
next_free zero inodes i = i
next_free (suc k) inodes i = if (inodes i).operation == 0 then i else next_free k inodes (i + 1)

-- The content of a new inode; the pointers of `location` stay.
unfoldable pub new_inode : Inode → ℕ → ℤ → Kind → Inode
new_inode old parent_inode_index mode kind = record old {
  kind = kind;
  size = 0;
  protection = 0;
  operation = 0x100;
  parent_index = parent_inode_index % 2 ^ 16;
  block_number = negsuc 0;
  last_block_offset = pos 0;
  mode = mode;
}

-- The superblock after an inode is taken.
unfoldable pub take_inode : Fs → Fs
take_inode s =
    let i = s.superblock.first_free_inode + 1 in
    record s {
      superblock = record (s.superblock) {
        first_free_inode = next_free (inode_list_num - i) s.inode i % 2 ^ 16;
        free_inode_number = (s.superblock.free_inode_number + 2 ^ 16 - 1) % 2 ^ 16;
      };
    }

unfoldable pub allocate_inode : ℕ → ℤ → Kind → M Ret
unfolding new_inode take_inode
allocate_inode parent_inode_index mode kind s =
    let i = s.superblock.first_free_inode in
    (do
      old ← get_inode i
      put_inode i (new_inode old parent_inode_index mode kind)
      modify take_inode
      pure (some 0))
      s

-- `free_inode` after the blocks and the directory entry are gone.
unfoldable pub reset_inode : Inode → Inode
reset_inode old = record old {
  kind = nul;
  size = 0;
  protection = 0;
  operation = 0;
  parent_index = 0;
  block_number = pos 0;
  last_block_offset = pos 0;
  mode = negsuc 0;
}

unfoldable pub give_inode : ℕ → Fs → Fs
give_inode i s = record s {
  superblock = record (s.superblock) {
    free_inode_number = (s.superblock.free_inode_number + 1) % 2 ^ 16;
    first_free_inode =
        if ltb i s.superblock.first_free_inode then i % 2 ^ 16 else s.superblock.first_free_inode;
  };
}

unfoldable pub release_inode : ℕ → M Ret
unfolding reset_inode give_inode
release_inode i = do
  old ← get_inode i
  put_inode i (reset_inode old)
  modify (give_inode i)
  pure (some 0)
