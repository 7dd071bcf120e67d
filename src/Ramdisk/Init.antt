-- ===== src/Ramdisk/Init.antt =====
-- module/initial_module.c: `init_datastructure`, the layout of the ramdisk and its first state.
pub mod Layout
use cs552operating_system.Base.{
  ℕ, suc, ◌+◌, ◌-◌, ◌*◌, ◌==◌, some, [], if◌then◌else◌, bit_or, pos, Bool,
}
use cs552operating_system.Ramdisk.Store.{
  Superblock, Inode, blank, dir, Fs, Ptr, null, Run, done, fault, M, Ret, block_size,
  inode_list_size, inode_list_num, bitmap_size, allocatable_space_size,
}

-- The addresses of the regions, behind the superblock at `ramdisk`.
unfoldable pub inode_ptr : Ptr → Ptr
inode_ptr ramdisk = ramdisk + block_size

unfoldable pub bitmap_ptr : Ptr → Ptr
bitmap_ptr ramdisk = inode_ptr ramdisk + block_size * inode_list_size

unfoldable pub space_start : Ptr → Ptr
space_start ramdisk = bitmap_ptr ramdisk + block_size * bitmap_size

-- An inode after `memset`.
unfoldable pub zero_inode : Inode
zero_inode = record {
  kind = blank;
  size = 0;
  location = λ _. null;
  protection = 0;
  operation = 0;
  parent_index = 0;
  block_number = pos 0;
  last_block_offset = pos 0;
  mode = pos 0;
}

-- The root folder, with -2 for the `uint16_t` index of its parent.
unfoldable pub root_inode : Ptr → Inode
unfolding zero_inode
root_inode space = record zero_inode {
  kind = dir;
  location = λ k. if k == 0 then space else null;
  operation = 0x100;
  parent_index = 65534;
}

-- The state in the memory that `vmalloc` returned at `ramdisk`.
unfoldable pub initial : Ptr → Fs → Fs
unfolding inode_ptr bitmap_ptr space_start zero_inode root_inode
initial ramdisk s = record s {
  superblock = record {
    free_block_number = allocatable_space_size - 1;
    free_inode_number = inode_list_num - 1;
    first_free_block = 1;
    first_free_inode = 1;
  };
  inode = λ i. if i == 0 then root_inode (space_start ramdisk) else zero_inode;
  bitmap = λ b. if b == 0 then bit_or 0 0x80 else 0;
  space = λ a. 0;
  space_ptr = space_start ramdisk;
}

unfoldable pub init_datastructure : Ptr → M Ret
unfolding initial
init_datastructure ramdisk s = if ramdisk == null then fault else done (some 0) (initial ramdisk s)
