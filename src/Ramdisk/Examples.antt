-- ===== src/Ramdisk/Examples.antt =====
-- The theorems on the ramdisk at concrete states: a new ramdisk at address 4096, and small changes of
-- it.
pub mod Files
pub mod Folders
pub mod Opened
pub mod Programs
pub mod Reached
pub mod Blocks
use cs552operating_system.Base.{
  update, ℕ, ◌+◌, ◌*◌, ◌≤◌, ◌<◌, ◌≡◌, ◌↔◌, refl, true, some, none, List, [], ◌∷◌, ◌++◌, arith, ltb,
  ◌==◌, if◌then◌else◌, ℤ, pos, codes,
}
use cs552operating_system.Ramdisk.Store.{
  Inode, Kind, reg, Fs, Fdt, FileObject, Env, done, ◌>>◌, inode_list_num, allocatable_space_size,
  block_size, ramdisk_size,
}
use cs552operating_system.Ramdisk.Init.{
  initial, init_datastructure, zero_inode, inode_ptr, bitmap_ptr,
}
use cs552operating_system.Ramdisk.Init.Layout.{
  initial-IsCounted, initial-IsBytes, init_datastructure_lem, sizeof_inode,
}
use cs552operating_system.Ramdisk.Inodes.{allocate_inode, release_inode, new_inode}
use cs552operating_system.Ramdisk.Inodes.Invariant.{IsCounted, allocated, allocated-IsCounted}
use cs552operating_system.Ramdisk.Inodes.Theorems.{
  allocate_inode-IsCounted, release_inode-IsCounted,
}
use cs552operating_system.Ramdisk.Bitmap.{allocate_bitmap, free_bitmap, mark_block}
use cs552operating_system.Ramdisk.Bitmap.Allocate.{
  marked, IsBytes, allocate_bitmap_lem, free_bitmap-le,
}

-- What `insmod` starts from: no tables, and the memory of `vmalloc`.
abbrev pub start : Fs
start = record {
  superblock = record {
    free_block_number = 0;
    free_inode_number = 0;
    first_free_block = 0;
    first_free_inode = 0;
  };
  inode = λ i. zero_inode;
  bitmap = λ b. 0;
  space = λ a. 0;
  space_ptr = 0;
  fdts = [];
}

abbrev pub ram : Fs
ram = initial 4096 start

init_datastructure_lem_example :
    (s' : Fs) × (init_datastructure 4096 start ≡ done (some 0) s')
    × (s'.space_ptr + allocatable_space_size * block_size ≡ 4096 + ramdisk_size)
    × IsCounted s'
    × IsBytes s'.bitmap
    × ((b : ℕ) → marked s' b ≡ (if b == 0 then 1 else 0))
init_datastructure_lem_example = init_datastructure_lem 4096 start (ground arith)

allocate_inode-IsCounted_example :
    (s' : Fs) × (allocate_inode 0 (pos 7) reg ram ≡ done (some 0) s')
    × IsCounted s'
    × ((i : ℕ)
        → s'.inode i ≡ (if i == 1 then new_inode (ram.inode 1) 0 (pos 7) reg else ram.inode i))
unfolding initial
allocate_inode-IsCounted_example =
    allocate_inode-IsCounted 0 (pos 7) reg ram (initial-IsCounted 4096 start) (omega arith)

-- The ramdisk with one file.
abbrev pub one_file : Fs
one_file = allocated 0 (pos 7) reg ram

release_inode-IsCounted_example :
    (s' : Fs) × (release_inode 1 one_file ≡ done (some 0) s')
    × IsCounted s'
    × (s'.superblock.free_inode_number ≡ one_file.superblock.free_inode_number + 1)
    × (s'.superblock.first_free_inode ≡ (
        if ltb 1 one_file.superblock.first_free_inode
        then 1
        else one_file.superblock.first_free_inode))
unfolding allocated new_inode initial
release_inode-IsCounted_example =
    release_inode-IsCounted 1 one_file
      (allocated-IsCounted 0 (pos 7) reg ram (initial-IsCounted 4096 start) (omega arith))
      (omega arith) (ground arith)

allocate_bitmap_lem_example :
    (s' : Fs) × (allocate_bitmap 1 ram ≡ done (some 0) s')
    × ((c : ℕ) → marked s' c ≡ (if c == 1 then 1 else marked ram c))
    × (s'.superblock.free_block_number + 1 ≡ ram.superblock.free_block_number)
    × (s'.superblock.first_free_block ≡ 0)
unfolding initial
allocate_bitmap_lem_example =
    allocate_bitmap_lem 1 ram (initial-IsBytes 4096 start) (omega arith) (omega arith) (omega arith)
