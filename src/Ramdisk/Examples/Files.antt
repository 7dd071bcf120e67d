-- ===== src/Ramdisk/Examples/Files.antt =====
-- The theorems on blocks, files, tables and paths at concrete states.
use cs552operating_system.Base.{
  update, ℕ, ◌≡◌, refl, true, some, [], ◌∷◌, get_elem?, arith, ◌==◌, if◌then◌else◌, pos, codes,
}
use cs552operating_system.Ramdisk.Store.{reg, Fs, Fdt, Env, done}
use cs552operating_system.Ramdisk.Init.{initial, zero_inode}
use cs552operating_system.Ramdisk.Inodes.{new_inode}
use cs552operating_system.Ramdisk.Inodes.Invariant.{allocated}
use cs552operating_system.Ramdisk.Address.{switch_address}
use cs552operating_system.Ramdisk.Blocks.{allocate_block, refuses}
use cs552operating_system.Ramdisk.Blocks.Allocate.{block_address, switch-allocate_block}
use cs552operating_system.Ramdisk.File.{write_file}
use cs552operating_system.Ramdisk.File.RoundTrip.{InDirect, read-write_file}
use cs552operating_system.Ramdisk.Calls.Data.{read_loop}
use cs552operating_system.Ramdisk.Process.{get_fdt, root_object}
use cs552operating_system.Ramdisk.Process.Tables.{AllHold, Distinct}
use cs552operating_system.Ramdisk.Process.Theorems.{get_fdt-Served}
use cs552operating_system.Ramdisk.PathName.{read_pathname}
use cs552operating_system.Ramdisk.Calls.Open.{open_path}
use cs552operating_system.Ramdisk.PathName.Theorems.{join, read_pathname-absolute}
use cs552operating_system.Ramdisk.Bitmap.Allocate.{marked}
use cs552operating_system.Ramdisk.Init.Layout.{initial-IsBytes}
use cs552operating_system.Ramdisk.Examples.{start, ram, one_file}

-- The first block of the new file.
switch-allocate_block_example :
    (s' : Fs) × (allocate_block 1 one_file ≡ done (block_address one_file 1) s')
    × ((s'.inode 1).block_number ≡ pos 0)
    × (switch_address (s'.inode 1) (pos 0) (pos 0) s' ≡ done (block_address one_file 1) s')
    × ((b : ℕ) → marked s' b ≡ (if b == 1 then 1 else marked one_file b))
unfolding allocated new_inode initial refuses
switch-allocate_block_example =
    switch-allocate_block 1 0 one_file (omega arith) refl refl (omega arith) (omega arith)
      (omega arith) (initial-IsBytes 4096 start)

-- A file whose first block is the first of the space.
abbrev with_block : Fs
with_block = record ram {
  inode =
      update ram.inode 1
        (record zero_inode { kind = reg; location = λ k. if k == 0 then ram.space_ptr else 0 });
}

in_block : InDirect with_block (with_block.inode 1) 3 2
unfolding initial
in_block = record {
  direct = omega arith;
  block = ground arith;
  fits = omega arith;
  room = record { above = ground arith; below = ground arith; small = ground arith };
}

read-write_file_example :
    (s' : Fs) × (write_file 1 (pos 3) (codes "OK") b'w' with_block ≡ done (some 2, pos 5) s')
    × ((s'.inode 1).size ≡ 2)
    × (read_loop 2 (s'.inode 1) 3 2 [] s' ≡ done (some (codes "OK")) s')
unfolding zero_inode
read-write_file_example =
    read-write_file 1 3 (codes "OK") with_block (omega arith) refl in_block.block in_block

-- A process with its parent, and the parent's table.
abbrev child : Env
child = record { pid = 7; ppid = 3; vmalloc = true; fresh = λ _. 0 }

abbrev parent_table : Fdt
parent_table = record { pid = 3; files = root_object ∷ []; cur_path = codes "/" }

abbrev with_parent : Fs
with_parent = record start { fdts = parent_table ∷ [] }

get_fdt-Served_example :
    (i : ℕ) × (s' : Fs) × (f : Fdt) × (get_fdt child with_parent ≡ done (some i) s')
    × (get_elem? s'.fdts i ≡ some f)
    × (f.pid ≡ 7)
    × (get_fdt child s' ≡ done (some i) s')
    × Distinct s'.fdts
    × AllHold s'.fdts
get_fdt-Served_example = get_fdt-Served child with_parent refl (refl, tt) (ground arith, tt)

read_pathname-absolute_example :
    read_pathname (b'/' ∷ join (codes "a" ∷ []) (codes "b")) parent_table with_parent
    ≡ done
        (some (record { des_index = 0; parents = codes "a" ∷ []; child = codes "b" }))
        with_parent
read_pathname-absolute_example =
    read_pathname-absolute (codes "a" ∷ []) (codes "b") parent_table with_parent
      ((ground arith, tt), tt) (ground arith, tt) (ground arith) (ground arith)

-- The path that `rd_open` of `c` then makes has two slashes.
second_slash : open_path (codes "/a/") (codes "c") ≡ some (codes "/a//c")
unfolding open_path
second_slash = refl
