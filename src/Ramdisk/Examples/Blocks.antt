-- ===== src/Ramdisk/Examples/Blocks.antt =====
-- The theorems on files of several blocks at concrete states.
use cs552operating_system.Base.{
  bytes_at, update, ◌+◌, ◌/◌, ◌*◌, ◌≡◌, refl, some, none, [], ◌∷◌, arith, ◌==◌, if◌then◌else◌, pos,
  codes,
}
use cs552operating_system.Ramdisk.Store.{reg, null, Fs, Fdt, FileObject, done, block_size}
use cs552operating_system.Ramdisk.Init.{initial, zero_inode}
use cs552operating_system.Ramdisk.Process.Tables.{find_pid}
use cs552operating_system.Ramdisk.Blocks.{refuses}
use cs552operating_system.Ramdisk.Blocks.Allocate.{block_address}
use cs552operating_system.Ramdisk.File.{write_file}
use cs552operating_system.Ramdisk.File.Gap.{IsFull, read-write_file_full}
use cs552operating_system.Ramdisk.Calls.Data.{read_loop, rd_read}
use cs552operating_system.Ramdisk.Calls.Data.Opened.{Opened}
use cs552operating_system.Ramdisk.Calls.Data.Content.{Covered, content, rd_read-content}
use cs552operating_system.Ramdisk.Examples.{ram}
use cs552operating_system.Ramdisk.Examples.Opened.{user, table}

-- A file of one block that is exactly full.
abbrev full_block : Fs
full_block = record ram {
  inode = update ram.inode 1 (record zero_inode {
    kind = reg;
    size = 256;
    location = λ k. if k == 0 then ram.space_ptr else 0;
    block_number = pos 1;
  });
}

full_block-IsFull : IsFull full_block 1 1
unfolding initial zero_inode refuses
full_block-IsFull = record {
  bound = omega arith;
  first = ground arith;
  last = refl;
  next = refl;
  direct = omega arith;
  room = refl;
  inside = omega arith;
  words = omega arith;
  place = omega arith;
}

read-write_file_full_example :
    (s' : Fs) × (write_file 1 (pos (block_size * 1)) (codes "OK") b'w' full_block
      ≡ done (some 2, pos (block_size * 1 + 2)) s')
    × ((s'.inode 1).location 1 ≡ null)
    × ((s'.inode 1).location 2 ≡ block_address full_block full_block.superblock.first_free_block)
    × (read_loop 2 (s'.inode 1) (block_size * 1) 2 [] s' ≡ done none s')
unfolding zero_inode
read-write_file_full_example =
    read-write_file_full 1 1 (codes "OK") full_block full_block-IsFull refl (omega arith)
      (omega arith)

abbrev file : FileObject
file = record { inode_index = 1; position = pos 254 }

abbrev table_at_end : Fdt
table_at_end = record table { files = file ∷ file ∷ [] }

-- A file of two blocks, the second one in front of the first.
abbrev two_blocks : Fs
two_blocks = record ram {
  inode = update ram.inode 1 (record zero_inode {
    kind = reg;
    size = 300;
    location = λ k. if k == 0 then ram.space_ptr + 512 else if k == 1 then ram.space_ptr else 0;
  });
  space = λ a. a / 256;
  fdts = table_at_end ∷ [];
}

two_blocks-Covered : Covered two_blocks (two_blocks.inode 1) 254 4
unfolding initial zero_inode
two_blocks-Covered j low high = record {
  direct = omega arith;
  block = ground arith;
  fits = omega arith;
  room = record { above = ground arith; below = ground arith; small = ground arith };
}

two_blocks-Opened : Opened user two_blocks 0 table_at_end 1 file
unfolding find_pid
two_blocks-Opened = record { own = refl; table = refl; object = refl; positive = omega arith }

rd_read-content_example :
    rd_read user (pos 1) (pos 4) two_blocks
    ≡ done (some 4, bytes_at (content two_blocks (two_blocks.inode 1)) 254 4) two_blocks
unfolding zero_inode initial
rd_read-content_example =
    rd_read-content user two_blocks 0 table_at_end 1 file 254 4 two_blocks-Opened refl (omega arith)
      (ground arith) (omega arith) (omega arith) (omega arith) (omega arith) two_blocks-Covered
