-- ===== src/Ramdisk/Examples/Opened.antt =====
-- The theorem on an open file at a concrete state: descriptor 1 stands at position 3 of a file of 10
-- bytes.
use cs552operating_system.Base.{
  update, Bool, ◌≡◌, inr, refl, none, some, [], ◌∷◌, arith, ◌==◌, if◌then◌else◌, pos, codes,
}
use cs552operating_system.Ramdisk.Store.{reg, Fs, Fdt, FileObject, Env, done}
use cs552operating_system.Ramdisk.Init.{initial, zero_inode}
use cs552operating_system.Ramdisk.Process.{root_object}
use cs552operating_system.Ramdisk.Process.Tables.{find_pid}
use cs552operating_system.Ramdisk.File.RoundTrip.{InDirect}
use cs552operating_system.Ramdisk.Calls.Data.{rd_read, rd_write, rd_lseek}
use cs552operating_system.Ramdisk.Calls.Data.Opened.{Opened, rd_read-rd_write}
use cs552operating_system.Ramdisk.Calls.Data.Refused.{refused_descriptor}
use cs552operating_system.Ramdisk.Examples.{ram}

abbrev pub user : Env
user = record { pid = 3; ppid = 1; vmalloc = Bool.true; fresh = λ _. 0 }

abbrev pub file : FileObject
file = record { inode_index = 1; position = pos 3 }

abbrev pub table : Fdt
table = record { pid = 3; files = root_object ∷ file ∷ []; cur_path = codes "/" }

abbrev pub with_file : Fs
with_file = record ram {
  inode = update ram.inode 1 (record zero_inode {
    kind = reg;
    size = 10;
    location = λ k. if k == 0 then ram.space_ptr else 0;
  });
  fdts = table ∷ [];
}

pub with_file-InDirect : InDirect with_file (with_file.inode 1) 3 2
unfolding initial
with_file-InDirect = record {
  direct = omega arith;
  block = ground arith;
  fits = omega arith;
  room = record { above = ground arith; below = ground arith; small = ground arith };
}

pub with_file-Opened : Opened user with_file 0 table 1 file
unfolding find_pid
with_file-Opened = record { own = refl; table = refl; object = refl; positive = omega arith }

rd_read-rd_write_example :
    (s1 : Fs) × (s2 : Fs) × (rd_write user (pos 1) (codes "OK") with_file ≡ done (some 2) s1)
    × (rd_lseek user (pos 1) (pos 3) s1 ≡ done (some 0) s2)
    × (rd_read user (pos 1) (pos 2) s2 ≡ done (some 2, codes "OK") s2)
unfolding zero_inode
rd_read-rd_write_example =
    rd_read-rd_write user with_file 0 table 1 file 3 (codes "OK") with_file-Opened refl
      (omega arith) refl with_file-InDirect.block (omega arith) (omega arith) (omega arith)
      with_file-InDirect

refused_descriptor_example :
    (rd_read user (pos 2) (pos 5) with_file ≡ done (none, []) with_file)
    × (rd_write user (pos 2) (codes "hi") with_file ≡ done none with_file)
    × (rd_lseek user (pos 2) (pos 0) with_file ≡ done none with_file)
unfolding find_pid
refused_descriptor_example =
    refused_descriptor user with_file 0 table 2 (codes "hi") (pos 5) (pos 0) refl refl
      (inr (omega arith))
