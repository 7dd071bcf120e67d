-- ===== src/Ramdisk/Examples/Folders.antt =====
-- The theorems on folders at a concrete state: a folder in the root folder.
use cs552operating_system.Base.{
  update, ◌≡◌, refl, none, [], ◌∷◌, ◌++◌, arith, ◌==◌, if◌then◌else◌, inl, inr, Bool, pos, negsuc,
  codes,
}
use cs552operating_system.Ramdisk.Store.{dir, Fs, Fdt, Env, done}
use cs552operating_system.Ramdisk.Init.{initial}
use cs552operating_system.Ramdisk.Process.{root_object}
use cs552operating_system.Ramdisk.Process.Tables.{find_pid}
use cs552operating_system.Ramdisk.PathName.Theorems.{join}
use cs552operating_system.Ramdisk.Directory.{is_exist}
use cs552operating_system.Ramdisk.Directory.Listing.{Entry, lookup, place, all_entries}
use cs552operating_system.Ramdisk.Directory.Exist.{is_exist-lookup}
use cs552operating_system.Ramdisk.Calls.{create, rd_chmod, rd_unlink}
use cs552operating_system.Ramdisk.Calls.Refusals.{create_refused, rd_unlink_refused}
use cs552operating_system.Ramdisk.Calls.Walk.{IsFolder, Tree, Walkable, walk, chmod, rd_chmod-walk}
use cs552operating_system.Ramdisk.Directory
use cs552operating_system.Ramdisk.Examples.{ram}

abbrev table : Fdt
table = record { pid = 3; files = root_object ∷ []; cur_path = codes "/" }

-- The block of the root folder lies at 70912.
abbrev with_entry : Fs
with_entry = record ram {
  inode =
      update (update ram.inode 0 (record (ram.inode 0) { size = 16 })) 1
        (record (ram.inode 1) { kind = dir; size = 16 });
  space = λ a. if a == 70912 then b'a' else if a == 70926 then 1 else 0;
  fdts = table ∷ [];
}

abbrev entry : Entry
entry = record { filename = codes "a"; inode_index = 1 }

abbrev one_entry : Tree
one_entry i = if i == 0 then ((entry ∷ []) ∷ []) else []

root-IsFolder : IsFolder with_entry 0 (one_entry 0)
unfolding initial all_entries
root-IsFolder = record {
  bound = omega arith;
  size = refl;
  blocks = (
    ground arith,
    (
      record {
        text = (
          record { above = omega arith; below = omega arith },
          refl,
          ground arith,
          (record { above = omega arith; below = omega arith }, refl),
        );
        low = record { above = omega arith; below = omega arith };
        high = record { above = omega arith; below = omega arith };
        index = refl;
      },
      tt,
    ),
    omega arith,
    omega arith,
    inr refl,
    tt,
  );
  few = omega arith;
}

is_exist-lookup_example :
    is_exist (codes "a") 0 (negsuc 0) with_entry
    ≡ done
        (
          lookup (codes "a") (all_entries (one_entry 0)),
          place (codes "a") (all_entries (one_entry 0)) (negsuc 0),
        )
        with_entry
is_exist-lookup_example =
    is_exist-lookup 0 (one_entry 0) (codes "a") (negsuc 0) with_entry root-IsFolder.bound
      root-IsFolder.size root-IsFolder.blocks root-IsFolder.few (ground arith, tt) (omega arith)

walkable : Walkable with_entry one_entry 0 (codes "a" ∷ [])
unfolding lookup all_entries
walkable = (root-IsFolder, (ground arith, tt), omega arith, λ j h. ground (arith, h))

abbrev user : Env
user = record { pid = 3; ppid = 1; vmalloc = Bool.true; fresh = λ _. 0 }

rd_chmod-walk_example :
    rd_chmod user (b'/' ∷ join [] (codes "a")) (pos 2) with_entry
    ≡ chmod (walk one_entry 0 ([] ++ (codes "a" ∷ []))) (pos 2) with_entry
unfolding find_pid
rd_chmod-walk_example =
    rd_chmod-walk user one_entry 0 table [] (codes "a") (pos 2) with_entry refl refl (ground arith)
      tt (ground arith, tt) (omega arith) walkable

rd_unlink_refused_example :
    rd_unlink user (b'/' ∷ join [] (codes "a")) with_entry ≡ done none with_entry
unfolding find_pid walk lookup all_entries initial
rd_unlink_refused_example =
    rd_unlink_refused user one_entry 0 table [] (codes "a") with_entry refl refl (ground arith) tt
      (ground arith, tt) (omega arith) (omega arith) walkable (omega arith, refl, omega arith)

create_refused_example :
    create user (b'/' ∷ join [] (codes "a")) (pos 0) dir with_entry ≡ done none with_entry
unfolding find_pid walk lookup all_entries
create_refused_example =
    create_refused user one_entry 0 table [] (codes "a") (pos 0) dir with_entry refl refl
      (ground arith) tt (ground arith, tt) (omega arith) (omega arith) walkable (inl (ground arith))
