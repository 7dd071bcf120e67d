-- ===== src/Ramdisk/Examples/Programs.antt =====
-- The theorems on the calls of a program at concrete states: the file of the open file's example.
use cs552operating_system.Base.{
  ℕ, ◌+◌, not, ◌≡◌, refl, some, none, List, [], ◌∷◌, ◌++◌, arith, ℤ, pos, negsuc, codes, bytes_at,
}
use cs552operating_system.Ramdisk.Store.{Fs, M, Ret, done}
use cs552operating_system.Ramdisk.Init.{zero_inode}
use cs552operating_system.Ramdisk.Calls.Open.{denies, rd_open, rd_close}
use cs552operating_system.Ramdisk.Ioctl.{Command, Copied, ramdisk_ioctl}
use cs552operating_system.Ramdisk.User.{
  User, success, user_rd_creat, user_rd_mkdir, user_rd_unlink, user_rd_chmod, user_rd_close,
  user_rd_open, user_rd_write, user_rd_lseek, user_rd_read,
}
use cs552operating_system.Ramdisk.Calls.{rd_creat, rd_mkdir, rd_unlink, rd_chmod}
use cs552operating_system.Ramdisk.User.Refines.{returned, user_calls-refine}
use cs552operating_system.Ramdisk.User.Access.{Access, both, code_of, grants}
use cs552operating_system.Ramdisk.User.PathName.{check_pathname}
use cs552operating_system.Ramdisk.User.PathName.Trim.{spaces, check_pathname-spaces}
use cs552operating_system.Ramdisk.User.Trips.{Reaches, user_rd_read-user_rd_write}
use cs552operating_system.Ramdisk.Examples.Opened.{
  user, file, table, with_file, with_file-InDirect, with_file-Opened,
}

abbrev no_bytes : ℕ → ℕ
no_bytes i = 0

abbrev two_bytes : ℕ → ℕ
two_bytes i = 79 + i

abbrev unset : Copied
unset = record {
  file_info = record {
    pathname = [];
    fid = pos 0;
    position = pos 0;
    input_content = no_bytes;
    input_size = pos 0;
    flag = pos 0;
    mode = pos 0;
  };
  pathname = [];
  fd = pos 0;
  to_user = 0;
}

-- The system: a call on the descriptor -1 fails, and any other reaches the module.
abbrev system : ℤ → Command → Copied → M (Ret × List ℕ)
system (pos fd) c x s = ramdisk_ioctl user c x s
system (negsuc n) c x s = done (none, []) s

abbrev opened_once : User
opened_once = record { opened_randisk = pos 3; count = 1 }

abbrev at_start : User
at_start = record { opened_randisk = negsuc 0; count = 0 }

opened_once-Reaches : Reaches user system opened_once
opened_once-Reaches = (ground arith, λ c x s. refl)

user_rd_read-user_rd_write_example :
    (s1 : Fs) × (s2 : Fs) × (user_rd_write
        (pos 3)
        system
        unset
        (pos 1)
        two_bytes
        (pos 2)
        opened_once
        with_file
      ≡ done (some 2, opened_once) s1)
    × (user_rd_lseek (pos 3) system unset (pos 1) (pos 3) opened_once s1
        ≡ done (some 0, opened_once) s2)
    × (user_rd_read (pos 3) system unset (pos 1) no_bytes (pos 2) opened_once s2
        ≡ done ((some 2, bytes_at two_bytes 0 2), opened_once) s2)
unfolding zero_inode
user_rd_read-user_rd_write_example =
    user_rd_read-user_rd_write (pos 3) user system unset opened_once opened_once-Reaches refl
      with_file 0 table 1 file 3 2 two_bytes no_bytes with_file-Opened refl (omega arith) refl
      with_file-InDirect.block (omega arith) (omega arith) (omega arith) with_file-InDirect

check_pathname-spaces_example :
    check_pathname (spaces 2 ++ ((codes "/my-fil" ++ (b'e' ∷ [])) ++ spaces 1))
    ≡ some (codes "/my-fil" ++ (b'e' ∷ []))
unfolding check_pathname
check_pathname-spaces_example = check_pathname-spaces 2 1 (codes "/my-fil") (b'e') refl refl

user_calls-refine_example :
    let typed = spaces 1 ++ ((codes "/note" ++ (b's' ∷ [])) ++ spaces 1) in
    let path = codes "/note" ++ (b's' ∷ []) in
    let id = λ (r : Ret). r in
    (user_rd_creat (pos 3) system unset typed 420 opened_once with_file
      ≡ returned id opened_once (rd_creat user path (pos 1) with_file))
    × (user_rd_mkdir (pos 3) system unset typed opened_once with_file
        ≡ returned success opened_once (rd_mkdir user path with_file))
    × (user_rd_unlink (pos 3) system unset typed opened_once with_file
        ≡ returned success opened_once (rd_unlink user path with_file))
    × (user_rd_open (pos 3) system unset typed (pos 2) opened_once with_file
        ≡ returned id opened_once (rd_open user path (pos 1) with_file))
    × (user_rd_chmod (pos 3) system unset typed 420 opened_once with_file
        ≡ returned id opened_once (rd_chmod user path (pos 1) with_file))
    × (user_rd_close (pos 3) system unset (pos 1) opened_once with_file
        ≡ returned id opened_once (rd_close user (pos 1) with_file))
    × ((mode flag : Access) → denies (code_of mode) (code_of flag) ≡ not (grants mode flag))
unfolding check_pathname
user_calls-refine_example =
    user_calls-refine (pos 3) user system unset opened_once opened_once-Reaches refl 1 1
      (codes "/note") (b's') both (pos 1) with_file refl refl
