-- ===== src/Ramdisk/User.antt =====
-- test/user_interface.h: the calls that a program makes. `open` and `ioctl` are the system's: the result
-- of the first and the second are arguments, as are the fields that a wrapper leaves unset. What the
-- wrappers print is left out.
pub mod PathName
pub mod Access
pub mod Trips
pub mod Refines
use cs552operating_system.Base.{
  ℕ, ◌+◌, Bool, Option, none, some, List, [], ◌==◌, if◌then◌else◌, ℤ, pos, negsuc, ◌==ℤ◌,
}
use cs552operating_system.Ramdisk.Store.{M, ◌>>=◌, Ret, pure}
use cs552operating_system.Ramdisk.Ioctl.{
  Command, ioctl_creat, ioctl_mkdir, ioctl_open, ioctl_close, ioctl_read, ioctl_write, ioctl_lseek,
  ioctl_unlink, ioctl_chmod, FileOpArguments, Copied,
}
use PathName.{check_pathname}

abbrev pub read_only : ℤ
read_only = pos 0

abbrev pub read_write : ℤ
read_write = pos 1

abbrev pub write_only : ℤ
write_only = pos 2

-- `openedRandisk` and `count`.
pub record User : Type 0 where
  pub opened_randisk : ℤ
  pub count : ℕ

-- `openProcRandisk`, where `open` returns `opened`.
unfoldable pub open_proc_randisk : ℤ → User → Ret × User
open_proc_randisk opened u =
    if u.opened_randisk ==ℤ negsuc 0
    then (
      if opened ==ℤ negsuc 0 then none else some 0,
      record u { opened_randisk = opened; count = u.count + 1 },
    )
    else (some 0, u)

unfoldable pub mode_to_permission : ℕ → ℤ
mode_to_permission mode =
    if mode == 292 then read_only else if mode == 420 then read_write else write_only

-- The tests of `rd_open` on its flag.
unfoldable pub open_flag : ℤ → ℤ
open_flag flag =
    if flag ==ℤ pos 2 then read_write else if flag ==ℤ pos 0 then read_only else write_only

-- A wrapper's call once the file of the ramdisk is open.
unfoldable pub when_open : {A : Type 0} → A → (User → M (A × User)) → Ret × User → M (A × User)
when_open failed k (none, u) = pure (failed, u)
when_open failed k (some _, u) = k u

-- A call on a path that `check_pathname` lets through.
unfoldable pub when_path :
    (List ℕ → User → M (Ret × User)) → Option (List ℕ) → User → M (Ret × User)
when_path k none u = pure (none, u)
when_path k (some path) u = k path u

-- `return SUCCESS` in place of the result.
abbrev pub success : Ret → Ret
success none = none
success (some _) = some 0

module _ (opened : ℤ) (ioctl : ℤ → Command → Copied → M (Ret × List ℕ)) (unset : Copied) where
  -- A call of `ioctl`, with a function of its result.
  unfoldable pub command : Command → Copied → (Ret → Ret) → User → M (Ret × User)
  command c copied f u = do (ret, _) ← ioctl u.opened_randisk c copied; pure (f ret, u)

  unfoldable pub user_rd_creat : List ℕ → ℕ → User → M (Ret × User)
  user_rd_creat pathname mode u =
      when_open none
        (when_path
          (λ path.
            command ioctl_creat
              (record unset {
                file_info = record (unset.file_info) {
                  pathname = path;
                  mode = mode_to_permission mode;
                };
              })
              (λ r. r))
          (check_pathname pathname))
        (open_proc_randisk opened u)

  unfoldable pub user_rd_mkdir : List ℕ → User → M (Ret × User)
  user_rd_mkdir pathname u =
      when_open none
        (when_path (λ path. command ioctl_mkdir (record unset { pathname = path }) success)
          (check_pathname pathname))
        (open_proc_randisk opened u)

  unfoldable pub user_rd_unlink : List ℕ → User → M (Ret × User)
  user_rd_unlink pathname u =
      when_open none
        (when_path (λ path. command ioctl_unlink (record unset { pathname = path }) success)
          (check_pathname pathname))
        (open_proc_randisk opened u)

  -- `rd_open` and `rd_lseek` do not open the file of the ramdisk.
  unfoldable pub user_rd_open : List ℕ → ℤ → User → M (Ret × User)
  user_rd_open pathname flag u =
      when_path
        (λ path.
          command ioctl_open
            (record unset {
              file_info = record (unset.file_info) { pathname = path; flag = open_flag flag };
            })
            (λ r. r))
        (check_pathname pathname) u

  unfoldable pub user_rd_write : ℤ → (ℕ → ℕ) → ℤ → User → M (Ret × User)
  user_rd_write fid input_content input_size u =
      when_open none
        (command ioctl_write
          (record unset {
            file_info = record (unset.file_info) {
              fid = fid;
              input_size = input_size;
              input_content = input_content;
            };
          })
          (λ r. r))
        (open_proc_randisk opened u)

  unfoldable pub user_rd_lseek : ℤ → ℤ → User → M (Ret × User)
  user_rd_lseek fid position =
      command ioctl_lseek
        (record unset { file_info = record (unset.file_info) { position = position; fid = fid } })
        (λ r. r)

  -- With the bytes that come to `addr`; the 0 that is set behind `input_size` bytes is left out.
  unfoldable pub user_rd_read : ℤ → (ℕ → ℕ) → ℤ → User → M ((Ret × List ℕ) × User)
  user_rd_read fid addr input_size u =
      when_open (none, [])
        (λ u'. do
          out ← ioctl u'.opened_randisk ioctl_read (record unset {
            file_info = record (unset.file_info) {
              fid = fid;
              input_size = input_size;
              input_content = addr;
            };
          })
          pure (out, u'))
        (open_proc_randisk opened u)

  unfoldable pub user_rd_close : ℤ → User → M (Ret × User)
  user_rd_close fid u =
      when_open none (command ioctl_close (record unset { fd = fid }) (λ r. r))
        (open_proc_randisk opened u)

  unfoldable pub user_rd_chmod : List ℕ → ℕ → User → M (Ret × User)
  user_rd_chmod pathname mode u =
      when_open none
        (when_path
          (λ path.
            command ioctl_chmod
              (record unset {
                file_info = record (unset.file_info) {
                  pathname = path;
                  mode = mode_to_permission mode;
                };
              })
              (λ r. r))
          (check_pathname pathname))
        (open_proc_randisk opened u)
