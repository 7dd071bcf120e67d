-- ===== src/Ramdisk/Ioctl.antt =====
-- module/initial_module.c: `ramdisk_ioctl`, which takes a command from user space to a call of the
-- file system. The texts that it logs are left out.
use cs552operating_system.Base.{
  ℕ, none, some, List, [], ltb, if◌then◌else◌, length, ℤ, pos, negsuc, bytes_at,
}
use cs552operating_system.Ramdisk.Store.{Env, M, ◌>>=◌, Ret, pure, crash}
use cs552operating_system.Ramdisk.Calls.{rd_pwd, rd_creat, rd_mkdir, rd_unlink, rd_chmod}
use cs552operating_system.Ramdisk.Calls.Open.{rd_open, rd_close}
use cs552operating_system.Ramdisk.Calls.Data.{rd_read, rd_write, rd_lseek}

-- The commands of `switch`; `other` is any number without a case.
pub data Command : Type 0 where
  ioctl_pwd ioctl_creat ioctl_mkdir ioctl_open ioctl_close ioctl_read ioctl_write ioctl_lseek
        ioctl_unlink ioctl_chmod other :
      Command

-- `file_op_arguments`, with the text and the bytes that its pointers lead to.
pub record FileOpArguments : Type 0 where
  pub pathname : List ℕ
  pub fid : ℤ
  pub position : ℤ
  pub input_content : ℕ → ℕ
  pub input_size : ℤ
  pub flag : ℤ
  pub mode : ℤ

-- What the copies from `arg` leave in the kernel's memory: a structure, a text or a number; and what
-- `copy_to_user` returns.
pub record Copied : Type 0 where
  pub file_info : FileOpArguments
  pub pathname : List ℕ
  pub fd : ℤ
  pub to_user : ℕ

-- A call on the memory of `vmalloc`, through `NULL` where that has none.
abbrev pub with_copy : {A : Type 0} → Env → M A → M A
with_copy env m = if env.vmalloc then m else crash

-- A call without an output.
abbrev pub plain : M Ret → M (Ret × List ℕ)
plain m = do ret ← m; pure (ret, [])

-- `strcpy` to the 100 bytes of `current_path`, and `copy_to_user` of them.
unfoldable pub give_path : ℕ → List ℕ → M (Ret × List ℕ)
give_path to_user path = if ltb (length path) 100 then pure (some to_user, path) else crash

-- The bytes that the loop of `write_file` takes: none for a size below 0.
abbrev pub input_bytes : ℤ → (ℕ → ℕ) → List ℕ
input_bytes (pos n) content = bytes_at content 0 n
input_bytes (negsuc n) content = []

-- `ramdisk_ioctl`: the result, and the bytes that go to user space.
unfoldable pub ramdisk_ioctl : Env → Command → Copied → M (Ret × List ℕ)
unfolding give_path
ramdisk_ioctl env ioctl_pwd c = do path ← rd_pwd env; give_path c.to_user path
ramdisk_ioctl env ioctl_creat c =
    with_copy env (plain (rd_creat env c.file_info.pathname c.file_info.mode))
ramdisk_ioctl env ioctl_mkdir c = with_copy env (plain (rd_mkdir env c.pathname))
ramdisk_ioctl env ioctl_open c =
    with_copy env (plain (rd_open env c.file_info.pathname c.file_info.flag))
ramdisk_ioctl env ioctl_close c = with_copy env (plain (rd_close env c.fd))
ramdisk_ioctl env ioctl_read c = with_copy env (rd_read env c.file_info.fid c.file_info.input_size)
ramdisk_ioctl env ioctl_write c = with_copy env (
    plain
      (rd_write env c.file_info.fid (input_bytes c.file_info.input_size c.file_info.input_content)))
ramdisk_ioctl env ioctl_lseek c =
    with_copy env (plain (rd_lseek env c.file_info.fid c.file_info.position))
ramdisk_ioctl env ioctl_unlink c = with_copy env (plain (rd_unlink env c.pathname))
ramdisk_ioctl env ioctl_chmod c =
    with_copy env (plain (rd_chmod env c.file_info.pathname c.file_info.mode))
ramdisk_ioctl env other c = pure (none, [])
