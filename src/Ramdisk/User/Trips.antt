-- ===== src/Ramdisk/User/Trips.antt =====
-- The calls of a program, down to the file system.
use cs552operating_system.Base.{
  ℕ, zero, suc, ◌+◌, ◌^◌, ◌≤◌, ◌<◌, ◌≡◌, ◌≢◌, refl, sym, ap, ◌∙◌, true, false, none, some, List, [],
  length, bytes_at, arith, inl, inr, Option-cases, if◌then◌else◌, ℤ, pos, negsuc,
}
use mathlib.Core.Path.{subst}
use cs552operating_system.Ramdisk.Store.{
  is_dir, null, Fs, Fdt, FileObject, Env, done, M, Ret, crash, inode_list_num,
}
use cs552operating_system.Ramdisk.File.RoundTrip.{InDirect}
use cs552operating_system.Ramdisk.Calls.Data.{rd_read, rd_write, rd_lseek}
use cs552operating_system.Ramdisk.Calls.Data.Opened.{Opened, rd_read-rd_write}
use cs552operating_system.Ramdisk.Ioctl.{
  Command, ioctl_read, ioctl_write, ioctl_lseek, ioctl_open, Copied, ramdisk_ioctl, with_copy,
  plain,
}
use cs552operating_system.Ramdisk.User.{
  User, open_proc_randisk, when_open, when_path, command, open_flag, user_rd_open, user_rd_write,
  user_rd_lseek, user_rd_read,
}
use cs552operating_system.Ramdisk.User.PathName.{check_pathname}

length-bytes_at : (m : ℕ → ℕ) (p n : ℕ) → length (bytes_at m p n) ≡ n
unfolding bytes_at
length-bytes_at m p zero = refl
length-bytes_at m p (suc n) = ap suc (length-bytes_at m (p + 1) n)

-- `ioctl` of the program's descriptor is `ramdisk_ioctl`.
abbrev pub Reaches :
    (env : Env) (ioctl : ℤ → Command → Copied → M (Ret × List ℕ)) (u : User) → Type 0
Reaches env ioctl u =
    (u.opened_randisk ≢ negsuc 0)
    × ((c : Command) (x : Copied) (s : Fs) → ioctl u.opened_randisk c x s ≡ ramdisk_ioctl env c x s)

pub with_copy_lem :
    {A : Type 0} (env : Env) (m : M A) (s : Fs) → env.vmalloc ≡ true → with_copy env m s ≡ m s
with_copy_lem env m s h = ap (λ b. (if b then m else crash) s) h

plain_lem : (m : M Ret) (ret : Ret) (s s' : Fs) → m s ≡ done ret s' → plain m s ≡ done (ret, []) s'
plain_lem m ret s s' h = rw h refl

pub open_proc_randisk-again :
    (opened : ℤ) (u : User) → u.opened_randisk ≢ negsuc 0 → open_proc_randisk opened u ≡ (some 0, u)
unfolding open_proc_randisk
open_proc_randisk-again opened u h = ground arith

module _ (opened : ℤ) (env : Env) (ioctl : ℤ → Command → Copied → M (Ret × List ℕ)) (unset : Copied)
    (u : User) (reaches : Reaches env ioctl u) (memory : env.vmalloc ≡ true) where
  -- What `ramdisk_ioctl` does for a call that returns, with memory for the argument.
  serve :
      (c : Command) (x : Copied) (out : Ret × List ℕ) (s s' : Fs)
      → ramdisk_ioctl env c x s ≡ done out s'
      → ioctl u.opened_randisk c x s ≡ done out s'
  serve c x out s s' h = reaches.1 c x s ∙ h

  user_rd_write_lem :
      (fd : ℤ) (content : ℕ → ℕ) (n : ℕ) (ret : Ret) (s s' : Fs)
      → rd_write env fd (bytes_at content 0 n) s ≡ done ret s'
      → user_rd_write opened ioctl unset fd content (pos n) u s ≡ done (ret, u) s'
  unfolding user_rd_write command when_open ramdisk_ioctl
  user_rd_write_lem fd content n ret s s' h =
      let x = record unset {
        file_info = record (unset.file_info) {
          fid = fd;
          input_size = pos n;
          input_content = content;
        };
      } in
      let m = rd_write env fd (bytes_at content 0 n) in
      rw (open_proc_randisk-again opened u reaches.0) (
        rw
          (serve ioctl_write x (ret, []) s s'
            (with_copy_lem env (plain m) s memory ∙ plain_lem m ret s s' h))
          refl)

  user_rd_lseek_lem :
      (fd position : ℤ) (ret : Ret) (s s' : Fs)
      → rd_lseek env fd position s ≡ done ret s'
      → user_rd_lseek opened ioctl unset fd position u s ≡ done (ret, u) s'
  unfolding user_rd_lseek command ramdisk_ioctl
  user_rd_lseek_lem fd position ret s s' h =
      let x = record unset {
        file_info = record (unset.file_info) { position = position; fid = fd };
      } in
      let m = rd_lseek env fd position in
      rw
        (serve ioctl_lseek x (ret, []) s s'
          (with_copy_lem env (plain m) s memory ∙ plain_lem m ret s s' h))
        refl

  user_rd_read_lem :
      (fd n : ℤ) (addr : ℕ → ℕ) (out : Ret × List ℕ) (s s' : Fs)
      → rd_read env fd n s ≡ done out s'
      → user_rd_read opened ioctl unset fd addr n u s ≡ done (out, u) s'
  unfolding user_rd_read when_open ramdisk_ioctl
  user_rd_read_lem fd n addr out s s' h =
      let x = record unset {
        file_info = record (unset.file_info) { fid = fd; input_size = n; input_content = addr };
      } in
      rw (open_proc_randisk-again opened u reaches.0)
        (rw (serve ioctl_read x out s s' (with_copy_lem env (rd_read env fd n) s memory ∙ h)) refl)

  -- A program whose `ioctl` reaches the module, and whose process has a file open as `rd_read-rd_write`
  -- asks for: `rd_write` of `n` bytes of its memory, `rd_lseek` back and `rd_read` of `n` bytes succeed,
  -- and bring exactly these bytes back.
  pub user_rd_read-user_rd_write :
      (s : Fs) (t : ℕ) (fdt : Fdt) (fd : ℕ) (f : FileObject) (q n : ℕ) (content addr : ℕ → ℕ)
      → Opened env s t fdt fd f
      → f.position ≡ pos q
      → f.inode_index < inode_list_num
      → is_dir (s.inode f.inode_index).kind ≡ false
      → (s.inode f.inode_index).location 0 ≢ null
      → q ≤ (s.inode f.inode_index).size
      → (s.inode f.inode_index).size + n < 2 ^ 31
      → 0 < n
      → InDirect s (s.inode f.inode_index) q n
      → (s1 : Fs) × (s2 : Fs) × (user_rd_write opened ioctl unset (pos fd) content (pos n) u s
          ≡ done (some n, u) s1)
        × (user_rd_lseek opened ioctl unset (pos fd) (pos q) u s1 ≡ done (some 0, u) s2)
        × (user_rd_read opened ioctl unset (pos fd) addr (pos n) u s2
            ≡ done ((some n, bytes_at content 0 n), u) s2)
  user_rd_read-user_rd_write s t fdt fd f q n content addr o e hi file first within small some_byte
        d =
      let bs = bytes_at content 0 n in
      let count = length-bytes_at content 0 n in
      let i = f.inode_index in
      let (s1, s2, wrote, sought, read) =
        rd_read-rd_write env s t fdt fd f q bs o e hi file first within (omega (arith, count))
          (omega (arith, count)) (subst (λ k. InDirect s (s.inode i) q k) (sym count) d) in
      (
        s1,
        s2,
        user_rd_write_lem (pos fd) content n (some n) s s1
            (wrote ∙ ap (λ k. done (some k) s1) count),
        user_rd_lseek_lem (pos fd) (pos q) (some 0) s1 s2 sought,
        user_rd_read_lem (pos fd) (pos n) addr (some n, bs) s2 s2
            (subst (λ k. rd_read env (pos fd) (pos k) s2 ≡ done (some k, bs) s2) count read),
      )

-- A program's first call, if it is `rd_open`, returns `ERROR` and leaves the file system as it was,
-- where `ioctl` of the descriptor -1 fails: `rd_open` does not open the file of the ramdisk.
user_rd_open-first :
    (opened : ℤ) (ioctl : ℤ → Command → Copied → M (Ret × List ℕ)) (unset : Copied)
    (pathname : List ℕ) (flag : ℤ) (u : User) (s : Fs)
    → u.opened_randisk ≡ negsuc 0
    → ((c : Command) (x : Copied) (s : Fs) → ioctl (negsuc 0) c x s ≡ done (none, []) s)
    → user_rd_open opened ioctl unset pathname flag u s ≡ done (none, u) s
unfolding user_rd_open command when_path
user_rd_open-first opened ioctl unset pathname flag u s closed fails =
    elim (Option-cases (check_pathname pathname)) [
      | inl refused ↦ rw refused refl
      | inr (path, good) ↦ rw good (
          rw closed (
            rw
              (fails ioctl_open
                (record unset {
                  file_info = record (unset.file_info) { pathname = path; flag = open_flag flag };
                })
                s)
              refl))
    ]
