-- ===== src/Ramdisk/Reach.antt =====
-- module/initial_module.c: the states that sequences of `ramdisk_ioctl` lead to, with the commands of
-- any processes.

pub mod Counted
pub mod Marked
use mathlib.Core.Path.{subst}
use cs552operating_system.Base.{ℕ, ◌≡◌, List, [], ltb, length, ℤ, inl, inr, Bool-cases}
use cs552operating_system.Ramdisk.Store.{Fs, Env, Ret, M, Run, done, crash, Kind}
use cs552operating_system.Ramdisk.Inodes.{allocate_inode, release_inode}
use cs552operating_system.Ramdisk.Calls.{rd_pwd, rd_creat, rd_mkdir, rd_unlink, rd_chmod}
use cs552operating_system.Ramdisk.Ioctl.{
  Command, ioctl_pwd, ioctl_creat, ioctl_mkdir, ioctl_open, ioctl_close, ioctl_read, ioctl_write,
  ioctl_lseek, ioctl_unlink, ioctl_chmod, other, Copied, with_copy, plain, give_path, ramdisk_ioctl,
}
use cs552operating_system.Ramdisk.Keeps.{
  Ends, ended, broke, Post, Ends-Post, both-IsStable, Ends-bind, Ends-branch, Keeps, Keeps-pure,
  Keeps-crash, Keeps-if, Keeps-bind, IsStable,
}
use cs552operating_system.Ramdisk.Keeps.Calls.{
  rd_pwd-Keeps, rd_chmod-Keeps, rd_read-Keeps, rd_write-Keeps, rd_lseek-Keeps, rd_open-Keeps,
  rd_close-Keeps, create-Keeps,
}
use cs552operating_system.Ramdisk.Keeps.Unlink.{Finds, rd_unlink-Ends}

-- Which commands are given in which states.
abbrev pub Rule : Type 1
Rule = Env → Command → Copied → Fs → Type 0

pub data Reach (allowed : Rule) (s : Fs) : Fs → Type 0 where
  here : Reach allowed s s
  next :
      {t u : Fs} (env : Env) (command : Command) (c : Copied) (r : Ret × List ℕ)
      → Reach allowed s t
      → allowed env command c t
      → ramdisk_ioctl env command c t ≡ done r u
      → Reach allowed s u

-- The inode that `unlink` finds satisfies `Q`.
abbrev pub UnlinksOnly : (ℕ → Fs → Type 0) → Rule
UnlinksOnly Q env Command.ioctl_unlink c s =
    (j : ℕ) (s' : Fs) → Finds env c.pathname s j s' → Q j s'
UnlinksOnly Q env _ c s = Unit

-- Any command in any state.
abbrev pub Any : Rule
Any env command c s = Unit

any_unlink :
    (env : Env) (command : Command) (c : Copied) (s : Fs)
    → UnlinksOnly (λ j u. Unit) env command c s
any_unlink env ioctl_unlink c s = λ j u f. tt
any_unlink env _ c s = tt

pub Reach-anything : {s t : Fs} → Reach Any s t → Reach (UnlinksOnly (λ j u. Unit)) s t
Reach-anything here = here
Reach-anything (next env command c r before a e) =
    next env command c r (Reach-anything before) (any_unlink env command c _) e

module _ {P : Fs → Type 0} (stable : IsStable P)
    (allocate : (parent : ℕ) (mode : ℤ) (kind : Kind) → Keeps P (allocate_inode parent mode kind))
    {Q : ℕ → Fs → Type 0} (stable_at : (j : ℕ) → IsStable (Q j))
    (release : (j : ℕ) (s : Fs) → P s → Q j s → Ends P (release_inode j s)) where
  with_copy-Keeps : {A : Type 0} (env : Env) (m : M A) → Keeps P m → Keeps P (with_copy env m)
  with_copy-Keeps env m h = Keeps-if env.vmalloc h Keeps-crash

  plain-Keeps : (m : M Ret) → Keeps P m → Keeps P (plain m)
  plain-Keeps m h = Keeps-bind h λ ret. Keeps-pure _

  give_path-Keeps : (to_user : ℕ) (path : List ℕ) → Keeps P (give_path to_user path)
  unfolding give_path
  give_path-Keeps to_user path = Keeps-if (ltb (length path) 100) (Keeps-pure _) Keeps-crash

  unlink-Ends :
      (env : Env) (c : Copied) (s : Fs)
      → P s
      → UnlinksOnly Q env ioctl_unlink c s
      → Ends P (with_copy env (plain (rd_unlink env c.pathname)) s)
  unlink-Ends env c s h only =
      let unlinked =
        rd_unlink-Ends stable (λ j. both-IsStable stable (stable_at j)) (λ j s' q. q.0)
          (λ j s' q. release j s' q.0 q.1) env c.pathname s h
          (λ j s' found p. (p, only j s' found)) in
      Ends-branch env.vmalloc (plain (rd_unlink env c.pathname)) crash s
        (Ends-bind (rd_unlink env c.pathname s) unlinked λ ret s' _ h'. ended (ret, []) s' h') broke

  ioctl-Ends :
      (env : Env) (command : Command) (c : Copied) (s : Fs)
      → P s
      → UnlinksOnly Q env command c s
      → Ends P (ramdisk_ioctl env command c s)
  unfolding ramdisk_ioctl rd_creat rd_mkdir
  ioctl-Ends env ioctl_pwd c s h only =
      (Keeps-bind (rd_pwd-Keeps stable env) (give_path-Keeps c.to_user)).at s h
  ioctl-Ends env ioctl_creat c s h only =
      (with_copy-Keeps env _ (plain-Keeps _ (create-Keeps stable allocate env _ _ _))).at s h
  ioctl-Ends env ioctl_mkdir c s h only =
      (with_copy-Keeps env _ (plain-Keeps _ (create-Keeps stable allocate env _ _ _))).at s h
  ioctl-Ends env ioctl_open c s h only =
      (with_copy-Keeps env _ (plain-Keeps _ (rd_open-Keeps stable env _ _))).at s h
  ioctl-Ends env ioctl_close c s h only =
      (with_copy-Keeps env _ (plain-Keeps _ (rd_close-Keeps stable env _))).at s h
  ioctl-Ends env ioctl_read c s h only =
      (with_copy-Keeps env _ (rd_read-Keeps stable env _ _)).at s h
  ioctl-Ends env ioctl_write c s h only =
      (with_copy-Keeps env _ (plain-Keeps _ (rd_write-Keeps stable env _ _))).at s h
  ioctl-Ends env ioctl_lseek c s h only =
      (with_copy-Keeps env _ (plain-Keeps _ (rd_lseek-Keeps stable env _ _))).at s h
  ioctl-Ends env ioctl_unlink c s h only = unlink-Ends env c s h only
  ioctl-Ends env ioctl_chmod c s h only =
      (with_copy-Keeps env _ (plain-Keeps _ (rd_chmod-Keeps stable env _ _))).at s h
  ioctl-Ends env other c s h only = ended _ s h

  -- Induction over a run of commands.
  pub Reach-keeps : {s t : Fs} → P s → Reach (UnlinksOnly Q) s t → P t
  Reach-keeps h here = h
  Reach-keeps h (next env command c r before allowed e) =
      subst (Post P) e (Ends-Post (ioctl-Ends env command c _ (Reach-keeps h before) allowed))
