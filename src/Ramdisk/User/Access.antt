-- ===== src/Ramdisk/User/Access.antt =====
-- The access that a program asks for, and the access that the file system denies it.
use cs552operating_system.Base.{
  ℕ, ◌≡◌, ◌⊎◌, refl, inl, inr, Bool, not, ◌&&◌, ◌||◌, bit_and, ◌==◌, ℤ, pos, ◌==ℤ◌,
}
use cs552operating_system.Ramdisk.Calls.Open.{denies}
use cs552operating_system.Ramdisk.User.{mode_to_permission, open_flag}

-- What an open file is used for, and what a mode lets its owner do.
pub data Access : Type 0 where
  reads : Access
  both : Access
  writes : Access

-- The modes 0444, 0644 and 0244.
abbrev pub mode_of : Access → ℕ
mode_of reads = 292
mode_of both = 420
mode_of writes = 164

-- `O_RDONLY`, `O_RDWR` and `O_WRONLY`.
abbrev pub flag_of : Access → ℤ
flag_of reads = pos 0
flag_of both = pos 2
flag_of writes = pos 1

-- The codes of the module.
abbrev pub code_of : Access → ℤ
code_of reads = pos 0
code_of both = pos 1
code_of writes = pos 2

-- Whether a mode lets its owner open the file in a way.
abbrev pub grants : (mode flag : Access) → Bool
grants both flag = Bool.true
grants reads reads = Bool.true
grants writes writes = Bool.true
grants _ _ = Bool.false

pub mode_to_permission-code_of : (a : Access) → mode_to_permission (mode_of a) ≡ code_of a
unfolding mode_to_permission
mode_to_permission-code_of reads = refl
mode_to_permission-code_of both = refl
mode_to_permission-code_of writes = refl

pub open_flag-code_of : (a : Access) → open_flag (flag_of a) ≡ code_of a
unfolding open_flag
open_flag-code_of reads = refl
open_flag-code_of both = refl
open_flag-code_of writes = refl

pub denies-grants :
    (mode flag : Access) → denies (code_of mode) (code_of flag) ≡ not (grants mode flag)
unfolding denies
denies-grants reads reads = refl
denies-grants reads both = refl
denies-grants reads writes = refl
denies-grants both reads = refl
denies-grants both both = refl
denies-grants both writes = refl
denies-grants writes reads = refl
denies-grants writes both = refl
denies-grants writes writes = refl

-- The bit that lets the owner read, or write.
abbrev pub owner_reads : ℕ → Bool
owner_reads mode = not (bit_and mode 256 == 0)

abbrev pub owner_writes : ℕ → Bool
owner_writes mode = not (bit_and mode 128 == 0)

-- Whether the owner may open a file of a mode with `O_RDONLY` 0, `O_WRONLY` 1 or `O_RDWR` 2.
unfoldable pub permits : ℕ → ℤ → Bool
permits mode flag =
    ((flag ==ℤ pos 1) || owner_reads mode) && ((flag ==ℤ pos 0) || owner_writes mode)

abbrev pub IsFlag : ℤ → Type 0
IsFlag flag = (flag ≡ pos 0) ⊎ ((flag ≡ pos 1) ⊎ (flag ≡ pos 2))

abbrev pub IsMode : ℕ → Type 0
IsMode mode = (mode ≡ 292) ⊎ ((mode ≡ 420) ⊎ (mode ≡ 164))

-- Of a file of mode 0444, 0644 or 0244, `rd_open` with one of the three access flags is denied exactly
-- if the mode withholds from the owner an access that the flag asks for.
pub denies-permits :
    (mode : ℕ) (flag : ℤ)
    → IsMode mode
    → IsFlag flag
    → denies (mode_to_permission mode) (open_flag flag) ≡ not (permits mode flag)
unfolding denies permits mode_to_permission open_flag
denies-permits mode flag (inl m) (inl f) = rw (m, f) refl
denies-permits mode flag (inl m) (inr (inl f)) = rw (m, f) refl
denies-permits mode flag (inl m) (inr (inr f)) = rw (m, f) refl
denies-permits mode flag (inr (inl m)) (inl f) = rw (m, f) refl
denies-permits mode flag (inr (inl m)) (inr (inl f)) = rw (m, f) refl
denies-permits mode flag (inr (inl m)) (inr (inr f)) = rw (m, f) refl
denies-permits mode flag (inr (inr m)) (inl f) = rw (m, f) refl
denies-permits mode flag (inr (inr m)) (inr (inl f)) = rw (m, f) refl
denies-permits mode flag (inr (inr m)) (inr (inr f)) = rw (m, f) refl
