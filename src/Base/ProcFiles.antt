-- ===== src/Base/ProcFiles.antt =====
-- What the modules of this repository call of the kernel when they are loaded and removed:
-- `create_proc_entry` and `remove_proc_entry` of linux/proc_fs.h, `vfree` of linux/vmalloc.h,
-- `request_irq` and `free_irq` of linux/interrupt.h. `K` is what the kernel keeps; an address is a
-- number.
pub mod Example
use Prim.Native.Nat.{ℕ}
use mathlib.Core.Option.{Option}
use mathlib.Core.List.{List}
use cs552operating_system.Base.Int.{ℤ}

pub record ProcFiles (K : Type 0) : Type 0 where
  -- The new entry, or none for `NULL`.
  pub create_proc_entry : (name : List ℕ) (mode : ℕ) → K → Option ℕ × K
  -- `entry->proc_fops = &operations`, with the handler of `ioctl` in them.
  pub set_proc_fops : (entry ioctl : ℕ) → K → K
  pub remove_proc_entry : (name : List ℕ) → K → K
  pub vfree : (address : ℕ) → K → K

pub record Interrupts (K : Type 0) : Type 0 where
  -- `IRQF_SHARED`.
  pub irqf_shared : ℕ
  -- 0, or the number of an error.
  pub request_irq : (irq handler flags : ℕ) (name : List ℕ) (dev : ℕ) → K → ℤ × K
  pub free_irq : (irq dev : ℕ) → K → K
