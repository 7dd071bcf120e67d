-- ===== src/Base/ProcFiles/Example.antt =====
-- A kernel that grants every call and keeps a log of them, the newest first.
use cs552operating_system.Base.{ℕ, some, List, ◌∷◌, pos}
use cs552operating_system.Base.ProcFiles.{ProcFiles, Interrupts}

pub data Entry : Type 0 where
  created : (name : List ℕ) (mode : ℕ) → Entry
  filled : (entry ioctl : ℕ) → Entry
  removed : (name : List ℕ) → Entry
  freed : (address : ℕ) → Entry
  requested : (irq handler flags : ℕ) (name : List ℕ) (dev : ℕ) → Entry
  released : (irq dev : ℕ) → Entry

abbrev pub proc_files : ProcFiles (List Entry)
proc_files = record {
  create_proc_entry = λ name mode k. (some 1, created name mode ∷ k);
  set_proc_fops = λ entry ioctl k. filled entry ioctl ∷ k;
  remove_proc_entry = λ name k. removed name ∷ k;
  vfree = λ address k. freed address ∷ k;
}

abbrev pub interrupts : Interrupts (List Entry)
interrupts = record {
  irqf_shared = 128;
  request_irq = λ irq handler flags name dev k. (pos 0, requested irq handler flags name dev ∷ k);
  free_irq = λ irq dev k. released irq dev ∷ k;
}
