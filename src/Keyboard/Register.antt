-- ===== src/Keyboard/Register.antt =====
-- KBD_module.c and KBD_module_noIR.c of Primer Assignment/MingxinChen: what the modules register with the
-- kernel when they are loaded, and take back when they are removed.
use cs552operating_system.Base.{ℕ, Option, none, some, List, ℤ, pos, codes}
use cs552operating_system.Base.ProcFiles.{ProcFiles, Interrupts}

abbrev proc_name : List ℕ
proc_name = codes "ioctl_test"

-- Of KBD_module.c, behind `create_proc_entry`; `handler` is the address of `ir_getchar`, which also
-- stands for the device.
unfoldable pub install_handler :
    {K : Type 0} → Interrupts K → ProcFiles K → (ioctl handler : ℕ) → Option ℕ × K → ℤ × K
install_handler interrupts files ioctl handler (none, k) = (pos 1, k)
install_handler interrupts files ioctl handler (some entry, k) =
    interrupts.request_irq 1 handler interrupts.irqf_shared (codes "KBD_IRQ") handler
      (interrupts.free_irq 1 0 (files.set_proc_fops entry ioctl k))

unfoldable pub initialization_routine :
    {K : Type 0} → Interrupts K → ProcFiles K → (ioctl handler : ℕ) → K → ℤ × K
unfolding install_handler
initialization_routine interrupts files ioctl handler k =
    install_handler interrupts files ioctl handler (files.create_proc_entry proc_name 0x124 k)

unfoldable pub cleanup_routine : {K : Type 0} → Interrupts K → ProcFiles K → ℕ → K → K
cleanup_routine interrupts files handler k =
    interrupts.free_irq 1 handler (files.remove_proc_entry proc_name k)

-- Of KBD_module_noIR.c.
unfoldable pub set_operations : {K : Type 0} → ProcFiles K → ℕ → Option ℕ × K → ℤ × K
set_operations files ioctl (none, k) = (pos 1, k)
set_operations files ioctl (some entry, k) = (pos 0, files.set_proc_fops entry ioctl k)

unfoldable pub polled_initialization_routine : {K : Type 0} → ProcFiles K → ℕ → K → ℤ × K
unfolding set_operations
polled_initialization_routine files ioctl k =
    set_operations files ioctl (files.create_proc_entry proc_name 0x124 k)

unfoldable pub polled_cleanup_routine : {K : Type 0} → ProcFiles K → K → K
polled_cleanup_routine files k = files.remove_proc_entry proc_name k
