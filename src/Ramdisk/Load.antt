-- ===== src/Ramdisk/Load.antt =====
-- module/initial_module.c: `init_ramdisk` and `unload_ramdisk`, what the module does when it is loaded
-- and removed.
use cs552operating_system.Base.{ℕ, Option, none, some, List, codes}
use cs552operating_system.Base.ProcFiles.{ProcFiles}
use cs552operating_system.Ramdisk.Store.{Ptr, M, ◌>>=◌, Ret, pure}
use cs552operating_system.Ramdisk.Process.{free_fdt}
use cs552operating_system.Ramdisk.Init.{init_datastructure}

abbrev proc_name : List ℕ
proc_name = codes "Ramdisk"

-- Behind `create_proc_entry`, with what `vmalloc` returns for the ramdisk.
unfoldable pub fill_entry :
    {K : Type 0} → ProcFiles K → (ioctl : ℕ) → Ptr → Option ℕ × K → M (Ret × K)
fill_entry files ioctl ramdisk (none, k) = pure (none, k)
fill_entry files ioctl ramdisk (some entry, k) = do
  ret ← init_datastructure ramdisk
  pure (ret, files.set_proc_fops entry ioctl k)

-- With what the kernel keeps.
unfoldable pub init_ramdisk : {K : Type 0} → ProcFiles K → (ioctl : ℕ) → Ptr → K → M (Ret × K)
unfolding fill_entry
init_ramdisk files ioctl ramdisk k =
    fill_entry files ioctl ramdisk (files.create_proc_entry proc_name 0x124 k)

-- With the address of the ramdisk.
unfoldable pub unload_ramdisk : {K : Type 0} → ProcFiles K → Ptr → K → M K
unload_ramdisk files ramdisk k = do
  ret ← free_fdt
  pure (files.remove_proc_entry proc_name (files.vfree ramdisk k))
