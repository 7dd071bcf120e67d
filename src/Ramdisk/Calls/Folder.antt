-- ===== src/Ramdisk/Calls/Folder.antt =====
-- module/module_interface.h: `rd_open` of a folder, and the `rd_close` of it.
use cs552operating_system.Base.{ℕ, List, [], ◌∷◌, set, pos}
use cs552operating_system.Ramdisk.Store.{Fs, Fdt}

-- The table of a process that stands in a folder, with a current path.
abbrev pub standing : Fdt → ℕ → List ℕ → Fdt
standing fdt folder path = record fdt {
  files = record { inode_index = folder; position = pos 0 } ∷ [];
  cur_path = path;
}

abbrev pub stands : Fs → ℕ → Fdt → ℕ → List ℕ → Fs
stands s t fdt folder path = record s { fdts = set s.fdts t (standing fdt folder path) }
