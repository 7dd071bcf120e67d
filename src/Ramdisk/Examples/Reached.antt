-- ===== src/Ramdisk/Examples/Reached.antt =====
-- The theorems on sequences of commands at a concrete run: a new ramdisk on which a process makes a
-- folder and gives it a mode.
use cs552operating_system.Base.{◌+◌, ◌≡◌, ◌⊎◌, refl, some, [], ◌∷◌, pos, codes, Bool}
use cs552operating_system.Base.ProcFiles.Example.{created, filled, removed, freed, proc_files}
use cs552operating_system.Ramdisk.Load.{init_ramdisk, unload_ramdisk}
use cs552operating_system.Ramdisk.Store.{
  Fs, Ptr, Env, Run, done, fault, block_size, get_inode, put_inode, store8, load8,
}
use cs552operating_system.Ramdisk.Init.{initial, space_start, init_datastructure}
use cs552operating_system.Ramdisk.Blocks.{take_block}
use cs552operating_system.Ramdisk.Ioctl.{ioctl_mkdir, ioctl_chmod, Copied, ramdisk_ioctl}
use cs552operating_system.Ramdisk.Calls.{rd_mkdir, resolve, add_entry, rd_chmod}
use cs552operating_system.Ramdisk.Process.{current_fdt, get_fdt, load_fdt, free_fdt}
use cs552operating_system.Ramdisk.PathName.{read_pathname, descend}
use cs552operating_system.Ramdisk.Directory
use cs552operating_system.Ramdisk.Directory.{is_exist, child_count, search_block}
use cs552operating_system.Ramdisk.Address.{switch_address}
use cs552operating_system.Ramdisk.File.{write_bytes, grow, grown}
use cs552operating_system.Ramdisk.Reach.{Any, Reach, here, next, UnlinksOnly}
use cs552operating_system.Ramdisk.Reach.Counted.{InUse}
use cs552operating_system.Ramdisk.Reach.Marked.{take_block-Reach}
use cs552operating_system.Ramdisk.Examples.{start, ram}

abbrev process : Env
process = record { pid = 3; ppid = 1; vmalloc = Bool.true; fresh = λ _. 0 }

abbrev arguments : Copied
arguments = record {
  file_info = record {
    pathname = codes "/a";
    fid = pos 0;
    position = pos 0;
    input_content = λ i. 0;
    input_size = pos 0;
    flag = pos 0;
    mode = pos 2;
  };
  pathname = codes "/a";
  fd = pos 0;
  to_user = 0;
}

abbrev state_after : {A : Type 0} → Run A → Fs → Fs
state_after (done a s) old = s
state_after fault old = old

abbrev made : Fs
made = state_after (ramdisk_ioctl process ioctl_mkdir arguments ram) ram

mkdir_runs : ramdisk_ioctl process ioctl_mkdir arguments ram ≡ done (some 0, []) made
unfolding ramdisk_ioctl rd_mkdir initial current_fdt get_fdt resolve load_fdt read_pathname descend
    is_exist get_inode child_count add_entry switch_address write_bytes store8 grow put_inode
mkdir_runs = refl

abbrev changed : Fs
changed = state_after (ramdisk_ioctl process ioctl_chmod arguments made) made

chmod_runs : ramdisk_ioctl process ioctl_chmod arguments made ≡ done (some 0, []) changed
unfolding ramdisk_ioctl rd_mkdir rd_chmod initial current_fdt get_fdt resolve load_fdt read_pathname
    descend is_exist get_inode child_count add_entry switch_address write_bytes store8 grow
    put_inode grown Directory.search search_block load8
chmod_runs = refl

run : Reach (UnlinksOnly InUse) ram changed
run =
    next process ioctl_chmod arguments (some 0, [])
      (next process ioctl_mkdir arguments (some 0, []) here tt mkdir_runs) tt chmod_runs

any_run : Reach Any ram changed
any_run =
    next process ioctl_chmod arguments (some 0, [])
      (next process ioctl_mkdir arguments (some 0, []) here tt mkdir_runs) tt chmod_runs

take_block-Reach_example :
    (p : Ptr) × (t' : Fs) × (take_block changed ≡ done p t')
    × ((p ≡ space_start 4096) ⊎ (p ≡ space_start 4096 + block_size))
take_block-Reach_example = take_block-Reach 4096 start changed any_run

-- What the module asks of the kernel when it is loaded and removed, the last call first.
loaded :
    init_ramdisk proc_files 77 4096 [] start
    ≡ done (some 0, filled 1 77 ∷ created (codes "Ramdisk") 292 ∷ []) (initial 4096 start)
unfolding init_ramdisk init_datastructure
loaded = refl

unloaded :
    unload_ramdisk proc_files 4096 [] changed
    ≡ done (removed (codes "Ramdisk") ∷ freed 4096 ∷ []) (record changed { fdts = [] })
unfolding unload_ramdisk free_fdt
unloaded = refl
