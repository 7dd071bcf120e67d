-- ===== src/Ramdisk/Calls.antt =====
-- module/module_interface.h: the calls that make, remove and change files.
use cs552operating_system.Base.{
  ℕ, suc, ◌+◌, ◌/◌, ◌%◌, ◌-◌, Bool, ◌&&◌, ◌||◌, Option, none, some, List, [], ◌∷◌, ◌++◌, ltb, ◌==◌,
  if◌then◌else◌, length, same_text, codes, ℤ, pos, negsuc, to_int,
}
use cs552operating_system.Ramdisk.Store.{
  Kind, dir, reg, is_dir, Env, M, ◌>>=◌, ◌>>◌, Ret, pure, crash, get, get_inode, put_inode,
}
use cs552operating_system.Ramdisk.Process.{current_fdt, load_fdt, is_open}
use cs552operating_system.Ramdisk.PathName.{Parsed, read_pathname, descend}
use cs552operating_system.Ramdisk.Directory.{is_exist, free_inode}
use cs552operating_system.Ramdisk.Inodes.{allocate_inode}
use cs552operating_system.Ramdisk.File.{write_file}
pub mod Open
pub mod Walk
pub mod Refusals
pub mod CurPath
pub mod Folder
pub mod Made
pub mod Creates
pub mod Data

unfoldable pub rd_pwd : Env → M (List ℕ)
unfolding current_fdt load_fdt
rd_pwd env = do i ← current_fdt env; fdt ← load_fdt i; pure fdt.cur_path

-- `read_pathname` and the walk over the parents, as the calls begin. An `ERROR` of `read_pathname`
-- is not tested, and the calls go on to read the child that it left unset.
unfoldable pub resolve : ℕ → List ℕ → M (Ret × List ℕ × ℤ)
resolve fdt_ptr pathname = do
  fdt ← load_fdt fdt_ptr
  parsed ← read_pathname pathname fdt
  elim parsed [
    | none ↦ crash
    | some p ↦ do
      (folder, index) ← descend 0 p.parents p.des_index (negsuc 0)
      pure (folder, p.child, index)
  ]

-- The bytes of memory from `i` on that `vmalloc` returned, `n` of them.
unfoldable pub garbage : Env → ℕ → ℕ → List ℕ
garbage env i ℕ.zero = []
garbage env i (suc n) = env.fresh i ∷ garbage env (i + 1) n

-- The 16 bytes of a new directory entry: `strcpy` fills the name up to its end.
unfoldable pub entry_bytes : Env → List ℕ → ℕ → List ℕ
unfolding garbage
entry_bytes env name index =
    name
    ++ (0 ∷ (garbage env (length name + 1) (13 - length name) ++ (index % 256 ∷ index / 256 ∷ [])))

-- The entry of a new file in its folder, then its inode.
unfoldable pub add_entry : Env → ℕ → List ℕ → ℤ → Kind → M Ret
unfolding entry_bytes write_file allocate_inode
add_entry env folder child mode type = do
  s ← get
  parent ← get_inode folder
  if env.vmalloc
      then (do
        (written, _) ←
            write_file folder (to_int parent.size)
              (entry_bytes env child s.superblock.first_free_inode) b'c'
        elim written [
          | none ↦ pure none
          | some _ ↦ allocate_inode folder mode (if is_dir type then dir else reg)
        ])
      else crash

unfoldable pub create : Env → List ℕ → ℤ → Kind → M Ret
create env pathname mode type = do
  s ← get
  if ltb s.superblock.free_block_number 1 || ltb s.superblock.free_inode_number 1
      then pure none
      else (do
        fdt ← current_fdt env
        (folder, child, index) ← resolve fdt pathname
        elim folder [
          | none ↦ pure none
          | some f ↦ if ltb 13 (length child) then pure none else (do
            (old, _) ← is_exist child f index
            elim old [ some _ ↦ pure none | none ↦ add_entry env f child mode type ])
        ])

unfoldable pub rd_creat : Env → List ℕ → ℤ → M Ret
unfolding create
rd_creat env pathname mode = create env pathname mode reg

unfoldable pub rd_mkdir : Env → List ℕ → M Ret
unfolding create
rd_mkdir env pathname = create env pathname (pos 1) dir

-- The file that a path names, and the name in its folder.
unfoldable pub find_file : ℕ → List ℕ → M (Ret × List ℕ)
find_file fdt pathname = do
  (folder, child, index) ← resolve fdt pathname
  elim folder [
    | none ↦ pure (none, child)
    | some f ↦
        if ltb 13 (length child)
        then pure (none, child)
        else (do (found, _) ← is_exist child f index; pure (found, child))
  ]

unfoldable pub rd_unlink : Env → List ℕ → M Ret
rd_unlink env pathname = if same_text pathname (codes "/") then pure none else (do
  fdt ← current_fdt env
  (found, child) ← find_file fdt pathname
  elim found [
    | none ↦ pure none
    | some i ↦ do
      object ← get_inode i
      if is_dir object.kind && ltb 0 object.size then pure none else (do
        closed ← is_open i fdt
        elim closed [ none ↦ pure none | some _ ↦ do free_inode child i; pure (some 0) ])
  ])

unfoldable pub rd_chmod : Env → List ℕ → ℤ → M Ret
rd_chmod env pathname mode = do
  fdt ← current_fdt env
  (folder, child, index) ← resolve fdt pathname
  elim folder [
    | none ↦ pure none
    | some f ↦ do
      (found, _) ← is_exist child f index
      elim found [
        | none ↦ pure none
        | some i ↦ do
          object ← get_inode i
          put_inode i (record object { mode = mode })
          pure (some 0)
      ]
  ]
