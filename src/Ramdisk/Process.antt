-- ===== src/Ramdisk/Process.antt =====
-- module/support_function.h: `create_FDT`, `get_FDT`, `isOpen` and `free_FDT`, the list of file
-- descriptor tables, one for each process.
pub mod Tables
pub mod Theorems
use cs552operating_system.Base.{
  ℕ, zero, suc, ◌+◌, Option, none, some, List, [], ◌∷◌, ◌++◌, ◌==◌, if◌then◌else◌, length,
  get_elem?, set, pos, codes,
}
use cs552operating_system.Ramdisk.Store.{
  FileObject, Fdt, Fs, Env, Run, done, fault, M, ◌>>=◌, Ret, pure, crash,
}

abbrev pub root_object : FileObject
root_object = record { inode_index = 0; position = pos 0 }

-- `create_FDT`: a table at the root folder.
unfoldable pub create_fdt : Env → Option Fdt
create_fdt env =
    if env.vmalloc
    then some (record { pid = env.pid; files = root_object ∷ []; cur_path = codes "/" })
    else none

-- The loop of `get_FDT`: the place of the table of `cpid`, or none and the last table of `ppid`.
unfoldable pub find_fdt : ℕ → ℕ → List Fdt → ℕ → Option Fdt → Option ℕ × Option Fdt
find_fdt cpid ppid [] i parent = (none, parent)
find_fdt cpid ppid (f ∷ fs) i parent =
    let rest = find_fdt cpid ppid fs (i + 1) (if f.pid == ppid then some f else parent) in
    if f.pid == cpid then (some i, parent) else rest

-- The copy of a parent's table. A table with no file object would be read through `NULL`.
unfoldable pub inherit : Env → Fdt → Option Fdt
inherit env parent = elim parent.files [
  | [] ↦ none
  | f ∷ fs ↦
      if env.vmalloc
      then some (record { pid = env.pid; files = f ∷ fs; cur_path = parent.cur_path })
      else none
]

-- `FDT_list_head` or `lFDT_ptr->next` becomes a new table.
unfoldable pub add_fdt : Fdt → M (Option ℕ)
add_fdt f s = done (some (length s.fdts)) (record s { fdts = s.fdts ++ (f ∷ []) })

-- What `get_FDT` returns for what the loop has found.
unfoldable pub serve_fdt : Env → Option ℕ → Option Fdt → M (Option ℕ)
unfolding create_fdt inherit add_fdt
serve_fdt env (some i) parent = pure (some i)
serve_fdt env none none = elim (create_fdt env) [ none ↦ pure none | some f ↦ add_fdt f ]
serve_fdt env none (some p) = elim (inherit env p) [ none ↦ crash | some f ↦ add_fdt f ]

-- `get_FDT`: the place of the current process's table in the list, or none for `NULL`.
unfoldable pub get_fdt : Env → M (Option ℕ)
unfolding find_fdt serve_fdt
get_fdt env s =
    let (current, parent) = find_fdt env.pid env.ppid s.fdts 0 none in
    serve_fdt env current parent s

-- `FDT_t = get_FDT()` and its first use, which faults at `NULL`.
unfoldable pub current_fdt : Env → M ℕ
current_fdt env = do r ← get_fdt env; elim r [ none ↦ crash | some i ↦ pure i ]

unfoldable pub load_fdt : ℕ → M Fdt
load_fdt i s = elim (get_elem? s.fdts i) [ none ↦ fault | some f ↦ done f s ]

unfoldable pub store_fdt : ℕ → Fdt → M (Unit {0})
store_fdt i f s = done tt (record s { fdts = set s.fdts i f })

unfoldable pub holds_inode : ℕ → List FileObject → Ret
holds_inode inode_index [] = some 0
holds_inode inode_index (f ∷ fs) =
    let rest = holds_inode inode_index fs in if f.inode_index == inode_index then none else rest

-- `isOpen`: `ERROR` for an open file. The list that it walks is that of `FDT_list_head`, whatever
-- table it is given.
unfoldable pub is_open : ℕ → ℕ → M Ret
unfolding holds_inode
is_open inode_index fdt s = elim (s.fdts) [
  | [] ↦ fault
  | f ∷ fs ↦ done (holds_inode inode_index f.files) s
]

unfoldable pub free_fdt : M Ret
free_fdt s = done (some 0) (record s { fdts = [] })
