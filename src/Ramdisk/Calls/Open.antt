-- ===== src/Ramdisk/Calls/Open.antt =====
-- module/module_interface.h: `rd_open` and `rd_close`, with the text of `cur_path`.
use cs552operating_system.Base.{
  ℕ, zero, suc, ◌+◌, Bool, ◌&&◌, ◌||◌, Option, none, some, List, [], ◌∷◌, ◌++◌, ltb, ◌==◌,
  if◌then◌else◌, length, get_elem?, take, same_text, codes, ℤ, pos, negsuc, ◌==ℤ◌,
}
use mathlib.Core.List.{reverse}
use cs552operating_system.Ramdisk.Store.{
  is_dir, FileObject, Env, M, ◌>>=◌, ◌>>◌, Ret, pure, crash, get_inode,
}
use cs552operating_system.Ramdisk.Process.{current_fdt, load_fdt, store_fdt, is_open}
use cs552operating_system.Ramdisk.PathName.{strip_back, strip_dot, strip_root}
use cs552operating_system.Ramdisk.Calls.{find_file}

-- `for (temppathp -= 2; *temppathp != '/'; temppathp--); temppathp++`, on the text before
-- `temppathp` read backwards; in front of the text there is nothing to read.
unfoldable pub drop_to_slash : List ℕ → Option (List ℕ)
drop_to_slash [] = none
drop_to_slash (c ∷ cs) = let rest = drop_to_slash cs in if c == b'/' then some (c ∷ cs) else rest

unfoldable pub back_once : List ℕ → Option (List ℕ)
unfolding drop_to_slash
back_once [] = none
back_once (c ∷ cs) = drop_to_slash cs

unfoldable pub back_up : ℕ → List ℕ → Option (List ℕ)
unfolding back_once
back_up zero text = some text
back_up (suc back) text = elim (back_once text) [
  | none ↦ none
  | some shorter ↦ back_up back shorter
]

-- The path so far, with a `/` behind it.
unfoldable pub path_prefix : List ℕ → List ℕ
path_prefix cur_path = if same_text cur_path (codes "/") then cur_path else cur_path ++ (b'/' ∷ [])

abbrev pub first_byte : List ℕ → List ℕ
first_byte [] = []
first_byte (c ∷ cs) = c ∷ []

-- Whether the path starts at the root, and what is appended: only one of `../`, `./` and `/` is
-- looked for at the start.
unfoldable pub open_tail : List ℕ → Bool × List ℕ
unfolding strip_dot strip_root
open_tail pathname =
    let (rooted, tail) = strip_root pathname in
    if rooted then (Bool.true, tail) else (Bool.false, strip_dot pathname)

-- The new `cur_path` of `rd_open`; the buffers hold 1024 bytes, the end of the text included.
unfoldable pub open_path : List ℕ → List ℕ → Option (List ℕ)
unfolding back_up path_prefix strip_back open_tail
open_path cur_path pathname =
    let (back, rest) = strip_back pathname in
    let (rooted, tail) = open_tail rest in
    let start = path_prefix cur_path in
    elim (back_up back (reverse start)) [
      | none ↦ none
      | some text ↦
          (let new_path =
              if ltb 0 back
              then reverse text ++ rest
              else (if rooted then first_byte start else start) ++ tail in
            if ltb (length start) 1024 && ltb (length pathname) 1024 && ltb (length new_path) 1024
            then some new_path
            else none)
    ]

-- The access that `mode` (0 read, 1 both, 2 write) gives to `flag`.
unfoldable pub denies : ℤ → ℤ → Bool
denies mode flag =
    ((mode ==ℤ pos 0) && ((flag ==ℤ pos 1) || (flag ==ℤ pos 2)))
    || ((mode ==ℤ pos 2) && ((flag ==ℤ pos 0) || (flag ==ℤ pos 1)))

-- The file object of the new file, and its descriptor: a folder takes the first place and drops the
-- rest of the list.
unfoldable pub open_object : Bool → ℕ → List FileObject → List FileObject × ℕ
open_object folder inode_index files =
    let object : FileObject = record { inode_index = inode_index; position = pos 0 } in
    if folder then (object ∷ [], 0) else (files ++ (object ∷ []), length files)

unfoldable pub rd_open : Env → List ℕ → ℤ → M Ret
unfolding current_fdt find_file is_open denies open_object load_fdt store_fdt open_path
rd_open env pathname flag = do
  i ← current_fdt env
  (found, _) ← find_file i pathname
  elim found [
    | none ↦ pure none
    | some inode_index ↦ do
      object ← get_inode inode_index
      closed ← is_open inode_index i
      elim closed [
        | none ↦ pure none
        | some _ ↦ if denies object.mode flag then pure none else (do
          fdt ← load_fdt i
          let (files, fd) = open_object (is_dir object.kind) inode_index fdt.files
          elim (open_path fdt.cur_path pathname) [
            | none ↦ crash
            | some path ↦
                if env.vmalloc
                then (do
                  store_fdt i (record fdt { files = files; cur_path = path })
                  pure (some fd))
                else crash
          ])
      ]
  ]

-- `for (i = strlen(cur_path); i > 0; i--) if (cur_path[i] == '/') break;`
unfoldable pub last_slash : ℕ → List ℕ → ℕ
last_slash zero path = 0
last_slash (suc i) path =
    let rest = last_slash i path in
    elim (get_elem? path (suc i)) [ none ↦ rest | some c ↦ if c == b'/' then suc i else rest ]

-- `cur_path[i + 1] = '\0'`
unfoldable pub close_path : List ℕ → List ℕ
unfolding last_slash
close_path path = take (last_slash (length path) path + 1) path

-- The list without its element `fd`: `none` where there is no file object before `fd`, and a fault
-- where there is none at `fd`.
unfoldable pub unlink_object : ℕ → List FileObject → M (Option (List FileObject))
unlink_object fd [] = if fd == 0 then crash else pure none
unlink_object zero (f ∷ fs) = pure (some fs)
unlink_object (suc fd) (f ∷ fs) = do
  rest ← unlink_object fd fs
  elim rest [ none ↦ pure none | some fs' ↦ pure (some (f ∷ fs')) ]

-- A descriptor below 0 is written through the unset `fomer`.
unfoldable pub rd_close : Env → ℤ → M Ret
unfolding current_fdt load_fdt store_fdt close_path unlink_object
rd_close env (negsuc n) = do current_fdt env; crash
rd_close env (pos zero) = do
  i ← current_fdt env
  fdt ← load_fdt i
  elim fdt.files [
    | [] ↦ crash
    | head ∷ fs ↦ if head.inode_index == 0 then pure none else (do
      folder ← get_inode head.inode_index
      store_fdt i (record fdt {
        files = record { inode_index = folder.parent_index; position = pos 0 } ∷ fs;
        cur_path = close_path fdt.cur_path;
      })
      pure (some 0))
  ]
rd_close env (pos (suc fd)) = do
  i ← current_fdt env
  fdt ← load_fdt i
  files ← unlink_object (suc fd) fdt.files
  elim files [
    | none ↦ pure none
    | some fs ↦ do store_fdt i (record fdt { files = fs }); pure (some 0)
  ]
