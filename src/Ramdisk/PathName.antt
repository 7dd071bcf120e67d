-- ===== src/Ramdisk/PathName.antt =====
-- module/support_function.h: `layer_check` and `read_pathname`, and the walk over the parents that
-- each call of module/module_interface.h makes with the result.
pub mod Theorems
use cs552operating_system.Base.{
  ℕ, zero, suc, ◌+◌, Bool, ◌&&◌, Option, none, some, List, [], ◌∷◌, ◌++◌, ltb, leb, ◌==◌,
  if◌then◌else◌, length, ℤ,
}
use cs552operating_system.Ramdisk.Store.{
  FileObject, Fdt, M, ◌>>=◌, ◌>>◌, Ret, pure, crash, get_inode,
}
use cs552operating_system.Ramdisk.Directory.{is_exist}

-- The number of `/` in a path.
unfoldable pub layer_check : List ℕ → ℕ
layer_check [] = 0
layer_check (c ∷ cs) = layer_check cs + (if c == b'/' then 1 else 0)

-- The leading `../`, counted and passed over.
unfoldable pub strip_back : List ℕ → ℕ × List ℕ
strip_back (a ∷ b ∷ c ∷ pn) =
    let (back, rest) = strip_back pn in
    if a == b'.' && b == b'.' && c == b'/' then (suc back, rest) else (zero, a ∷ b ∷ c ∷ pn)
strip_back pn = (zero, pn)

-- One leading `./`.
unfoldable pub strip_dot : List ℕ → List ℕ
strip_dot (a ∷ b ∷ pn) = if a == b'.' && b == b'/' then pn else a ∷ b ∷ pn
strip_dot pn = pn

-- One leading `/`, and whether there was one.
unfoldable pub strip_root : List ℕ → Bool × List ℕ
strip_root [] = (Bool.false, [])
strip_root (a ∷ pn) = if a == b'/' then (Bool.true, pn) else (Bool.false, a ∷ pn)

-- The partition loop; `part` holds the `j` bytes since the last `/`.
unfoldable pub partition : List ℕ → List ℕ → List (List ℕ) × List ℕ
partition [] part = ([], part)
partition (c ∷ cs) part =
    let (parents, child) = partition cs (if c == b'/' then [] else part ++ (c ∷ [])) in
    if c == b'/' then (part ∷ parents, child) else (parents, child)

-- `back` times from an inode to its parent.
unfoldable pub climb : ℕ → ℕ → M ℕ
climb zero des_index = pure des_index
climb (suc back) des_index = do object ← get_inode des_index; climb back object.parent_index

-- What `read_pathname` stores and returns.
pub record Parsed : Type 0 where
  pub des_index : ℕ
  pub parents : List (List ℕ)
  pub child : List ℕ

-- `read_pathname` from the current folder, once the start of the path is taken off. `none` is
-- `ERROR`, which leaves `*childfile` unset. `parentlist` has 20 places.
unfoldable pub parse_from :
    List FileObject → List ℕ → ℕ → Bool → List (List ℕ) × List ℕ → M (Option Parsed)
unfolding layer_check climb
parse_from [] cur_path back rooted (parents, child) = crash
parse_from (head ∷ files) cur_path back rooted (parents, child) =
    if ltb 0 back && ltb (layer_check cur_path) back then pure none else (do
      up ← climb back head.inode_index
      if ltb 20 (length parents)
          then crash
          else pure (
              some (record {
                des_index = if rooted then 0 else up;
                parents = parents;
                child = child;
              })))

unfoldable pub read_pathname : List ℕ → Fdt → M (Option Parsed)
unfolding strip_back strip_dot strip_root partition parse_from
read_pathname pathname fdt =
    let (back, pn) = strip_back pathname in
    let (rooted, rest) = strip_root (strip_dot pn) in
    parse_from fdt.files fdt.cur_path back rooted (partition rest [])

-- `for (i = 0; parentfile[i] != NULL; i++)`: with 20 parents the loop reads past the array.
unfoldable pub descend : ℕ → List (List ℕ) → ℕ → ℤ → M (Ret × ℤ)
descend i [] des_index index = if i == 20 then crash else pure (some des_index, index)
descend i (p ∷ ps) des_index index = do
  (answer, index') ← is_exist p des_index index
  elim answer [ none ↦ pure (none, index') | some next ↦ descend (i + 1) ps next index' ]
