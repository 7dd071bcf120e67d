-- ===== src/Ramdisk/Calls/Refusals.antt =====
-- module/module_interface.h: paths at which `create` and `rd_unlink` refuse.
use cs552operating_system.Base.{
  ℕ, ◌≤◌, ◌<◌, ◌≡◌, ◌≢◌, refl, ◌∙◌, true, false, ◌||◌, ◌⊎◌, Option, none, some, List, [], ◌∷◌, ◌++◌,
  length, get_elem?, arith, ltb, lt→ltb, inl, inr, Bool-cases, Option-cases, same_text, ℤ,
}
use mathlib.Core.Path.{subst}
use cs552operating_system.Ramdisk.Store.{Kind, is_dir, Fs, Fdt, Env, done, inode_list_num}
use cs552operating_system.Ramdisk.Store.Laws.{get_inode_lem}
use cs552operating_system.Ramdisk.Directory.Listing.{lookup, all_entries}
use cs552operating_system.Ramdisk.Process.Tables.{find_pid}
use cs552operating_system.Ramdisk.PathName.Theorems.{NoSlash, AllNoSlash, join}
use cs552operating_system.Ramdisk.Calls.{create, find_file, rd_unlink}
use cs552operating_system.Ramdisk.Calls.Walk.{
  Tree, Walkable, walk, folder-lookup, walk-missed, walk-found, walk-nil, walk-behind, walk-lost,
  resolve-walk, current_fdt_lem,
}

-- `find_file` finds what the tree has at the path.
find_file-walk :
    (tree : Tree) (t : ℕ) (fdt : Fdt) (ps : List (List ℕ)) (child : List ℕ) (s : Fs)
    → get_elem? s.fdts t ≡ some fdt
    → fdt.files ≢ []
    → AllNoSlash ps
    → NoSlash child
    → length ps < 20
    → length child ≤ 13
    → Walkable s tree 0 (ps ++ (child ∷ []))
    → find_file t (b'/' ∷ join ps child) s ≡ done (walk tree 0 (ps ++ (child ∷ [])), child) s
unfolding find_file
find_file-walk tree t fdt ps child s at_t held a n few short w =
    let (index, e) = resolve-walk tree t fdt ps child s at_t held a n few w in
    let fits : ltb 13 (length child) ≡ false = ground arith in
    elim (Option-cases (walk tree 0 ps)) [
      | inl lost ↦ rw e (rw (lost, walk-lost tree ps (child ∷ []) 0 lost) refl)
      | inr (f, there) ↦
          let (behind, same) = walk-behind tree ps (child ∷ []) 0 f s w there in
          let found = folder-lookup tree child [] f index s behind in
          elim (Option-cases (lookup child (all_entries (tree f)))) [
            | inl missed ↦
                let nowhere = same ∙ walk-missed tree child [] f missed in
                rw e (rw (there, nowhere, fits) (rw (found, missed) refl))
            | inr (j, hit) ↦
                let end = same ∙ walk-found tree child [] f j hit ∙ walk-nil tree j in
                rw e (rw (there, end, fits) (rw (found, hit) refl))
          ]
    ]

-- What the tree has at a path can not be unlinked: nothing, or a folder with an entry.
abbrev pub Kept : Fs → Option ℕ → Type 0
Kept s none = Unit
Kept s (some j) = (j < inode_list_num) × (is_dir (s.inode j).kind ≡ true) × (0 < (s.inode j).size)

-- `rd_unlink` at an absolute path of fewer than 20 folders, for a process with a table, when the path
-- leads through folders of the tree, returns `ERROR` and changes nothing, where the tree has no file
-- at the path or a folder that is not empty.
pub rd_unlink_refused :
    (env : Env) (tree : Tree) (t : ℕ) (fdt : Fdt) (ps : List (List ℕ)) (child : List ℕ) (s : Fs)
    → find_pid env.pid s.fdts 0 ≡ some t
    → get_elem? s.fdts t ≡ some fdt
    → fdt.files ≢ []
    → AllNoSlash ps
    → NoSlash child
    → length ps < 20
    → length child ≤ 13
    → Walkable s tree 0 (ps ++ (child ∷ []))
    → Kept s (walk tree 0 (ps ++ (child ∷ [])))
    → rd_unlink env (b'/' ∷ join ps child) s ≡ done none s
unfolding rd_unlink
rd_unlink_refused env tree t fdt ps child s own at_t held a n few short w kept =
    let found = find_file-walk tree t fdt ps child s at_t held a n few short w in
    let current = current_fdt_lem env s t own in
    elim (Bool-cases (same_text (join ps child) [])) [
      | inl root ↦ rw root refl
      | inr other ↦
          rw (other, current, found)
            (elim (Option-cases (walk tree 0 (ps ++ (child ∷ [])))) [
              | inl nowhere ↦ rw nowhere refl
              | inr (j, there) ↦
                  let k : Kept s (some j) = subst (Kept s) there kept in
                  rw (there, get_inode_lem s k.0, k.1, lt→ltb 0 (s.inode j).size k.2) refl
            ])
    ]

-- `create` at an absolute path of fewer than 20 folders, for a process with a table, when the path
-- leads through folders of the tree, returns `ERROR` and changes nothing, where the tree has something
-- at the path already, or does not have the folder.
pub create_refused :
    (env : Env) (tree : Tree) (t : ℕ) (fdt : Fdt) (ps : List (List ℕ)) (child : List ℕ) (mode : ℤ)
    (type : Kind) (s : Fs)
    → find_pid env.pid s.fdts 0 ≡ some t
    → get_elem? s.fdts t ≡ some fdt
    → fdt.files ≢ []
    → AllNoSlash ps
    → NoSlash child
    → length ps < 20
    → length child ≤ 13
    → Walkable s tree 0 (ps ++ (child ∷ []))
    → (walk tree 0 (ps ++ (child ∷ [])) ≢ none) ⊎ (walk tree 0 ps ≡ none)
    → create env (b'/' ∷ join ps child) mode type s ≡ done none s
unfolding create
create_refused env tree t fdt ps child mode type s own at_t held a n few short w refused =
    let (index, e) = resolve-walk tree t fdt ps child s at_t held a n few w in
    let current = current_fdt_lem env s t own in
    let fits : ltb 13 (length child) ≡ false = ground arith in
    elim (Bool-cases
      (ltb s.superblock.free_block_number 1 || ltb s.superblock.free_inode_number 1)) [
        | inl full ↦ rw full refl
        | inr space ↦ elim (Option-cases (walk tree 0 ps)) [
          | inl lost ↦ rw (space, current, e) (rw lost refl)
          | inr (f, there) ↦
              let (behind, same) = walk-behind tree ps (child ∷ []) 0 f s w there in
              let found = folder-lookup tree child [] f index s behind in
              elim (Option-cases (lookup child (all_entries (tree f)))) [
                | inl missed ↦
                    let nowhere = same ∙ walk-missed tree child [] f missed in
                    absurd (grind (arith, nowhere, there, refused))
                | inr (j, hit) ↦ rw (space, current, e) (rw (there, fits) (rw (found, hit) refl))
              ]
        ]
      ]
