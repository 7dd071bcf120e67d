-- ===== src/Ramdisk/Calls/Walk.antt =====
-- module/module_interface.h: what the calls find at an absolute path, against a tree of folders.
use cs552operating_system.Base.{
  update, ℕ, ◌+◌, ◌*◌, ◌≤◌, ◌<◌, ◌≡◌, ◌≢◌, refl, ap, sym, ◌∙◌, false, Option, none, some, List, [],
  ◌∷◌, ◌++◌, length, get_elem?, arith, ◌==◌, inl, inr, Option-cases, ℤ, negsuc,
}
use mathlib.Core.Path.{subst}
use cs552operating_system.Ramdisk.Store.{Fs, Fdt, Env, Ret, Run, done, inode_list_num}
use cs552operating_system.Ramdisk.Store.Laws.{get_inode_lem, put_inode_lem}
use cs552operating_system.Ramdisk.Directory.{is_exist}
use cs552operating_system.Ramdisk.Directory.Listing.{
  NoZero, Entry, BlocksAt, lookup, place, all_entries,
}
use cs552operating_system.Ramdisk.Directory.Exist.{is_exist-lookup}
use cs552operating_system.Ramdisk.Process.{current_fdt, load_fdt}
use cs552operating_system.Ramdisk.Process.Tables.{find_pid}
use cs552operating_system.Ramdisk.Process.Theorems.{get_fdt-found}
use cs552operating_system.Ramdisk.PathName.{descend}
use cs552operating_system.Ramdisk.PathName.Theorems.{
  NoSlash, AllNoSlash, join, read_pathname-absolute,
}
use cs552operating_system.Ramdisk.Calls.{resolve, rd_chmod}

-- Folder `i`: its entries lie in its direct blocks.
pub record IsFolder (s : Fs) (i : ℕ) (bs : List (List Entry)) : Type 0 where
  pub bound : i < inode_list_num
  pub size : (s.inode i).size ≡ 16 * length (all_entries bs)
  pub blocks : BlocksAt s (s.inode i).location 0 bs
  pub few : length bs ≤ 8

-- The blocks of each folder.
abbrev pub Tree : Type 0
Tree = ℕ → List (List Entry)

-- The inode at the end of a path from folder `i`.
unfoldable pub walk : Tree → ℕ → List (List ℕ) → Option ℕ
walk tree i [] = some i
walk tree i (p ∷ ps) = elim (lookup p (all_entries (tree i))) [
  | none ↦ none
  | some j ↦ walk tree j ps
]

-- The path leads through folders of the tree, by names that an entry can hold, and ends in the
-- inode list.
abbrev pub Walkable : Fs → Tree → ℕ → List (List ℕ) → Type 0
Walkable s tree i [] = i < inode_list_num
Walkable s tree i (p ∷ ps) =
    IsFolder s i (tree i)
    × NoZero p
    × (length p ≤ 13)
    × ((j : ℕ) → lookup p (all_entries (tree i)) ≡ some j → Walkable s tree j ps)

pub folder-lookup :
    (tree : Tree) (p : List ℕ) (ps : List (List ℕ)) (i : ℕ) (index : ℤ) (s : Fs)
    → Walkable s tree i (p ∷ ps)
    → is_exist p i index s
      ≡ done (lookup p (all_entries (tree i)), place p (all_entries (tree i)) index) s
folder-lookup tree p ps i index s w =
    is_exist-lookup i (tree i) p index s w.0.bound w.0.size w.0.blocks w.0.few w.1 w.2

pub walk-missed :
    (tree : Tree) (p : List ℕ) (ps : List (List ℕ)) (i : ℕ)
    → lookup p (all_entries (tree i)) ≡ none
    → walk tree i (p ∷ ps) ≡ none
unfolding walk
walk-missed tree p ps i h = rw (walk, h) refl

pub walk-found :
    (tree : Tree) (p : List ℕ) (ps : List (List ℕ)) (i j : ℕ)
    → lookup p (all_entries (tree i)) ≡ some j
    → walk tree i (p ∷ ps) ≡ walk tree j ps
unfolding walk
walk-found tree p ps i j h = rw (walk, h) refl

pub walk-nil : (tree : Tree) (i : ℕ) → walk tree i [] ≡ some i
unfolding walk
walk-nil tree i = refl

descend-walk :
    (tree : Tree) (ps cs : List (List ℕ)) (k i : ℕ) (index : ℤ) (s : Fs)
    → Walkable s tree i (ps ++ cs)
    → k + length ps < 20
    → (index' : ℤ) × (descend k ps i index s ≡ done (walk tree i ps, index') s)
unfolding descend
descend-walk tree [] cs k i index s w few =
    let inside : (k == 20) ≡ false = ground arith in (index, rw (inside, walk-nil tree i) refl)
descend-walk tree (p ∷ ps) cs k i index s w few =
    let found = folder-lookup tree p (ps ++ cs) i index s w in
    elim (Option-cases (lookup p (all_entries (tree i)))) [
      | inl h ↦
          (place p (all_entries (tree i)) index, rw (found, h, walk-missed tree p ps i h) refl)
      | inr (j, h) ↦
          let (index', e) =
            descend-walk tree ps cs (k + 1) j (place p (all_entries (tree i)) index) s (w.3 j h)
              (omega arith) in
          (index', rw (found, h, walk-found tree p ps i j h) e)
    ]

pub walk-behind :
    (tree : Tree) (ps cs : List (List ℕ)) (i f : ℕ) (s : Fs)
    → Walkable s tree i (ps ++ cs)
    → walk tree i ps ≡ some f
    → Walkable s tree f cs × (walk tree i (ps ++ cs) ≡ walk tree f cs)
walk-behind tree [] cs i f s w h =
    let same : i ≡ f = cc (walk-nil tree i, h) in
    (subst (λ g. Walkable s tree g cs) same w, ap (λ g. walk tree g cs) same)
walk-behind tree (p ∷ ps) cs i f s w h = elim (Option-cases (lookup p (all_entries (tree i)))) [
  | inl missed ↦ absurd (cc (walk-missed tree p ps i missed, h))
  | inr (j, there) ↦
      let (behind, same) =
        walk-behind tree ps cs j f s (w.3 j there) (sym (walk-found tree p ps i j there) ∙ h) in
      (behind, walk-found tree p (ps ++ cs) i j there ∙ same)
]

pub walk-lost :
    (tree : Tree) (ps cs : List (List ℕ)) (i : ℕ)
    → walk tree i ps ≡ none
    → walk tree i (ps ++ cs) ≡ none
walk-lost tree [] cs i h = absurd (cc (walk-nil tree i, h))
walk-lost tree (p ∷ ps) cs i h = elim (Option-cases (lookup p (all_entries (tree i)))) [
  | inl missed ↦ walk-missed tree p (ps ++ cs) i missed
  | inr (j, there) ↦
      walk-found tree p (ps ++ cs) i j there
      ∙ walk-lost tree ps cs j (sym (walk-found tree p ps i j there) ∙ h)
]

pub load_fdt_lem :
    (s : Fs) (t : ℕ) (fdt : Fdt) → get_elem? s.fdts t ≡ some fdt → load_fdt t s ≡ done fdt s
unfolding load_fdt
load_fdt_lem s t fdt h = rw (load_fdt, h) refl

-- A process that has table `t`, at an absolute path of fewer than 20 folders.
pub resolve-walk :
    (tree : Tree) (t : ℕ) (fdt : Fdt) (ps : List (List ℕ)) (child : List ℕ) (s : Fs)
    → get_elem? s.fdts t ≡ some fdt
    → fdt.files ≢ []
    → AllNoSlash ps
    → NoSlash child
    → length ps < 20
    → Walkable s tree 0 (ps ++ (child ∷ []))
    → (index : ℤ) × (resolve t (b'/' ∷ join ps child) s ≡ done (walk tree 0 ps, child, index) s)
unfolding resolve
resolve-walk tree t fdt ps child s at_t held a n few w =
    let (index, e) = descend-walk tree ps (child ∷ []) 0 0 (negsuc 0) s w (omega arith) in
    let parsed = read_pathname-absolute ps child fdt s a n held (omega arith) in
    (index, rw (load_fdt_lem s t fdt at_t, parsed, e) refl)

pub current_fdt_lem :
    (env : Env) (s : Fs) (t : ℕ) → find_pid env.pid s.fdts 0 ≡ some t → current_fdt env s ≡ done t s
unfolding current_fdt
current_fdt_lem env s t h = rw (get_fdt-found env s t h) refl

-- The state after a change of the mode of the inode that a path leads to.
abbrev pub chmod : Option ℕ → ℤ → Fs → Run Ret
chmod none mode s = done none s
chmod (some j) mode s =
    done (some 0) (record s { inode = update s.inode j (record (s.inode j) { mode = mode }) })

-- `rd_chmod` at an absolute path of fewer than 20 folders, for a process with a table, when the path
-- leads through folders of the tree: it gives the mode to the inode that the tree has at the path
-- and changes nothing else, or it returns `ERROR` and changes nothing, where the tree has none.
pub rd_chmod-walk :
    (env : Env) (tree : Tree) (t : ℕ) (fdt : Fdt) (ps : List (List ℕ)) (child : List ℕ) (mode : ℤ)
    (s : Fs)
    → find_pid env.pid s.fdts 0 ≡ some t
    → get_elem? s.fdts t ≡ some fdt
    → fdt.files ≢ []
    → AllNoSlash ps
    → NoSlash child
    → length ps < 20
    → Walkable s tree 0 (ps ++ (child ∷ []))
    → rd_chmod env (b'/' ∷ join ps child) mode s ≡ chmod (walk tree 0 (ps ++ (child ∷ []))) mode s
unfolding rd_chmod
rd_chmod-walk env tree t fdt ps child mode s own at_t held a n few w =
    let (index, e) = resolve-walk tree t fdt ps child s at_t held a n few w in
    let current = current_fdt_lem env s t own in
    elim (Option-cases (walk tree 0 ps)) [
      | inl lost ↦
          let nowhere = walk-lost tree ps (child ∷ []) 0 lost in
          rw (current, e) (rw (lost, nowhere) refl)
      | inr (f, there) ↦
          let (behind, same) = walk-behind tree ps (child ∷ []) 0 f s w there in
          let found = folder-lookup tree child [] f index s behind in
          elim (Option-cases (lookup child (all_entries (tree f)))) [
            | inl missed ↦
                let nowhere = same ∙ walk-missed tree child [] f missed in
                rw (current, e) (rw (there, nowhere) (rw (found) (rw missed refl)))
            | inr (j, hit) ↦
                let end = same ∙ walk-found tree child [] f j hit ∙ walk-nil tree j in
                rw (current, e)
                  (rw (there, end)
                    (rw (found) (
                      rw hit (
                        rw
                          (
                            get_inode_lem s (behind.3 j hit),
                            put_inode_lem (record (s.inode j) { mode = mode }) s (behind.3 j hit),
                          )
                          refl))))
          ]
    ]
