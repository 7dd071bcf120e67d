-- ===== src/Ramdisk/Keeps/Unlink.antt =====
-- module/module_interface.h: `rd_unlink`, with the release of the inode as its last step.
use cs552operating_system.Base.{
  ℕ, ◌≡◌, ltb, ◌&&◌, if◌then◌else◌, none, some, List, same_text, codes, inl, inr, Bool-cases,
}
use cs552operating_system.Ramdisk.Store.{
  Fs, Env, Ret, done, M, pure, ◌>>=◌, ◌>>◌, is_dir, get_inode,
}
use cs552operating_system.Ramdisk.Directory.{free_parent_directory_entry, free_inode}
use cs552operating_system.Ramdisk.Blocks.{free_block}
use cs552operating_system.Ramdisk.Inodes.{release_inode}
use cs552operating_system.Ramdisk.Process.{current_fdt, is_open}
use cs552operating_system.Ramdisk.Calls.{find_file, rd_unlink}
use cs552operating_system.Ramdisk.Keeps.{Ends, ended, Ends-bind, IsStable}
use cs552operating_system.Ramdisk.Keeps.Blocks.{get_inode-Keeps, free_block-Keeps}
use cs552operating_system.Ramdisk.Keeps.Folders.{free_parent_directory_entry-Keeps}
use cs552operating_system.Ramdisk.Keeps.Paths.{current_fdt-Keeps, find_file-Keeps, is_open-Keeps}

-- What `rd_unlink` finds at a path: inode `j`, in state `s'`.
pub record Finds (env : Env) (pathname : List ℕ) (s : Fs) (j : ℕ) (s' : Fs) : Type 0 where
  pub table : ℕ
  pub child : List ℕ
  pub between : Fs
  pub current : current_fdt env s ≡ done table between
  pub found : find_file table pathname between ≡ done (some j, child) s'

-- `Q j` is what has to hold for the release of inode `j` to lead back to `P`.
module _ {P : Fs → Type 0} (stable : IsStable P) {Q : ℕ → Fs → Type 0}
    (stable_at : (j : ℕ) → IsStable (Q j)) (weaken : (j : ℕ) (s : Fs) → Q j s → P s)
    (release : (j : ℕ) (s : Fs) → Q j s → Ends P (release_inode j s)) where
  free_inode-Ends : (name : List ℕ) (j : ℕ) (s : Fs) → Q j s → Ends P (free_inode name j s)
  unfolding free_inode
  free_inode-Ends name j s h =
      Ends-bind (free_block j s) ((free_block-Keeps (stable_at j) j).at s h) λ _ s1 _ h1.
        Ends-bind (get_inode j s1) ((get_inode-Keeps j).at s1 h1) λ object s2 _ h2.
          Ends-bind (free_parent_directory_entry name object.parent_index s2)
            ((free_parent_directory_entry-Keeps (stable_at j) name object.parent_index).at s2 h2)
            λ _ s3 _ h3. release j s3 h3

  -- From the inode that the path leads to, through the last two tests.
  remove-Ends :
      (name : List ℕ) (j : ℕ) (closed : Ret) (s : Fs)
      → Q j s
      → Ends P (
          elim closed as (λ _. M Ret) [
            | none ↦ pure none
            | some _ ↦ (do free_inode name j; pure (some 0))
          ]
            s)
  remove-Ends name j none s h = ended none s (weaken j s h)
  remove-Ends name j (some c) s h =
      Ends-bind (free_inode name j s) (free_inode-Ends name j s h) λ _ s1 _ h1. ended (some 0) s1 h1

  pub rd_unlink-Ends :
      (env : Env) (pathname : List ℕ) (s : Fs)
      → P s
      → ((j : ℕ) (s' : Fs) → Finds env pathname s j s' → P s' → Q j s')
      → Ends P (rd_unlink env pathname s)
  unfolding rd_unlink
  rd_unlink-Ends env pathname s h used = elim (Bool-cases (same_text pathname (codes "/"))) [
    | inl root ↦ rw root (ended none s h)
    | inr other ↦ rw other (
        Ends-bind (current_fdt env s) ((current_fdt-Keeps stable env).at s h) λ t s1 e1 h1.
          Ends-bind (find_file t pathname s1) ((find_file-Keeps t pathname).at s1 h1)
            λ r s2 e2 h2. found-Ends t s1 e1 r s2 e2 h2)
  ]
    where
      found-Ends :
          (t : ℕ) (s1 : Fs)
          → current_fdt env s ≡ done t s1
          → (r : Ret × List ℕ) (s2 : Fs) → find_file t pathname s1 ≡ done r s2
          → P s2
          → Ends P (
              elim r.0 as (λ _. M Ret) [
                | none ↦ pure none
                | some i ↦ do
                  object ← get_inode i
                  if is_dir object.kind && ltb 0 object.size then pure none else (do
                    closed ← is_open i t
                    elim closed [ none ↦ pure none | some _ ↦ do free_inode r.1 i; pure (some 0) ])
              ]
                s2)
      found-Ends t s1 e1 (none, child) s2 e2 h2 = ended none s2 h2
      found-Ends t s1 e1 (some j, child) s2 e2 h2 =
          let at_j =
            used j s2 (record { table = t; child = child; between = s1; current = e1; found = e2 })
              h2 in
          Ends-bind (get_inode j s2) ((get_inode-Keeps j).at s2 at_j) λ object s3 _ h3.
            elim (Bool-cases (is_dir object.kind && ltb 0 object.size)) [
              | inl full ↦ rw full (ended none s3 (weaken j s3 h3))
              | inr empty ↦ rw empty (
                  Ends-bind (is_open j t s3) ((is_open-Keeps j t).at s3 h3)
                    λ closed s4 _ h4. remove-Ends child j closed s4 h4)
            ]
