-- ===== src/Ramdisk/Keeps/Folders.antt =====
-- module/support_function.h: the searches of a folder, the removal of an entry, `write_file`, the
-- tables and the walk of a path keep every stable predicate.
use cs552operating_system.Base.{
  ℕ, zero, suc, ◌+◌, refl, none, some, List, [], ◌∷◌, ltb, length, ◌-ℤ◌, ◌==ℤ◌, ◌==◌, ℤ, pos,
  negsuc,
}
use cs552operating_system.Ramdisk.Store.{Inode, Fs, Ptr, M, null}
use cs552operating_system.Ramdisk.Address.{double_slot, switch_address, get_blockpointer}
use cs552operating_system.Ramdisk.Directory.{
  text_is, entry_inode, Search, search_block, slots, child_count, search_double, exist_double,
  exist_single, is_exist, copy_name, move_entry, free_parent_directory_entry,
}
use cs552operating_system.Ramdisk.Directory
use cs552operating_system.Ramdisk.File.{write_bytes, grown, grow, write_file}
use cs552operating_system.Ramdisk.Keeps.{
  Keeps, Keeps-pure, Keeps-crash, Keeps-if, Keeps-elim, Keeps-bind, IsStable,
}
use cs552operating_system.Ramdisk.Keeps.Blocks.{
  read_rules, get_inode-Keeps, load32-Keeps, store8-Keeps, change-Keeps, change_then-Keeps,
  allocate_block-Keeps,
}

module _ {P : Fs → Type 0} where
  text_is-Keeps : (name : List ℕ) (p : Ptr) → Keeps P (text_is name p)
  unfolding text_is
  text_is-Keeps [] p = search (read_rules) depth 12
  text_is-Keeps (c ∷ cs) p = search (read_rules, text_is-Keeps cs) depth 12

  entry_inode-Keeps : (p : Ptr) → Keeps P (entry_inode p)
  unfolding entry_inode
  entry_inode-Keeps p = search (read_rules) depth 12

  search_block-Keeps :
      (k : ℕ) (block : Ptr) (j : ℕ) (name : List ℕ) (times : ℕ) (index : ℤ)
      → Keeps P (search_block k block j name times index)
  unfolding search_block
  search_block-Keeps zero block j name times index = Keeps-pure _
  search_block-Keeps (suc k) block j name times index =
      search (read_rules, text_is-Keeps, entry_inode-Keeps, search_block-Keeps k) depth 12

  search-Keeps :
      (k : ℕ) (location : ℕ → M Ptr) (i : ℕ) (name : List ℕ) (times : ℕ) (index : ℤ)
      → ((j : ℕ) → Keeps P (location j))
      → Keeps P (Directory.search k location i name times index)
  unfolding Directory.search
  search-Keeps zero location i name times index l = Keeps-pure _
  search-Keeps (suc k) location i name times index l = Keeps-if _ (Keeps-pure _) (
      Keeps-bind (l i) λ block. Keeps-if _ (Keeps-pure _) (
        Keeps-bind (search_block-Keeps 16 block 0 name times index) λ r.
          Keeps-elim r.answer (search-Keeps k location (i + 1) name _ _ l) (λ _. Keeps-pure r)))

  slots-Keeps : (block : Ptr) (i : ℕ) → Keeps P (slots block i)
  slots-Keeps block i = load32-Keeps _

  search_double-Keeps :
      (k : ℕ) (double : Ptr) (i : ℕ) (name : List ℕ) (times : ℕ) (index : ℤ)
      → Keeps P (search_double k double i name times index)
  unfolding search_double
  search_double-Keeps zero double i name times index = Keeps-pure _
  search_double-Keeps (suc k) double i name times index = Keeps-bind (load32-Keeps _) λ single.
      Keeps-if _ (Keeps-pure _) (
        Keeps-bind (search-Keeps 64 (slots single) 0 name times index (slots-Keeps single)) λ r.
          Keeps-elim r.answer
            (Keeps-if (r.times == 0) (Keeps-pure r)
              (search_double-Keeps k double (i + 1) name r.times r.index))
            (λ _. Keeps-pure r))

  exist_double-Keeps :
      (r : Search) (name : List ℕ) (double : Ptr) → Keeps P (exist_double r name double)
  unfolding exist_double
  exist_double-Keeps r name double = search (read_rules, search_double-Keeps) depth 12

  exist_single-Keeps :
      (r : Search) (name : List ℕ) (single double : Ptr)
      → Keeps P (exist_single r name single double)
  unfolding exist_single
  exist_single-Keeps r name single double = Keeps-if (r.times == 0) (Keeps-pure _) (
      Keeps-if (single == null) (Keeps-pure _) (
        Keeps-bind (search-Keeps 64 (slots single) 0 name r.times r.index (slots-Keeps single))
          λ r'. Keeps-elim r'.answer (exist_double-Keeps r' name double) (λ _. Keeps-pure _)))

  pub is_exist-Keeps : (name : List ℕ) (i : ℕ) (index : ℤ) → Keeps P (is_exist name i index)
  unfolding is_exist
  is_exist-Keeps name i index = Keeps-if (ltb 13 (length name)) (Keeps-pure _) (
      Keeps-bind (get_inode-Keeps i) λ parent.
        Keeps-if (child_count parent.size == 0) (Keeps-pure _) (
          Keeps-bind (search-Keeps 8 _ 0 name _ index (λ j. Keeps-pure _)) λ direct.
            Keeps-elim direct.answer (exist_single-Keeps direct name _ _) (λ _. Keeps-pure _)))

  double_slot-Keeps : (double : Ptr) (k : ℕ) → Keeps P (double_slot double k)
  unfolding double_slot
  double_slot-Keeps double k = search (read_rules) depth 12

  switch_address-Keeps : (n : Inode) (k offset : ℤ) → Keeps P (switch_address n k offset)
  unfolding switch_address
  switch_address-Keeps n (negsuc k) offset = Keeps-crash
  switch_address-Keeps n (pos k) offset = search (read_rules, double_slot-Keeps) depth 12

  pub get_blockpointer-Keeps : (k : ℤ) (n : Inode) → Keeps P (get_blockpointer k n)
  unfolding get_blockpointer
  get_blockpointer-Keeps (negsuc k) n = Keeps-pure _
  get_blockpointer-Keeps (pos k) n = search (read_rules, double_slot-Keeps) depth 12

module _ {P : Fs → Type 0} (stable : IsStable P) where
  copy_name-Keeps : (k : ℕ) (to from : Ptr) → Keeps P (copy_name k to from)
  unfolding copy_name
  copy_name-Keeps zero to from = Keeps-crash
  copy_name-Keeps (suc k) to from =
      search (read_rules, store8-Keeps stable, copy_name-Keeps k) depth 12

  move_entry-Keeps : (entry last : Ptr) → Keeps P (move_entry entry last)
  unfolding move_entry
  move_entry-Keeps entry last = search (read_rules, store8-Keeps stable, copy_name-Keeps) depth 12

  pub free_parent_directory_entry-Keeps :
      (name : List ℕ) (i : ℕ) → Keeps P (free_parent_directory_entry name i)
  unfolding free_parent_directory_entry
  free_parent_directory_entry-Keeps name i = Keeps-bind (is_exist-Keeps name i (negsuc 0)) λ found.
      Keeps-bind (get_inode-Keeps i) λ parent. Keeps-elim found.0 (Keeps-pure none) λ _.
        Keeps-bind
          (Keeps-if (parent.last_block_offset -ℤ pos 16 ==ℤ pos 0) (Keeps-pure tt)
            (search (read_rules, switch_address-Keeps, move_entry-Keeps) depth 12))
          λ _. change_then-Keeps stable i _ (some 0) (λ n. refl)

  write_bytes-Keeps :
      (i : ℕ) (bs : List ℕ) (p : Ptr) (offset position : ℤ) (n : ℕ)
      → Keeps P (write_bytes i bs p offset position n)
  unfolding write_bytes
  write_bytes-Keeps i [] p offset position n = Keeps-pure _
  write_bytes-Keeps i (b ∷ bs) p offset position n =
      search (read_rules, store8-Keeps stable, allocate_block-Keeps stable, write_bytes-Keeps i bs)
        depth 12

  grow-Keeps : (i n : ℕ) → Keeps P (grow i n)
  unfolding grow grown
  grow-Keeps i n = change-Keeps stable i _ (λ o. refl)

  pub write_file-Keeps :
      (i : ℕ) (position : ℤ) (bs : List ℕ) (type : ℕ) → Keeps P (write_file i position bs type)
  unfolding write_file
  write_file-Keeps i position bs type =
      search
        (
          read_rules,
          allocate_block-Keeps stable,
          switch_address-Keeps,
          write_bytes-Keeps,
          grow-Keeps,
        )
        depth 20
