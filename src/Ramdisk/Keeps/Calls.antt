-- ===== src/Ramdisk/Keeps/Calls.antt =====
-- module/module_interface.h: each call keeps a stable predicate; `create` does where `allocate_inode`
-- does, and `rd_unlink` is left to its last step.
use cs552operating_system.Base.{
  ℕ, zero, suc, refl, none, some, Option, List, [], ◌∷◌, ltb, length, ◌==◌, ℤ, pos, negsuc, ◌||◌,
}
use cs552operating_system.Ramdisk.Store.{
  Inode, Kind, Fs, Fdt, FileObject, Env, Ptr, Ret, ◌>>◌, pure, null, is_dir,
}
use cs552operating_system.Ramdisk.Process.{store_fdt}
use cs552operating_system.Ramdisk.Inodes.{allocate_inode}
use cs552operating_system.Ramdisk.Calls.{rd_pwd, add_entry, create, rd_chmod}
use cs552operating_system.Ramdisk.Calls.Open.{
  unlink_object, denies, open_path, open_object, close_path, rd_open, rd_close,
}
use cs552operating_system.Ramdisk.Calls.Data.{
  load_bytes, read_loop, read_at, rd_read, set_position, write_at, rd_write, seek_at, rd_lseek,
}
use cs552operating_system.Ramdisk.Keeps.{
  Keeps, Keeps-pure, Keeps-crash, Keeps-if, Keeps-elim, Keeps-elim_list, Keeps-bind, Keeps-get,
  IsStable,
}
use cs552operating_system.Ramdisk.Keeps.Blocks.{read_rules, get_inode-Keeps, change_then-Keeps}
use cs552operating_system.Ramdisk.Keeps.Folders.{
  is_exist-Keeps, get_blockpointer-Keeps, write_file-Keeps,
}
use cs552operating_system.Ramdisk.Keeps.Paths.{
  load_fdt-Keeps, is_open-Keeps, resolve-Keeps, find_file-Keeps, store_fdt-Keeps, current_fdt-Keeps,
}

module _ {P : Fs → Type 0} where
  load_bytes-Keeps : (n : ℕ) (p : Ptr) → Keeps P (load_bytes n p)
  unfolding load_bytes
  load_bytes-Keeps zero p = Keeps-pure []
  load_bytes-Keeps (suc n) p = search (read_rules, load_bytes-Keeps n) depth 12

  read_loop-Keeps :
      (k : ℕ) (object : Inode) (position n : ℕ) (out : List ℕ)
      → Keeps P (read_loop k object position n out)
  unfolding read_loop
  read_loop-Keeps zero object position n out = search (read_rules) depth 12
  read_loop-Keeps (suc k) object position n out =
      search (read_rules, get_blockpointer-Keeps, load_bytes-Keeps, read_loop-Keeps k) depth 12

  read_at-Keeps : (n : ℤ) (f : Option (ℕ × FileObject)) → Keeps P (read_at n f)
  unfolding read_at
  read_at-Keeps n none = Keeps-pure _
  read_at-Keeps n (some (i, f)) = Keeps-bind (get_inode-Keeps f.inode_index) λ object.
      Keeps-if (object.size == 0) (Keeps-pure _) (
        Keeps-if (object.location 0 == null) (Keeps-pure _) (
          Keeps-bind (read_loop-Keeps _ object _ _ [])
            λ out. Keeps-elim out (Keeps-pure _) (λ bytes. Keeps-pure _)))

  unlink_object-Keeps : (fd : ℕ) (fs : List FileObject) → Keeps P (unlink_object fd fs)
  unfolding unlink_object
  unlink_object-Keeps zero [] = search (read_rules) depth 12
  unlink_object-Keeps (suc fd) [] = search (read_rules) depth 12
  unlink_object-Keeps zero (f ∷ fs) = Keeps-pure _
  unlink_object-Keeps (suc fd) (f ∷ fs) =
      Keeps-bind (unlink_object-Keeps fd fs)
        λ rest. Keeps-elim rest (Keeps-pure none) (λ fs'. Keeps-pure _)

module _ {P : Fs → Type 0} (stable : IsStable P) where
  pub rd_pwd-Keeps : (env : Env) → Keeps P (rd_pwd env)
  unfolding rd_pwd
  rd_pwd-Keeps env = search (read_rules, current_fdt-Keeps stable, load_fdt-Keeps) depth 12

  pub rd_chmod-Keeps : (env : Env) (path : List ℕ) (mode : ℤ) → Keeps P (rd_chmod env path mode)
  unfolding rd_chmod
  rd_chmod-Keeps env path mode = Keeps-bind (current_fdt-Keeps stable env) λ fdt.
      Keeps-bind (resolve-Keeps fdt path) λ r. Keeps-elim r.0 (Keeps-pure none) λ f.
        Keeps-bind (is_exist-Keeps r.1 f r.2) λ found.
          Keeps-elim found.0 (Keeps-pure none)
            λ i. change_then-Keeps stable i _ (some 0) (λ n. refl)

  set_position-Keeps :
      (i at : ℕ) (f : FileObject) (position : ℤ) → Keeps P (set_position i at f position)
  unfolding set_position
  set_position-Keeps i at f position =
      search (read_rules, load_fdt-Keeps, store_fdt-Keeps stable) depth 12

  write_at-Keeps :
      (i : ℕ) (input : List ℕ) (f : Option (ℕ × FileObject)) → Keeps P (write_at i input f)
  unfolding write_at
  write_at-Keeps i input none = Keeps-pure none
  write_at-Keeps i input (some (at, f)) =
      search (read_rules, write_file-Keeps stable, set_position-Keeps) depth 12

  seek_at-Keeps :
      (i : ℕ) (position : ℤ) (f : Option (ℕ × FileObject)) → Keeps P (seek_at i position f)
  unfolding seek_at
  seek_at-Keeps i position none = Keeps-pure none
  seek_at-Keeps i position (some (at, f)) = search (read_rules, set_position-Keeps) depth 12

  pub rd_read-Keeps : (env : Env) (fd n : ℤ) → Keeps P (rd_read env fd n)
  unfolding rd_read
  rd_read-Keeps env fd n =
      search (read_rules, current_fdt-Keeps stable, load_fdt-Keeps, read_at-Keeps) depth 12

  pub rd_write-Keeps : (env : Env) (fd : ℤ) (input : List ℕ) → Keeps P (rd_write env fd input)
  unfolding rd_write
  rd_write-Keeps env fd input =
      search (read_rules, current_fdt-Keeps stable, load_fdt-Keeps, write_at-Keeps) depth 12

  pub rd_lseek-Keeps : (env : Env) (fd position : ℤ) → Keeps P (rd_lseek env fd position)
  unfolding rd_lseek
  rd_lseek-Keeps env fd position =
      search (read_rules, current_fdt-Keeps stable, load_fdt-Keeps, seek_at-Keeps) depth 12

  store_then-Keeps : (i : ℕ) (f : Fdt) (r : Ret) → Keeps P (store_fdt i f >> pure r)
  store_then-Keeps i f r = Keeps-bind (store_fdt-Keeps stable i f) λ u. Keeps-pure r

  pub rd_open-Keeps : (env : Env) (path : List ℕ) (flag : ℤ) → Keeps P (rd_open env path flag)
  unfolding rd_open
  rd_open-Keeps env path flag = Keeps-bind (current_fdt-Keeps stable env) λ i.
      Keeps-bind (find_file-Keeps i path) λ r. Keeps-elim r.0 (Keeps-pure none) λ j.
        Keeps-bind (get_inode-Keeps j) λ object. Keeps-bind (is_open-Keeps j i) λ closed.
          Keeps-elim closed (Keeps-pure none) λ c.
            Keeps-if (denies object.mode flag) (Keeps-pure none) (
              Keeps-bind (load_fdt-Keeps i) λ fdt.
                Keeps-elim (open_path fdt.cur_path path) Keeps-crash λ new_path.
                  Keeps-if env.vmalloc
                    (store_then-Keeps i
                      (let (files, _) = open_object (is_dir object.kind) j fdt.files in
                        record fdt { files = files; cur_path = new_path })
                      (some (open_object (is_dir object.kind) j fdt.files).1))
                    Keeps-crash)

  pub rd_close-Keeps : (env : Env) (fd : ℤ) → Keeps P (rd_close env fd)
  unfolding rd_close
  rd_close-Keeps env (negsuc n) = Keeps-bind (current_fdt-Keeps stable env) λ i. Keeps-crash
  rd_close-Keeps env (pos zero) = Keeps-bind (current_fdt-Keeps stable env) λ i.
      Keeps-bind (load_fdt-Keeps i) λ fdt. Keeps-elim_list fdt.files Keeps-crash λ head rest.
        Keeps-if (head.inode_index == 0) (Keeps-pure none) (
          Keeps-bind (get_inode-Keeps head.inode_index) λ folder.
            store_then-Keeps i
              (record fdt {
                files = record { inode_index = folder.parent_index; position = pos 0 } ∷ rest;
                cur_path = close_path fdt.cur_path;
              })
              (some 0))
  rd_close-Keeps env (pos (suc fd)) = Keeps-bind (current_fdt-Keeps stable env) λ i.
      Keeps-bind (load_fdt-Keeps i) λ fdt.
        Keeps-bind (unlink_object-Keeps (suc fd) fdt.files) λ files.
          Keeps-elim files (Keeps-pure none)
            λ fs. store_then-Keeps i (record fdt { files = fs }) (some 0)

  module _
      (allocate : (parent : ℕ) (mode : ℤ) (kind : Kind)
        → Keeps P (allocate_inode parent mode kind)) where
    add_entry-Keeps :
        (env : Env) (folder : ℕ) (child : List ℕ) (mode : ℤ) (type : Kind)
        → Keeps P (add_entry env folder child mode type)
    unfolding add_entry
    add_entry-Keeps env folder child mode type = Keeps-bind Keeps-get λ s.
        Keeps-bind (get_inode-Keeps folder) λ parent.
          Keeps-if env.vmalloc
            (Keeps-bind (write_file-Keeps stable folder _ _ b'c')
              λ r. Keeps-elim r.0 (Keeps-pure none) λ n. allocate folder mode _)
            Keeps-crash

    pub create-Keeps :
        (env : Env) (path : List ℕ) (mode : ℤ) (type : Kind) → Keeps P (create env path mode type)
    unfolding create
    create-Keeps env path mode type = Keeps-bind Keeps-get λ s.
        Keeps-if (ltb s.superblock.free_block_number 1 || ltb s.superblock.free_inode_number 1)
          (Keeps-pure none)
          (Keeps-bind (current_fdt-Keeps stable env) λ i. Keeps-bind (resolve-Keeps i path) λ r.
            Keeps-elim r.0 (Keeps-pure none) λ f. Keeps-if (ltb 13 (length r.1)) (Keeps-pure none) (
              Keeps-bind (is_exist-Keeps r.1 f r.2)
                λ old. Keeps-elim old.0 (add_entry-Keeps env f r.1 mode type) λ o. Keeps-pure none))
