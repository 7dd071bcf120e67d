-- ===== src/Ramdisk/Keeps/Paths.antt =====
-- module/support_function.h and module/module_interface.h: the tables and the walk of a path change
-- nothing that matters to a stable predicate.
use cs552operating_system.Base.{
  ℕ, zero, suc, ◌+◌, Bool, none, some, Option, List, [], ◌∷◌, ltb, length, ℤ, get_elem?,
}
use cs552operating_system.Ramdisk.Store.{Fs, Fdt, FileObject, Env, done, fault}
use cs552operating_system.Ramdisk.Process.{
  create_fdt, inherit, add_fdt, find_fdt, serve_fdt, get_fdt, current_fdt, load_fdt, store_fdt,
  is_open, holds_inode,
}
use cs552operating_system.Ramdisk.PathName.{climb, parse_from, read_pathname, descend}
use cs552operating_system.Ramdisk.Calls.{resolve, find_file}
use cs552operating_system.Ramdisk.Keeps.{
  Ends, ended, broke, Keeps, Keeps-pure, Keeps-crash, Keeps-if, Keeps-elim, Keeps-bind, IsStable,
}
use cs552operating_system.Ramdisk.Keeps.Blocks.{read_rules}
use cs552operating_system.Ramdisk.Keeps.Folders.{is_exist-Keeps}

module _ {P : Fs → Type 0} where
  pub load_fdt-Keeps : (i : ℕ) → Keeps P (load_fdt i)
  unfolding load_fdt
  load_fdt-Keeps i = record { at = λ s h. loaded s h (get_elem? s.fdts i) }
    where
      loaded :
          (s : Fs) → P s → (f : Option Fdt) → Ends P (elim f [ none ↦ fault | some x ↦ done x s ])
      loaded s h none = broke
      loaded s h (some f) = ended f s h

  pub is_open-Keeps : (j i : ℕ) → Keeps P (is_open j i)
  unfolding is_open
  is_open-Keeps j i = record { at = λ s h. opened s h s.fdts }
    where
      opened :
          (s : Fs)
          → P s
          → (fs : List Fdt)
          → Ends P (elim fs [ [] ↦ fault | f ∷ fs' ↦ done (holds_inode j f.files) s ])
      opened s h [] = broke
      opened s h (f ∷ fs) = ended _ s h

  climb-Keeps : (back i : ℕ) → Keeps P (climb back i)
  unfolding climb
  climb-Keeps zero i = Keeps-pure i
  climb-Keeps (suc back) i = search (read_rules, climb-Keeps back) depth 12

  parse_from-Keeps :
      (files : List FileObject) (path : List ℕ) (back : ℕ) (rooted : Bool)
      (parts : List (List ℕ) × List ℕ)
      → Keeps P (parse_from files path back rooted parts)
  unfolding parse_from
  parse_from-Keeps [] path back rooted (parents, child) = Keeps-crash
  parse_from-Keeps (head ∷ files) path back rooted (parents, child) =
      search (read_rules, climb-Keeps) depth 12

  read_pathname-Keeps : (path : List ℕ) (fdt : Fdt) → Keeps P (read_pathname path fdt)
  unfolding read_pathname
  read_pathname-Keeps path fdt = search (parse_from-Keeps)

  descend-Keeps : (i : ℕ) (ps : List (List ℕ)) (j : ℕ) (index : ℤ) → Keeps P (descend i ps j index)
  unfolding descend
  descend-Keeps i [] j index = search (read_rules) depth 12
  descend-Keeps i (p ∷ ps) j index =
      Keeps-bind (is_exist-Keeps p j index)
        λ found. Keeps-elim found.0 (Keeps-pure _) (λ next. descend-Keeps (i + 1) ps next found.1)

  pub resolve-Keeps : (i : ℕ) (path : List ℕ) → Keeps P (resolve i path)
  unfolding resolve
  resolve-Keeps i path = Keeps-bind (load_fdt-Keeps i) λ fdt.
      Keeps-bind (read_pathname-Keeps path fdt) λ parsed.
        Keeps-elim parsed Keeps-crash
          λ p. Keeps-bind (descend-Keeps 0 p.parents p.des_index _) λ r. Keeps-pure _

  pub find_file-Keeps : (i : ℕ) (path : List ℕ) → Keeps P (find_file i path)
  unfolding find_file
  find_file-Keeps i path = Keeps-bind (resolve-Keeps i path) λ r. Keeps-elim r.0 (Keeps-pure _) λ f.
      Keeps-if (ltb 13 (length r.1)) (Keeps-pure _)
        (Keeps-bind (is_exist-Keeps r.1 f r.2) λ found. Keeps-pure _)

module _ {P : Fs → Type 0} (stable : IsStable P) where
  add_fdt-Keeps : (f : Fdt) → Keeps P (add_fdt f)
  unfolding add_fdt
  add_fdt-Keeps f = record { at = λ s h. ended _ _ (stable.fdts s _ h) }

  pub store_fdt-Keeps : (i : ℕ) (f : Fdt) → Keeps P (store_fdt i f)
  unfolding store_fdt
  store_fdt-Keeps i f = record { at = λ s h. ended _ _ (stable.fdts s _ h) }

  serve_fdt-Keeps :
      (env : Env) (i : Option ℕ) (parent : Option Fdt) → Keeps P (serve_fdt env i parent)
  unfolding serve_fdt
  serve_fdt-Keeps env (some i) parent = Keeps-pure _
  serve_fdt-Keeps env none none = Keeps-elim (create_fdt env) (Keeps-pure none) add_fdt-Keeps
  serve_fdt-Keeps env none (some p) = Keeps-elim (inherit env p) Keeps-crash add_fdt-Keeps

  get_fdt-Keeps : (env : Env) → Keeps P (get_fdt env)
  unfolding get_fdt
  get_fdt-Keeps env = record {
    at = λ s h.
        let (current, parent) = find_fdt env.pid env.ppid s.fdts 0 none in
        (serve_fdt-Keeps env current parent).at s h;
  }

  pub current_fdt-Keeps : (env : Env) → Keeps P (current_fdt env)
  unfolding current_fdt
  current_fdt-Keeps env = Keeps-bind (get_fdt-Keeps env) λ r. Keeps-elim r Keeps-crash Keeps-pure
