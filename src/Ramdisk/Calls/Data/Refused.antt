-- ===== src/Ramdisk/Calls/Data/Refused.antt =====
-- module/module_interface.h: `rd_read`, `rd_write` and `rd_lseek` with a descriptor that stands for no file.
use cs552operating_system.Base.{
  ℕ, zero, suc, ◌≤◌, ◌≡◌, ◌⊎◌, inl, inr, refl, none, some, List, [], ◌∷◌, length, get_elem?, arith,
  ℤ, pos,
}
use cs552operating_system.Ramdisk.Store.{Fs, Fdt, FileObject, Env, done}
use cs552operating_system.Ramdisk.Process.Tables.{find_pid}
use cs552operating_system.Ramdisk.Calls.Walk.{current_fdt_lem, load_fdt_lem}
use cs552operating_system.Ramdisk.Calls.Data.{
  file_at, rd_read, read_at, write_at, rd_write, seek_at, rd_lseek,
}

get_elem?-past {ℓ} : {A : Type ℓ} (xs : List A) (i : ℕ) → length xs ≤ i → get_elem? xs i ≡ none
get_elem?-past [] i h = refl
get_elem?-past (x ∷ xs) zero h = absurd (omega arith)
get_elem?-past (x ∷ xs) (suc i) h = get_elem?-past xs i (omega arith)

file_at-none :
    (fd : ℕ) (files : List FileObject)
    → (fd ≡ 0) ⊎ (length files ≤ fd)
    → file_at (pos fd) files ≡ none
unfolding file_at
file_at-none zero files h = refl
file_at-none (suc fd) files (inl e) = absurd (omega arith)
file_at-none (suc fd) files (inr past) = rw (file_at, get_elem?-past files (suc fd) past) refl

-- For a process with a table: with descriptor 0, or one that is not below the number of the objects
-- of the table, `rd_read`, `rd_write` and `rd_lseek` return `ERROR`, read no byte and change
-- nothing, whatever the other arguments are.
pub refused_descriptor :
    (env : Env) (s : Fs) (t : ℕ) (fdt : Fdt) (fd : ℕ) (input : List ℕ) (num_bytes position : ℤ)
    → find_pid env.pid s.fdts 0 ≡ some t
    → get_elem? s.fdts t ≡ some fdt
    → (fd ≡ 0) ⊎ (length fdt.files ≤ fd)
    → (rd_read env (pos fd) num_bytes s ≡ done (none, []) s)
      × (rd_write env (pos fd) input s ≡ done none s)
      × (rd_lseek env (pos fd) position s ≡ done none s)
unfolding rd_read rd_write rd_lseek read_at write_at seek_at
refused_descriptor env s t fdt fd input num_bytes position own table out =
    let current = current_fdt_lem env s t own in
    let loaded = load_fdt_lem s t fdt table in
    let missing = file_at-none fd fdt.files out in
    (
      rw (current, loaded) (rw missing refl),
      rw (current, loaded) (rw missing refl),
      rw (current, loaded) (rw missing refl),
    )
