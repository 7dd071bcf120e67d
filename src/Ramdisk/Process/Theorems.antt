-- ===== src/Ramdisk/Process/Theorems.antt =====
-- What `get_FDT` gives the calling process.
use cs552operating_system.Base.{
  ℕ, ◌≡◌, ◌≢◌, refl, true, Option, none, some, [], ◌∷◌, ◌++◌, arith, length, get_elem?,
  Option-cases, inl, inr, codes, ◌∙◌, ap,
}
use cs552operating_system.Ramdisk.Store.{Fdt, Fs, Env, done}
use cs552operating_system.Ramdisk.Process.{root_object, find_fdt, serve_fdt, get_fdt}
use cs552operating_system.Ramdisk.Process.Tables.{
  find_pid, last_of, find_fdt-current, find_fdt-parent, find_pid-get, find_pid-append, Holds,
  AllHold, last_of-Holds, AllHold-append, Distinct, Distinct-append, has_pid_of_none,
  get_elem?-append_end,
}

-- The table of a process seen for the first time: its parent's under its own number, or one at the
-- root folder.
unfoldable pub first_table : Env → Option Fdt → Fdt
first_table env none = record { pid = env.pid; files = root_object ∷ []; cur_path = codes "/" }
first_table env (some p) = record p { pid = env.pid }

abbrev pub with_table : Fs → Fdt → Fs
with_table s f = record s { fdts = s.fdts ++ (f ∷ []) }

-- The single pass of `get_FDT` in terms of the two searches.
get_fdt-serve :
    (env : Env) (s : Fs) (current : Option ℕ)
    → find_pid env.pid s.fdts 0 ≡ current
    → get_fdt env s ≡ serve_fdt env current (find_fdt env.pid env.ppid s.fdts 0 none).1 s
unfolding get_fdt
get_fdt-serve env s current h =
    ap (λ c. serve_fdt env c (find_fdt env.pid env.ppid s.fdts 0 none).1 s)
      (find_fdt-current env.pid env.ppid s.fdts 0 none ∙ h)

pub get_fdt-found :
    (env : Env) (s : Fs) (i : ℕ)
    → find_pid env.pid s.fdts 0 ≡ some i
    → get_fdt env s ≡ done (some i) s
get_fdt-found env s i h = get_fdt-serve env s (some i) h ∙ unfold serve_fdt in refl

serve_fdt-first :
    (env : Env) (p : Option Fdt) (s : Fs)
    → env.vmalloc ≡ true
    → Holds p
    → serve_fdt env none p s ≡ done (some (length s.fdts)) (with_table s (first_table env p))
serve_fdt-first env none s m h = unfold serve_fdt first_table in rw m refl
serve_fdt-first env (some p) s m h = unfold serve_fdt first_table in ground arith

-- A process without a table, when the kernel has memory, gets one at the end of the list: a copy of
-- the last table of its parent, with its open files and its folder, or the root folder's where the
-- parent has none.
get_fdt-first :
    (env : Env) (s : Fs)
    → env.vmalloc ≡ true
    → AllHold s.fdts
    → find_pid env.pid s.fdts 0 ≡ none
    → get_fdt env s
      ≡ done (some (length s.fdts)) (with_table s (first_table env (last_of env.ppid s.fdts none)))
get_fdt-first env s m a h =
    get_fdt-serve env s none h
    ∙ rw (find_fdt-parent env.pid env.ppid s.fdts 0 none h)
        (serve_fdt-first env _ s m (last_of-Holds env.ppid s.fdts none a tt))

-- The table of a process, wherever `get_FDT` finds it.
record Served (env : Env) (i : ℕ) (s' : Fs) : Type 0 where
  table : Fdt
  placed : get_elem? s'.fdts i ≡ some table
  own : table.pid ≡ env.pid
  again : get_fdt env s' ≡ done (some i) s'
  distinct : Distinct s'.fdts
  hold : AllHold s'.fdts

first_table-pid : (env : Env) (p : Option Fdt) → (first_table env p).pid ≡ env.pid
unfolding first_table
first_table-pid env none = refl
first_table-pid env (some p) = refl

first_table-hold : (env : Env) (p : Option Fdt) → Holds p → (first_table env p).files ≢ []
unfolding first_table
first_table-hold env none h = ground arith
first_table-hold env (some p) h = h

found-Served :
    (env : Env) (s : Fs) (i : ℕ)
    → Distinct s.fdts
    → AllHold s.fdts
    → find_pid env.pid s.fdts 0 ≡ some i
    → Served env i s
found-Served env s i d a h =
    let (j, f, e, at, own) = find_pid-get env.pid s.fdts 0 i h in
    let same : i ≡ j = omega arith in
    record {
      table = f;
      placed = rw same at;
      own = own;
      again = get_fdt-found env s i h;
      distinct = d;
      hold = a;
    }

first-Served :
    (env : Env) (s : Fs)
    → Distinct s.fdts
    → AllHold s.fdts
    → find_pid env.pid s.fdts 0 ≡ none
    → Served env (length s.fdts) (with_table s (first_table env (last_of env.ppid s.fdts none)))
first-Served env s d a h =
    let g = first_table env (last_of env.ppid s.fdts none) in
    let own = first_table-pid env (last_of env.ppid s.fdts none) in
    let held = first_table-hold env _ (last_of-Holds env.ppid s.fdts none a tt) in
    record {
      table = g;
      placed = get_elem?-append_end s.fdts g;
      own = own;
      again =
          get_fdt-found env (with_table s g) (length s.fdts)
            (find_pid-append env.pid s.fdts g 0 h own ∙ ap some (omega arith));
      distinct = Distinct-append s.fdts g d (rw own (has_pid_of_none env.pid s.fdts 0 h));
      hold = AllHold-append s.fdts g a held;
    }

-- With memory, and tables that are one for each process and hold an object each, `get_FDT` returns
-- the place of a table of the calling process; a second call returns the same place and changes
-- nothing; and the tables are still one for each process, with an object each.
pub get_fdt-Served :
    (env : Env) (s : Fs)
    → env.vmalloc ≡ true
    → Distinct s.fdts
    → AllHold s.fdts
    → (i : ℕ) × (s' : Fs) × (f : Fdt) × (get_fdt env s ≡ done (some i) s')
      × (get_elem? s'.fdts i ≡ some f)
      × (f.pid ≡ env.pid)
      × (get_fdt env s' ≡ done (some i) s')
      × Distinct s'.fdts
      × AllHold s'.fdts
get_fdt-Served env s m d a = elim (Option-cases (find_pid env.pid s.fdts 0)) [
  | inl h ↦ unpack (get_fdt-first env s m a h) (first-Served env s d a h)
  | inr (i, h) ↦ unpack (get_fdt-found env s i h) (found-Served env s i d a h)
]
  where
    unpack :
        {i : ℕ} {s' : Fs}
        → get_fdt env s ≡ done (some i) s'
        → Served env i s'
        → (i : ℕ) × (s' : Fs) × (f : Fdt) × (get_fdt env s ≡ done (some i) s')
          × (get_elem? s'.fdts i ≡ some f)
          × (f.pid ≡ env.pid)
          × (get_fdt env s' ≡ done (some i) s')
          × Distinct s'.fdts
          × AllHold s'.fdts
    unpack {i} {s'} e v = (i, s', v.table, e, v.placed, v.own, v.again, v.distinct, v.hold)
