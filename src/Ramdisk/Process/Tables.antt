-- ===== src/Ramdisk/Process/Tables.antt =====
-- The table that `get_FDT` returns.
use cs552operating_system.Base.{
  ℕ, suc, ◌+◌, ◌≡◌, ◌≢◌, ◌⊎◌, refl, Bool, true, ◌||◌, Option, none, some, List, [], ◌∷◌, ◌++◌,
  arith, ◌==◌, if◌then◌else◌, length, get_elem?, ==→eq, Bool-cases, inl, inr,
}
use cs552operating_system.Ramdisk.Store.{Fdt}
use cs552operating_system.Ramdisk.Process.{find_fdt}

-- The table with a process's number, and its place counted from `i`.
unfoldable pub find_pid : ℕ → List Fdt → ℕ → Option ℕ
find_pid pid [] i = none
find_pid pid (f ∷ fs) i = if f.pid == pid then some i else find_pid pid fs (i + 1)

-- The last table of a process, or the one given.
unfoldable pub last_of : ℕ → List Fdt → Option Fdt → Option Fdt
last_of pid [] last = last
last_of pid (f ∷ fs) last = last_of pid fs (if f.pid == pid then some f else last)

-- The single pass of `get_FDT` is the two searches.
pub find_fdt-current :
    (cpid ppid : ℕ) (fs : List Fdt) (i : ℕ) (p : Option Fdt)
    → (find_fdt cpid ppid fs i p).0 ≡ find_pid cpid fs i
unfolding find_fdt find_pid
find_fdt-current cpid ppid [] i p = refl
find_fdt-current cpid ppid (f ∷ fs) i p =
    ground (arith, find_fdt-current cpid ppid fs (i + 1) (if f.pid == ppid then some f else p))

pub find_fdt-parent :
    (cpid ppid : ℕ) (fs : List Fdt) (i : ℕ) (p : Option Fdt)
    → find_pid cpid fs i ≡ none
    → (find_fdt cpid ppid fs i p).1 ≡ last_of ppid fs p
unfolding find_fdt find_pid last_of
find_fdt-parent cpid ppid [] i p h = refl
find_fdt-parent cpid ppid (f ∷ fs) i p h =
    ground (arith, find_fdt-parent cpid ppid fs (i + 1) (if f.pid == ppid then some f else p))

-- What stands at a place of the list with a table behind it.
pub get_elem?-append_end {ℓ} :
    {A : Type ℓ} (xs : List A) (x : A) → get_elem? (xs ++ (x ∷ [])) (length xs) ≡ some x
get_elem?-append_end [] x = refl
get_elem?-append_end (y ∷ xs) x = get_elem?-append_end xs x

-- The place found is offset by the start.
pub find_pid-get :
    (pid : ℕ) (fs : List Fdt) (i k : ℕ)
    → find_pid pid fs i ≡ some k
    → (j : ℕ) × (f : Fdt) × (k ≡ i + j) × (get_elem? fs j ≡ some f) × (f.pid ≡ pid)
unfolding find_pid
find_pid-get pid [] i k h = cc
find_pid-get pid (f ∷ fs) i k h = elim (Bool-cases (f.pid == pid)) [
  | inl hit ↦ (0, f, ground arith, refl, ==→eq _ _ hit)
  | inr miss ↦
      let (j, g, e, at, is) = find_pid-get pid fs (i + 1) k (rw miss at h) in
      (suc j, g, omega arith, at, is)
]

pub find_pid-append :
    (pid : ℕ) (fs : List Fdt) (g : Fdt) (i : ℕ)
    → find_pid pid fs i ≡ none
    → g.pid ≡ pid
    → find_pid pid (fs ++ (g ∷ [])) i ≡ some (i + length fs)
unfolding find_pid
find_pid-append pid [] g i h e = ground arith
find_pid-append pid (f ∷ fs) g i h e = ground (arith, find_pid-append pid fs g (i + 1))

-- Every table holds at least the object of its current folder.
abbrev pub AllHold : List Fdt → Type 0
AllHold [] = Unit
AllHold (f ∷ fs) = (f.files ≢ []) × AllHold fs

abbrev pub has_pid : ℕ → List Fdt → Bool
has_pid pid [] = Bool.false
has_pid pid (f ∷ fs) = (f.pid == pid) || has_pid pid fs

-- No process has two tables.
abbrev pub Distinct : List Fdt → Type 0
Distinct [] = Unit
Distinct (f ∷ fs) = (has_pid f.pid fs ≡ Bool.false) × Distinct fs

pub has_pid_of_none :
    (pid : ℕ) (fs : List Fdt) (i : ℕ) → find_pid pid fs i ≡ none → has_pid pid fs ≡ Bool.false
unfolding find_pid
has_pid_of_none pid [] i h = refl
has_pid_of_none pid (f ∷ fs) i h = ground (arith, has_pid_of_none pid fs (i + 1))

has_pid-append :
    (pid : ℕ) (fs : List Fdt) (g : Fdt)
    → has_pid pid fs ≡ Bool.false
    → g.pid ≢ pid
    → has_pid pid (fs ++ (g ∷ [])) ≡ Bool.false
has_pid-append pid [] g h ne = ground arith
has_pid-append pid (f ∷ fs) g h ne = ground (arith, has_pid-append pid fs g)

pub Distinct-append :
    (fs : List Fdt) (g : Fdt)
    → Distinct fs
    → has_pid g.pid fs ≡ Bool.false
    → Distinct (fs ++ (g ∷ []))
Distinct-append [] g d h = (refl, tt)
Distinct-append (f ∷ fs) g d h =
    (has_pid-append f.pid fs g d.0 (ground arith), Distinct-append fs g d.1 (ground arith))

pub AllHold-append :
    (fs : List Fdt) (g : Fdt) → AllHold fs → g.files ≢ [] → AllHold (fs ++ (g ∷ []))
AllHold-append [] g a h = (h, tt)
AllHold-append (f ∷ fs) g a h = (a.0, AllHold-append fs g a.1 h)

abbrev pub Holds : Option Fdt → Type 0
Holds none = Unit
Holds (some f) = f.files ≢ []

pub last_of-Holds :
    (pid : ℕ) (fs : List Fdt) (p : Option Fdt) → AllHold fs → Holds p → Holds (last_of pid fs p)
unfolding last_of
last_of-Holds pid [] p a h = h
last_of-Holds pid (f ∷ fs) p a h = last_of-Holds pid fs _ a.1 (hold (Bool-cases (f.pid == pid)))
  where
    hold :
        ((f.pid == pid) ≡ true) ⊎ ((f.pid == pid) ≡ Bool.false)
        → Holds (if f.pid == pid then some f else p)
    hold (inl e) = rw e a.0
    hold (inr e) = rw e h
