-- ===== src/Fifos/Preempt/Exact.antt =====
-- What each thread of FIFOS-2 has printed of its tags, where the timer does not strike between the change
-- of `currentThread` and the call of `switch_to` behind it.
use cs552operating_system.Base.{
  ℕ, ◌+◌, ◌<◌, ◌≡◌, ◌≢◌, sym, ◌∙◌, true, false, Option, none, some, List, [], ◌∷◌, ◌++◌, ◌==◌,
  update, arith,
}
use mathlib.Core.Path.{subst}
use cs552operating_system.Fifos.Thread.{Tcb}
use cs552operating_system.Fifos.Scheduler.{Line, is_ready}
use cs552operating_system.Fifos.Scheduler.Progress.{count_tag}
use cs552operating_system.Fifos.Preempt.{
  Pc, loop, enter, locked, message, mark_finished, mark_unassigned, pick, store, switch, behind,
  Context, System, resume,
}
use cs552operating_system.Fifos.Preempt.Tags.{rounds_left}
use cs552operating_system.Fifos.Preempt.Sound.{IsBody, IsResumable, Elsewhere, IsBody-Elsewhere}

-- The thread at a statement, but for `switch_to`, is the current one.
abbrev pub IsOwner : ℕ → ℕ → Pc → Type 0
IsOwner owner current (switch temp next) = Unit
IsOwner owner current _ = owner ≡ current

module _ (total : ℕ → ℕ) where
  -- Thread `i` has printed its tag as often as it has rounds, less those that are left at `pc`.
  abbrev pub Counts : ℕ → List Line → Pc → Type 0
  Counts i output pc = count_tag (i + 1) output + rounds_left pc ≡ total i

  -- What a thread still in its function has printed.
  abbrev pub IsHere : (ℕ → Tcb) → ℕ → List Line → Pc → Type 0
  IsHere tcb current output mark_unassigned = Unit
  IsHere tcb current output pick = Unit
  IsHere tcb current output (store next) = Unit
  IsHere tcb current output (switch temp next) = Unit
  IsHere tcb current output behind = Unit
  IsHere tcb current output pc = (is_ready (tcb current) ≡ true) × Counts current output pc

  abbrev pub IsAway : ℕ → List Line → Option Context → Type 0
  IsAway i output none = ⊥
  IsAway i output (some c) = (c.owner ≡ i) × Counts i output c.pc

  pub record IsExactAt (pc : Pc) (s : System) : Type 0 where
    pub owner : IsOwner s.cpu.owner s.current pc
    pub here : IsHere s.tcb s.current s.output pc
    pub away :
        (i : ℕ)
        → i < 3
        → is_ready (s.tcb i) ≡ true
        → Elsewhere i s.current pc
        → IsAway i s.output (s.saved i)
    pub over : (i : ℕ) → i < 3 → is_ready (s.tcb i) ≡ false → count_tag (i + 1) s.output ≡ total i

  abbrev pub IsExact : System → Type 0
  IsExact s = IsExactAt s.cpu.pc s

  current-IsOwner : (owner current : ℕ) (pc : Pc) → owner ≡ current → IsOwner owner current pc
  current-IsOwner owner current (switch temp next) e = tt
  current-IsOwner owner current (loop n) e = e
  current-IsOwner owner current (enter n) e = e
  current-IsOwner owner current (locked n) e = e
  current-IsOwner owner current message e = e
  current-IsOwner owner current mark_finished e = e
  current-IsOwner owner current mark_unassigned e = e
  current-IsOwner owner current pick e = e
  current-IsOwner owner current (store next) e = e
  current-IsOwner owner current behind e = e

  is_ready-IsHere :
      (tcb : ℕ → Tcb) (current : ℕ) (output : List Line) (pc : Pc)
      → is_ready (tcb current) ≡ true
      → Counts current output pc
      → IsHere tcb current output pc
  is_ready-IsHere tcb current output (switch temp next) set k = tt
  is_ready-IsHere tcb current output (loop n) set k = (set, k)
  is_ready-IsHere tcb current output (enter n) set k = (set, k)
  is_ready-IsHere tcb current output (locked n) set k = (set, k)
  is_ready-IsHere tcb current output message set k = (set, k)
  is_ready-IsHere tcb current output mark_finished set k = (set, k)
  is_ready-IsHere tcb current output mark_unassigned set k = tt
  is_ready-IsHere tcb current output pick set k = tt
  is_ready-IsHere tcb current output (store next) set k = tt
  is_ready-IsHere tcb current output behind set k = tt

  IsHere-Counts :
      (tcb : ℕ → Tcb) (current : ℕ) (output : List Line) (pc : Pc)
      → IsBody pc
      → IsHere tcb current output pc
      → Counts current output pc
  IsHere-Counts tcb current output (loop n) b h = h.1
  IsHere-Counts tcb current output (enter n) b h = h.1
  IsHere-Counts tcb current output message b h = h.1
  IsHere-Counts tcb current output mark_finished b h = h.1
  IsHere-Counts tcb current output (locked n) b h = absurd b
  IsHere-Counts tcb current output mark_unassigned b h = absurd b
  IsHere-Counts tcb current output pick b h = absurd b
  IsHere-Counts tcb current output (store next) b h = absurd b
  IsHere-Counts tcb current output (switch temp next) b h = absurd b
  IsHere-Counts tcb current output behind b h = absurd b

  IsBody-IsOwner :
      (owner current : ℕ) (pc : Pc) → IsBody pc → IsOwner owner current pc → owner ≡ current
  IsBody-IsOwner owner current (loop n) b h = h
  IsBody-IsOwner owner current (enter n) b h = h
  IsBody-IsOwner owner current message b h = h
  IsBody-IsOwner owner current mark_finished b h = h
  IsBody-IsOwner owner current (locked n) b h = h
  IsBody-IsOwner owner current mark_unassigned b h = h
  IsBody-IsOwner owner current pick b h = h
  IsBody-IsOwner owner current (store next) b h = h
  IsBody-IsOwner owner current (switch temp next) b h = absurd b
  IsBody-IsOwner owner current behind b h = h

  -- A line that is no tag of the thread changes nothing for it.
  pub IsHere-append :
      (tcb : ℕ → Tcb) (current : ℕ) (output : List Line) (l : Line) (pc : Pc)
      → count_tag (current + 1) (output ++ (l ∷ [])) ≡ count_tag (current + 1) output
      → IsHere tcb current output pc
      → IsHere tcb current (output ++ (l ∷ [])) pc
  IsHere-append tcb current output l (loop n) same h = (h.0, omega (arith, same, h.1))
  IsHere-append tcb current output l (enter n) same h = (h.0, omega (arith, same, h.1))
  IsHere-append tcb current output l (locked n) same h = (h.0, omega (arith, same, h.1))
  IsHere-append tcb current output l message same h = (h.0, omega (arith, same, h.1))
  IsHere-append tcb current output l mark_finished same h = (h.0, omega (arith, same, h.1))
  IsHere-append tcb current output l mark_unassigned same h = tt
  IsHere-append tcb current output l pick same h = tt
  IsHere-append tcb current output l (store next) same h = tt
  IsHere-append tcb current output l (switch temp next) same h = tt
  IsHere-append tcb current output l behind same h = tt

  pub IsAway-append :
      (i : ℕ) (output : List Line) (l : Line) (o : Option Context)
      → count_tag (i + 1) (output ++ (l ∷ [])) ≡ count_tag (i + 1) output
      → IsAway i output o
      → IsAway i (output ++ (l ∷ [])) o
  IsAway-append i output l none same h = absurd h
  IsAway-append i output l (some c) same h = (h.0, omega (arith, same, h.1))

  pub IsBody-IsAway :
      (i owner current : ℕ) (tcb : ℕ → Tcb) (output : List Line) (pc : Pc)
      → i ≡ current
      → IsBody pc
      → IsOwner owner current pc
      → IsHere tcb current output pc
      → (owner ≡ i) × Counts i output pc
  IsBody-IsAway i owner current tcb output pc e b own h = (
    IsBody-IsOwner owner current pc b own ∙ sym e,
    subst (λ k. Counts k output pc) (sym e) (IsHere-Counts tcb current output pc b h),
  )

  pub IsAway-update :
      (output : List Line) (saved : ℕ → Option Context) (i j : ℕ) (o : Option Context)
      → i ≢ j
      → IsAway i output (saved i)
      → IsAway i output (update saved j o i)
  IsAway-update output saved i j o other h =
      let miss : (i == j) ≡ false = ground (arith, other) in rw miss h

  pub resume-IsExact :
      (o : Option Context) (next : ℕ) (s : System)
      → s.current ≡ next
      → IsResumable o
      → is_ready (s.tcb next) ≡ true
      → IsAway next s.output o
      → ((i : ℕ) → i < 3 → is_ready (s.tcb i) ≡ true → i ≢ next → IsAway i s.output (s.saved i))
      → ((i : ℕ) → i < 3 → is_ready (s.tcb i) ≡ false → count_tag (i + 1) s.output ≡ total i)
      → IsExact (resume o next s)
  unfolding resume
  resume-IsExact none next s same b set h others over = absurd h
  resume-IsExact (some c) next s same b set h others over = record {
    owner = current-IsOwner c.owner s.current c.pc (h.0 ∙ sym same);
    here = rw same (is_ready-IsHere s.tcb next s.output c.pc set h.1);
    away = λ i low ready elsewhere.
        let other : i ≢ next = λ k. IsBody-Elsewhere i s.current c.pc b elsewhere (k ∙ sym same) in
        IsAway-update s.output s.saved i next none other (others i low ready other);
    over = over;
  }
