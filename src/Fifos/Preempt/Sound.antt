-- ===== src/Fifos/Preempt/Sound.antt =====
-- The blocks and the saved contexts of FIFOS-2, where the timer does not strike between the change of
-- `currentThread` and the call of `switch_to` behind it.
use cs552operating_system.Base.{
  ℕ, ◌<◌, ◌≡◌, ◌≢◌, refl, sym, ap, ◌∙◌, Bool, true, false, ◌&&◌, Option, none, some, List, [], ◌∷◌,
  ◌==◌, update, pos, arith,
}
use mathlib.Core.Path.{subst}
use cs552operating_system.Fifos.Thread.{Tcb, thread_max}
use cs552operating_system.Fifos.Scheduler.{is_ready, next_thread}
use cs552operating_system.Fifos.Scheduler.Pick.{next_thread-fair}
use cs552operating_system.Fifos.Preempt.{
  Pc, loop, enter, locked, message, mark_finished, mark_unassigned, pick, store, switch, behind,
  Context, Status, running, halted, crashed, System, resume, finish_system, Event, statement,
  interrupt, step,
}
use cs552operating_system.Fifos.Preempt.Safety.{IsRunning}

-- The timer does not strike just before `switch_to`.
unfoldable pub is_spared : Event → Pc → Bool
is_spared interrupt (switch temp next) = false
is_spared interrupt _ = true
is_spared statement pc = true

unfoldable pub all_spared : List Event → System → Bool
unfolding is_spared
all_spared [] s = true
all_spared (e ∷ es) s = is_spared e s.cpu.pc && all_spared es (step e s)

-- A thread that `switch_to` may leave for: it goes on in its function.
abbrev pub IsBody : Pc → Type 0
IsBody (loop n) = Unit
IsBody (enter n) = Unit
IsBody message = Unit
IsBody mark_finished = Unit
IsBody _ = ⊥

abbrev pub IsResumable : Option Context → Type 0
IsResumable none = ⊥
IsResumable (some c) = IsBody c.pc

-- What holds of the blocks where the running thread stands at a statement.
abbrev pub IsPlace : (ℕ → Tcb) → ℕ → Pc → Type 0
IsPlace tcb current mark_unassigned = is_ready (tcb current) ≡ false
IsPlace tcb current pick = is_ready (tcb current) ≡ false
IsPlace tcb current (store next) = (is_ready (tcb current) ≡ false) × (is_ready (tcb next) ≡ true)
IsPlace tcb current (switch temp next) =
    (is_ready (tcb temp) ≡ false) × (is_ready (tcb next) ≡ true) × (current ≡ next)
IsPlace tcb current behind = ⊥
IsPlace tcb current _ = Unit

-- Thread `i` is not the one that runs.
abbrev pub Elsewhere : ℕ → ℕ → Pc → Type 0
Elsewhere i current (switch temp next) = Unit
Elsewhere i current _ = i ≢ current

abbrev pub IsOutcome : Status → (ℕ → Tcb) → Type 0
IsOutcome running tcb = Unit
IsOutcome halted tcb = (t : ℕ) → t < 3 → is_ready (tcb t) ≡ false
IsOutcome crashed tcb = ⊥

pub record IsSoundAt (pc : Pc) (s : System) : Type 0 where
  pub place : IsPlace s.tcb s.current pc
  pub waiting :
      (i : ℕ)
      → i < 3
      → is_ready (s.tcb i) ≡ true
      → Elsewhere i s.current pc
      → IsResumable (s.saved i)
  pub outcome : IsOutcome s.status s.tcb

abbrev pub IsSound : System → Type 0
IsSound s = IsSoundAt s.cpu.pc s

pub goes_on : (status : Status) (tcb : ℕ → Tcb) → status ≡ running → IsOutcome status tcb
goes_on status tcb e = rw e tt

pub apart : (tcb : ℕ → Tcb) (i j : ℕ) → is_ready (tcb i) ≡ true → is_ready (tcb j) ≡ false → i ≢ j
apart tcb i j set clear = λ e. absurd (truth (sym set ∙ ap (λ k. is_ready (tcb k)) e ∙ clear))
  where
    truth : true ≡ false → ⊥
    truth h = cc

IsBody-IsPlace : (tcb : ℕ → Tcb) (current : ℕ) (pc : Pc) → IsBody pc → IsPlace tcb current pc
IsBody-IsPlace tcb current (loop n) h = tt
IsBody-IsPlace tcb current (enter n) h = tt
IsBody-IsPlace tcb current message h = tt
IsBody-IsPlace tcb current mark_finished h = tt
IsBody-IsPlace tcb current (locked n) h = absurd h
IsBody-IsPlace tcb current mark_unassigned h = absurd h
IsBody-IsPlace tcb current pick h = absurd h
IsBody-IsPlace tcb current (store next) h = absurd h
IsBody-IsPlace tcb current (switch temp next) h = absurd h
IsBody-IsPlace tcb current behind h = absurd h

pub IsBody-Elsewhere : (i current : ℕ) (pc : Pc) → IsBody pc → Elsewhere i current pc → i ≢ current
IsBody-Elsewhere i current (loop n) h e = e
IsBody-Elsewhere i current (enter n) h e = e
IsBody-Elsewhere i current message h e = e
IsBody-Elsewhere i current mark_finished h e = e
IsBody-Elsewhere i current (locked n) h e = e
IsBody-Elsewhere i current mark_unassigned h e = e
IsBody-Elsewhere i current pick h e = e
IsBody-Elsewhere i current (store next) h e = e
IsBody-Elsewhere i current (switch temp next) h e = absurd h
IsBody-Elsewhere i current behind h e = absurd h

pub IsResumable-update :
    (saved : ℕ → Option Context) (i j : ℕ) (o : Option Context)
    → i ≢ j
    → IsResumable (saved i)
    → IsResumable (update saved j o i)
IsResumable-update saved i j o other h =
    let miss : (i == j) ≡ false = ground (arith, other) in rw miss h

pub resume-IsSound :
    (o : Option Context) (next : ℕ) (s : System)
    → s.status ≡ running
    → s.current ≡ next
    → IsResumable o
    → ((i : ℕ) → i < 3 → is_ready (s.tcb i) ≡ true → i ≢ next → IsResumable (s.saved i))
    → IsSound (resume o next s)
unfolding resume
resume-IsSound none next s e same h others = absurd h
resume-IsSound (some c) next s e same h others = record {
  place = IsBody-IsPlace s.tcb s.current c.pc h;
  waiting = λ i low ready elsewhere.
      let away : i ≢ next = λ k. IsBody-Elsewhere i s.current c.pc h elsewhere (k ∙ sym same) in
      IsResumable-update s.saved i next none away (others i low ready away);
  outcome = goes_on s.status s.tcb e;
}

-- Where the timer may strike, and the running thread is ready, it stands in its function.
pub is_ready-IsBody :
    (tcb : ℕ → Tcb) (current : ℕ) (pc : Pc)
    → is_spared interrupt pc ≡ true
    → IsRunning pc true
    → IsPlace tcb current pc
    → is_ready (tcb current) ≡ true
    → IsBody pc
unfolding is_spared
is_ready-IsBody tcb current (loop n) spared safe place set = tt
is_ready-IsBody tcb current (enter n) spared safe place set = tt
is_ready-IsBody tcb current message spared safe place set = tt
is_ready-IsBody tcb current mark_finished spared safe place set = tt
is_ready-IsBody tcb current (locked n) spared safe place set = cc
is_ready-IsBody tcb current mark_unassigned spared safe place set =
    absurd (apart tcb current current set place refl)
is_ready-IsBody tcb current pick spared safe place set =
    absurd (apart tcb current current set place refl)
is_ready-IsBody tcb current (store next) spared safe place set =
    absurd (apart tcb current current set place.0 refl)
is_ready-IsBody tcb current (switch temp next) spared safe place set = cc
is_ready-IsBody tcb current behind spared safe place set = absurd place

pub is_spared-Elsewhere :
    (i current : ℕ) (pc : Pc) → is_spared interrupt pc ≡ true → i ≢ current → Elsewhere i current pc
unfolding is_spared
is_spared-Elsewhere i current (loop n) spared away = away
is_spared-Elsewhere i current (enter n) spared away = away
is_spared-Elsewhere i current message spared away = away
is_spared-Elsewhere i current mark_finished spared away = away
is_spared-Elsewhere i current (locked n) spared away = away
is_spared-Elsewhere i current mark_unassigned spared away = away
is_spared-Elsewhere i current pick spared away = away
is_spared-Elsewhere i current (store next) spared away = away
is_spared-Elsewhere i current (switch temp next) spared away = tt
is_spared-Elsewhere i current behind spared away = away

-- `next_thread` gives a ready thread, or there is none.
pub next_thread-is_ready :
    (s : System) (next : ℕ)
    → s.current < 3
    → next_thread thread_max s.tcb (pos s.current) 1 ≡ some next
    → is_ready (s.tcb next) ≡ true
next_thread-is_ready s next block found =
    let (i, low, high, same, ready, earlier) =
      (next_thread-fair s.tcb s.current block).0 next found in
    ready

pub finish_system-IsSound :
    (pc : Pc) (s : System)
    → s.current < 3
    → s.cpu.pc ≡ pc
    → next_thread thread_max s.tcb (pos s.current) 1 ≡ none
    → IsSoundAt pc s
    → IsSound (finish_system s)
unfolding finish_system
finish_system-IsSound pc s block at nothing v =
    let w = subst (λ pc. IsSoundAt pc s) (sym at) v in
    record {
      place = w.place;
      waiting = w.waiting;
      outcome = (next_thread-fair s.tcb s.current block).1.0 nothing;
    }
