-- ===== src/Fifos/Preempt/Halts.antt =====
-- FIFOS-2 comes to its end where the timer does not strike between the change of `currentThread` and the
-- call of `switch_to` behind it.
use cs552operating_system.Base.{
  ℕ, zero, suc, ◌≤◌, ◌<◌, ◌≡◌, ◌≢◌, refl, sym, ap, ◌∙◌, Bool, true, false, ◌&&◌, some, List, [],
  ◌∷◌, ◌==◌, update, pos, arith, inl, inr, Bool-cases, Option-cases, ==→eq,
}
use mathlib.Core.Path.{subst}
use cs552operating_system.Fifos.Thread.{Tcb, thread_max}
use cs552operating_system.Fifos.Scheduler.{Line, is_ready, next_thread}
use cs552operating_system.Fifos.Preempt.{
  Pc, loop, enter, locked, message, mark_finished, mark_unassigned, pick, store, switch, behind,
  Context, Status, running, halted, crashed, System, switch_to, preempt, timer, at_pc, picked,
  execute, Event, statement, interrupt, happen, step, run, new_context, started,
}
use cs552operating_system.Fifos.Preempt.Safety.{IsRunning, IsSafe, next_thread-lt, step-IsSafe}
use cs552operating_system.Fifos.Preempt.Left.{left_system, is_running, statements}
use cs552operating_system.Fifos.Preempt.Stops.{run-stops}
use cs552operating_system.Fifos.Preempt.Sound.{
  is_spared, all_spared, IsResumable, IsOutcome, IsSoundAt, IsSound, goes_on, apart,
  IsResumable-update, resume-IsSound, is_ready-IsBody, is_spared-Elsewhere, next_thread-is_ready,
  finish_system-IsSound,
}

timer-IsSound :
    (s : System)
    → s.status ≡ running
    → s.cpu.flag ≡ true
    → is_spared interrupt s.cpu.pc ≡ true
    → IsSafe s
    → IsSound s
    → IsSound (timer s)
unfolding timer preempt switch_to
timer-IsSound s e enabled spared safe v =
    elim (Option-cases (next_thread thread_max s.tcb (pos s.current) 1)) [
      | inl nothing ↦ rw nothing (finish_system-IsSound s.cpu.pc s safe.block refl nothing v)
      | inr (next, found) ↦
          let set = next_thread-is_ready s next safe.block found in
          let small = next_thread-lt s.tcb s.current next safe.block found in
          let allowed : IsRunning s.cpu.pc true = subst (IsRunning s.cpu.pc) enabled safe.cpu in
          let left_behind : Context = record (s.cpu) { flag = false } in
          let saved = update s.saved s.current (some left_behind) in
          let resumable : (i : ℕ) → i < 3 → is_ready (s.tcb i) ≡ true → IsResumable (saved i) =
            λ i low ready. elim (Bool-cases (i == s.current)) [
              | inl same ↦
                  let here = ==→eq i s.current same in
                  rw same (
                    is_ready-IsBody s.tcb s.current s.cpu.pc spared allowed v.place
                      (sym (ap (λ k. is_ready (s.tcb k)) here) ∙ ready))
              | inr other ↦
                  let away : i ≢ s.current = ground (arith, other) in
                  rw other
                    (v.waiting i low ready (is_spared-Elsewhere i s.current s.cpu.pc spared away))
            ] in
          rw found (
            resume-IsSound (saved next) next (record s { current = next; saved = saved }) e refl
              (resumable next small set) (λ i low ready away. resumable i low ready))
    ]

-- A change of the block of the running thread that clears its readiness.
pub cleared_waiting :
    (tcb : ℕ → Tcb) (current i : ℕ) (t : Tcb)
    → i ≢ current
    → is_ready (update tcb current t i) ≡ true
    → is_ready (tcb i) ≡ true
cleared_waiting tcb current i t away set =
    let miss : (i == current) ≡ false = ground (arith, away) in rw miss at set

cleared_place :
    (tcb : ℕ → Tcb) (current : ℕ) (t : Tcb)
    → is_ready t ≡ false
    → is_ready (update tcb current t current) ≡ false
cleared_place tcb current t clear =
    let hit : (current == current) ≡ true = ground arith in rw hit clear

switch-IsSound :
    (temp next : ℕ) (s : System)
    → s.status ≡ running
    → next < 3
    → IsSoundAt (switch temp next) s
    → IsSound (execute (switch temp next) s)
unfolding execute switch_to
switch-IsSound temp next s e small v =
    let gone : Context = record (s.cpu) { pc = behind } in
    let saved = update s.saved temp (some gone) in
    let (clear, set, same) = v.place in
    let resumable : (i : ℕ) → i < 3 → is_ready (s.tcb i) ≡ true → IsResumable (saved i) =
      λ i low ready.
        IsResumable-update s.saved i temp (some gone) (apart s.tcb i temp ready clear)
          (v.waiting i low ready tt) in
    resume-IsSound (saved next) next (record s { saved = saved }) e same (resumable next small set)
      (λ i low ready away. resumable i low ready)

execute-IsSound :
    (pc : Pc) (s : System)
    → s.status ≡ running
    → s.cpu.pc ≡ pc
    → s.current < 3
    → IsRunning pc s.cpu.flag
    → IsSoundAt pc s
    → IsSound (execute pc s)
unfolding execute at_pc picked
execute-IsSound (loop zero) s e at block h v = record {
  place = tt;
  waiting = v.waiting;
  outcome = v.outcome;
}
execute-IsSound (loop (suc n)) s e at block h v = record {
  place = tt;
  waiting = v.waiting;
  outcome = v.outcome;
}
execute-IsSound (enter n) s e at block h v = record {
  place = tt;
  waiting = v.waiting;
  outcome = v.outcome;
}
execute-IsSound (locked n) s e at block h v = record {
  place = tt;
  waiting = v.waiting;
  outcome = v.outcome;
}
execute-IsSound message s e at block h v = record {
  place = tt;
  waiting = v.waiting;
  outcome = v.outcome;
}
execute-IsSound mark_finished s e at block h v = record {
  place = cleared_place s.tcb s.current _ (ground arith);
  waiting = λ i low set away. v.waiting i low (cleared_waiting s.tcb s.current i _ away set) away;
  outcome = goes_on s.status _ e;
}
execute-IsSound mark_unassigned s e at block h v = record {
  place = cleared_place s.tcb s.current _ (ground arith);
  waiting = λ i low set away. v.waiting i low (cleared_waiting s.tcb s.current i _ away set) away;
  outcome = goes_on s.status _ e;
}
execute-IsSound pick s e at block h v =
    elim (Option-cases (next_thread thread_max s.tcb (pos s.current) 1)) [
      | inl nothing ↦ rw nothing (finish_system-IsSound pick s block at nothing v)
      | inr (next, found) ↦ rw found (record {
        place = (v.place, next_thread-is_ready s next block found);
        waiting = v.waiting;
        outcome = v.outcome;
      })
    ]
execute-IsSound (store next) s e at block h v = record {
  place = (v.place.0, v.place.1, refl);
  waiting = λ i low set elsewhere. v.waiting i low set (apart s.tcb i s.current set v.place.0);
  outcome = v.outcome;
}
execute-IsSound (switch temp next) s e at block h v = switch-IsSound temp next s e h.1 v
execute-IsSound behind s e at block h v = absurd v.place

pub happen-IsSound :
    (e : Event) (status : Status) (flag : Bool) (s : System)
    → s.status ≡ status
    → s.cpu.flag ≡ flag
    → is_spared e s.cpu.pc ≡ true
    → IsSafe s
    → IsSound s
    → IsSound (happen e status flag s)
unfolding happen
happen-IsSound statement running flag s e same spared safe v =
    execute-IsSound s.cpu.pc s e refl safe.block safe.cpu v
happen-IsSound interrupt running true s e same spared safe v = timer-IsSound s e same spared safe v
happen-IsSound interrupt running false s e same spared safe v = v
happen-IsSound statement halted flag s e same spared safe v = v
happen-IsSound interrupt halted flag s e same spared safe v = v
happen-IsSound statement crashed flag s e same spared safe v = v
happen-IsSound interrupt crashed flag s e same spared safe v = v

pub and_left : (a b : Bool) → a && b ≡ true → a ≡ true
and_left true b h = refl
and_left false b h = h

pub and_right : (a b : Bool) → a && b ≡ true → b ≡ true
and_right true b h = h
and_right false b h = cc

run-IsSound :
    (es : List Event) (s : System)
    → all_spared es s ≡ true
    → IsSafe s
    → IsSound s
    → IsSound (run es s)
unfolding run all_spared
run-IsSound [] s spared safe v = v
run-IsSound (e ∷ es) s spared safe v =
    run-IsSound es (step e s) (and_right (is_spared e s.cpu.pc) _ spared) (step-IsSafe e s safe) (
      unfold step in
      happen-IsSound e s.status s.cpu.flag s refl refl (and_left (is_spared e s.cpu.pc) _ spared)
        safe v)

halted_outcome :
    (status : Status) (tcb : ℕ → Tcb)
    → is_running status ≡ false
    → IsOutcome status tcb
    → (status ≡ halted) × ((t : ℕ) → t < 3 → is_ready (tcb t) ≡ false)
unfolding is_running
halted_outcome running tcb stopped h = cc
halted_outcome halted tcb stopped h = (refl, h)
halted_outcome crashed tcb stopped h = absurd h

-- FIFOS-2, from a state such as the one after the first interrupt, where every other ready thread has a
-- context in its function: in any order of statements and interrupts, with the timer never striking
-- between the change of `currentThread` and the `switch_to` behind it, once `left_system s` statements
-- have run, the machine has come to its end, `system_finish`, with no context lost on the way, and no
-- thread is ready.
pub run-halts :
    (es : List Event) (s : System)
    → IsSafe s
    → IsSound s
    → all_spared es s ≡ true
    → left_system s ≤ statements es
    → ((run es s).status ≡ halted) × ((t : ℕ) → t < 3 → is_ready ((run es s).tcb t) ≡ false)
run-halts es s safe sound spared enough =
    halted_outcome (run es s).status (run es s).tcb (run-stops es s safe enough)
      (run-IsSound es s spared safe sound).outcome

pub started-IsSound :
    (rounds : ℕ → ℕ) (tcb : ℕ → Tcb) (output : List Line) → IsSound (started rounds tcb output)
unfolding started new_context
started-IsSound rounds tcb output = record { place = tt; waiting = waiting; outcome = tt }
  where
    waiting :
        (i : ℕ)
        → i < 3
        → is_ready (tcb i) ≡ true
        → i ≢ 0
        → IsResumable ((started rounds tcb output).saved i)
    waiting zero low set away = absurd (away refl)
    waiting (suc zero) low set away = tt
    waiting (suc (suc zero)) low set away = tt
    waiting (suc (suc (suc i))) low set away = absurd (omega arith)
