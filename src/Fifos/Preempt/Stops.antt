-- ===== src/Fifos/Preempt/Stops.antt =====
-- Every order of events uses up the statements that the threads have left.
use cs552operating_system.Base.{
  ℕ, zero, suc, ◌+◌, ◌-◌, ◌*◌, ◌≤◌, ◌<◌, ◌≡◌, refl, Bool, true, false, Option, none, some, List, [],
  ◌∷◌, update, pos, arith, inl, inr, Option-cases,
}
use cs552operating_system.Fifos.Thread.{thread_max}
use cs552operating_system.Fifos.Scheduler.{next_thread}
use cs552operating_system.Fifos.Preempt.{
  Pc, loop, enter, locked, message, mark_finished, mark_unassigned, pick, store, switch, behind,
  Context, Status, running, halted, crashed, System, resume, switch_to, finish_system, preempt,
  timer, at_pc, picked, execute, Event, statement, interrupt, happen, step, run,
}
use cs552operating_system.Fifos.Preempt.Safety.{IsRunning, IsSafe, next_thread-lt, step-IsSafe}
use cs552operating_system.Fifos.Preempt.Left.{
  left, left_saved, left_waiting, left_while, left_system, is_running, statements,
  left_waiting-update, left_while_le, at_most, stopped, none_left,
}

resume-left :
    (o : Option Context) (next : ℕ) (s : System)
    → s.saved next ≡ o
    → next < 3
    → left_system (resume o next s) ≤ suc (left_waiting s.saved)
unfolding resume left_system left_while left_saved
resume-left none next s e h = omega arith
resume-left (some c) next s e h =
    let same : left_saved (s.saved next) ≡ left c.pc = rw e refl in
    let moved = left_waiting-update s.saved next none h in
    let bound = left_while_le s.status (left c.pc + left_waiting (update s.saved next none)) in
    omega (arith, same, moved, bound)

switch_to-left :
    (temp next : ℕ) (c : Context) (s : System)
    → temp < 3
    → next < 3
    → left_system (switch_to temp next c s) ≤ suc (left c.pc + left_waiting s.saved)
unfolding switch_to left_saved
switch_to-left temp next c s low high =
    let saved = update s.saved temp (some c) in
    let moved = left_waiting-update s.saved temp (some c) low in
    let bound = resume-left (saved next) next (record s { saved = saved }) refl high in
    omega (arith, moved, bound)

timer-left :
    (s : System)
    → s.current < 3
    → left_system (timer s) ≤ suc (left s.cpu.pc + left_waiting s.saved)
unfolding timer preempt finish_system left_system left_while
timer-left s block = elim (Option-cases (next_thread thread_max s.tcb (pos s.current) 1)) [
  | inl nothing ↦ rw nothing (omega arith)
  | inr (next, found) ↦ rw found (
      switch_to-left s.current next (record (s.cpu) { flag = false }) (record s { current = next })
        block (next_thread-lt s.tcb s.current next block found))
]

execute-left :
    (pc : Pc) (s : System)
    → IsRunning pc s.cpu.flag
    → s.current < 3
    → left_system (execute pc s) ≤ left pc + left_waiting s.saved
unfolding execute at_pc picked finish_system left_system left left_while
execute-left (loop zero) s h block = at_most s.status 6 (left_waiting s.saved)
execute-left (loop (suc n)) s h block =
    let bound = at_most s.status (3 * n + 9) (left_waiting s.saved) in omega (arith, bound)
execute-left (enter n) s h block =
    let bound = at_most s.status (3 * n + 8) (left_waiting s.saved) in omega (arith, bound)
execute-left (locked n) s h block =
    let bound = at_most s.status (3 * n + 7) (left_waiting s.saved) in omega (arith, bound)
execute-left message s h block = at_most s.status 5 (left_waiting s.saved)
execute-left mark_finished s h block = at_most s.status 4 (left_waiting s.saved)
execute-left mark_unassigned s h block = at_most s.status 3 (left_waiting s.saved)
execute-left pick s h block = elim (Option-cases (next_thread thread_max s.tcb (pos s.current) 1)) [
  | inl nothing ↦ rw nothing (omega arith)
  | inr (next, found) ↦ rw found (at_most s.status 2 (left_waiting s.saved))
]
execute-left (store next) s h block = at_most s.status 1 (left_waiting s.saved)
execute-left (switch temp next) s h block =
    let bound = switch_to-left temp next (record (s.cpu) { pc = behind }) s h.0 h.1 in
    omega (arith, bound)
execute-left behind s h block = omega arith

left_running :
    (s : System) → s.status ≡ running → left_system s ≡ suc (left s.cpu.pc + left_waiting s.saved)
unfolding left_system left_while
left_running s e = rw e refl

left_stopped : (s : System) → is_running s.status ≡ false → left_system s ≡ 0
unfolding left_system
left_stopped s e = stopped s.status (left s.cpu.pc + left_waiting s.saved) e

happen-left :
    (e : Event) (status : Status) (flag : Bool) (s : System)
    → s.status ≡ status
    → IsSafe s
    → left_system (happen e status flag s) ≤ left_system s - statements (e ∷ [])
unfolding happen statements is_running
happen-left statement running flag s same v =
    let bound = execute-left s.cpu.pc s v.cpu v.block in
    let before = left_running s same in omega (arith, bound, before)
happen-left interrupt running true s same v =
    let bound = timer-left s v.block in
    let before = left_running s same in omega (arith, bound, before)
happen-left interrupt running false s same v = omega arith
happen-left statement halted flag s same v =
    let over = left_stopped s (rw same refl) in omega (arith, over)
happen-left interrupt halted flag s same v = omega arith
happen-left statement crashed flag s same v =
    let over = left_stopped s (rw same refl) in omega (arith, over)
happen-left interrupt crashed flag s same v = omega arith

statements-nil : statements [] ≡ 0
unfolding statements
statements-nil = refl

statements-cons :
    (e : Event) (es : List Event) → statements (e ∷ es) ≡ statements (e ∷ []) + statements es
unfolding statements
statements-cons statement es = omega arith
statements-cons interrupt es = omega arith

run-left :
    (es : List Event) (s : System)
    → IsSafe s
    → left_system (run es s) ≤ left_system s - statements es
unfolding run step
run-left [] s v = let none_run = statements-nil in omega (arith, none_run)
run-left (e ∷ es) s v =
    let first = happen-left e s.status s.cpu.flag s refl v in
    let rest = run-left es (step e s) (step-IsSafe e s v) in
    omega (arith, first, rest, statements-cons e es)

-- Whatever the interrupts between them: once `left_system s` statements have run, the machine has
-- stopped.
pub run-stops :
    (es : List Event) (s : System)
    → IsSafe s
    → left_system s ≤ statements es
    → is_running (run es s).status ≡ false
unfolding left_system
run-stops es s v enough =
    let last = run es s in
    let bound : left_system last ≤ 0 = omega (arith, run-left es s v, enough) in
    none_left last.status (left last.cpu.pc + left_waiting last.saved) bound
