-- ===== src/Fifos/Preempt/Tags.antt =====
-- How often the threads of FIFOS-2 print their tags.
use cs552operating_system.Base.{
  ℕ, zero, suc, ◌+◌, ◌≤◌, ◌<◌, ◌≡◌, refl, Bool, true, false, Option, none, some, List, [], ◌∷◌,
  ◌==◌, if◌then◌else◌, update, pos, arith, inl, inr, Option-cases,
}
use cs552operating_system.Fifos.Thread.{Tcb, thread_max}
use cs552operating_system.Fifos.Scheduler.{Line, tag, funished, all_done, next_thread}
use cs552operating_system.Fifos.Scheduler.Progress.{count_tag, count_tag-append}
use cs552operating_system.Fifos.Preempt.{
  Pc, loop, enter, locked, message, mark_finished, mark_unassigned, pick, store, switch, behind,
  Context, Status, running, halted, crashed, System, resume, switch_to, finish_system, preempt,
  timer, at_pc, picked, execute, Event, statement, interrupt, happen, step, run, new_context,
  started,
}
use cs552operating_system.Fifos.Preempt.Safety.{
  IsRunning, IsSafe, next_thread-lt, step-IsSafe, started-IsSafe,
}

-- The rounds that print and are still to come.
unfoldable pub rounds_left : Pc → ℕ
rounds_left (loop n) = n
rounds_left (enter n) = n + 1
rounds_left (locked n) = n + 1
rounds_left _ = 0

-- Those of thread `i`.
unfoldable rounds_at : ℕ → ℕ → Pc → ℕ
unfolding rounds_left
rounds_at i owner pc = if owner == i then rounds_left pc else 0

unfoldable rounds_saved : ℕ → Option Context → ℕ
unfolding rounds_at
rounds_saved i none = 0
rounds_saved i (some c) = rounds_at i c.owner c.pc

unfoldable rounds_waiting : ℕ → (ℕ → Option Context) → ℕ
unfolding rounds_saved
rounds_waiting i saved =
    rounds_saved i (saved 0) + rounds_saved i (saved 1) + rounds_saved i (saved 2)

unfoldable rounds_while : Status → ℕ → ℕ
rounds_while running n = n
rounds_while halted n = 0
rounds_while crashed n = 0

-- The tags of thread `i` on the screen and to come.
unfoldable tags : ℕ → System → ℕ
unfolding rounds_at rounds_waiting rounds_while
tags i s =
    count_tag (i + 1) s.output
    + rounds_while s.status (rounds_at i s.cpu.owner s.cpu.pc + rounds_waiting i s.saved)

rounds_waiting-update :
    (i : ℕ) (saved : ℕ → Option Context) (j : ℕ) (o : Option Context)
    → j < 3
    → rounds_waiting i (update saved j o) + rounds_saved i (saved j)
      ≡ rounds_waiting i saved + rounds_saved i o
unfolding rounds_waiting
rounds_waiting-update i saved zero o h = omega arith
rounds_waiting-update i saved (suc zero) o h = omega arith
rounds_waiting-update i saved (suc (suc zero)) o h = omega arith
rounds_waiting-update i saved (suc (suc (suc j))) o h = omega arith

rounds_while_le : (status : Status) (n : ℕ) → rounds_while status n ≤ n
unfolding rounds_while
rounds_while_le running n = omega arith
rounds_while_le halted n = omega arith
rounds_while_le crashed n = omega arith

resume-tags :
    (i : ℕ) (o : Option Context) (next : ℕ) (s : System)
    → s.saved next ≡ o
    → next < 3
    → tags i (resume o next s) ≤ count_tag (i + 1) s.output + rounds_waiting i s.saved
unfolding resume tags rounds_while rounds_saved
resume-tags i none next s e h = omega arith
resume-tags i (some c) next s e h =
    let same : rounds_saved i (s.saved next) ≡ rounds_at i c.owner c.pc = rw e refl in
    let moved = rounds_waiting-update i s.saved next none h in
    let bound =
      rounds_while_le s.status
        (rounds_at i c.owner c.pc + rounds_waiting i (update s.saved next none)) in
    omega (arith, same, moved, bound)

switch_to-tags :
    (i temp next : ℕ) (c : Context) (s : System)
    → temp < 3
    → next < 3
    → tags i (switch_to temp next c s)
      ≤ count_tag (i + 1) s.output + (rounds_at i c.owner c.pc + rounds_waiting i s.saved)
unfolding switch_to rounds_saved
switch_to-tags i temp next c s low high =
    let saved = update s.saved temp (some c) in
    let moved = rounds_waiting-update i s.saved temp (some c) low in
    let bound = resume-tags i (saved next) next (record s { saved = saved }) refl high in
    omega (arith, moved, bound)

-- The message at the end has no tag.
finish_system-tags : (i : ℕ) (s : System) → tags i (finish_system s) ≤ count_tag (i + 1) s.output
unfolding finish_system tags rounds_while count_tag
finish_system-tags i s =
    let same = count_tag-append (i + 1) s.output all_done in omega (arith, same)

timer-tags :
    (i : ℕ) (s : System)
    → s.current < 3
    → tags i (timer s)
      ≤ count_tag (i + 1) s.output + (rounds_at i s.cpu.owner s.cpu.pc + rounds_waiting i s.saved)
unfolding timer preempt
timer-tags i s block = elim (Option-cases (next_thread thread_max s.tcb (pos s.current) 1)) [
  | inl nothing ↦ rw nothing (let over = finish_system-tags i s in omega (arith, over))
  | inr (next, found) ↦ rw found (
      switch_to-tags i s.current next (record (s.cpu) { flag = false })
        (record s { current = next }) block (next_thread-lt s.tcb s.current next block found))
]

execute-tags :
    (i : ℕ) (pc : Pc) (s : System)
    → IsRunning pc s.cpu.flag
    → s.current < 3
    → tags i (execute pc s)
      ≤ count_tag (i + 1) s.output + (rounds_at i s.cpu.owner pc + rounds_waiting i s.saved)
unfolding execute at_pc picked tags rounds_while rounds_at rounds_left count_tag
execute-tags i (loop zero) s h block =
    let bound =
      rounds_while_le s.status (rounds_at i s.cpu.owner message + rounds_waiting i s.saved) in
    ground (arith, bound)
execute-tags i (loop (suc n)) s h block =
    let bound =
      rounds_while_le s.status (rounds_at i s.cpu.owner (enter n) + rounds_waiting i s.saved) in
    ground (arith, bound)
execute-tags i (enter n) s h block =
    let bound =
      rounds_while_le s.status (rounds_at i s.cpu.owner (locked n) + rounds_waiting i s.saved) in
    ground (arith, bound)
execute-tags i (locked n) s h block =
    let bound =
      rounds_while_le s.status (rounds_at i s.cpu.owner (loop n) + rounds_waiting i s.saved) in
    ground (arith, bound, count_tag-append (i + 1) s.output (tag (s.cpu.owner + 1)))
execute-tags i message s h block =
    let bound =
      rounds_while_le s.status (rounds_at i s.cpu.owner mark_finished + rounds_waiting i s.saved) in
    ground (arith, bound, count_tag-append (i + 1) s.output (funished (s.cpu.owner + 1)))
execute-tags i mark_finished s h block =
    let bound =
      rounds_while_le s.status
        (rounds_at i s.cpu.owner mark_unassigned + rounds_waiting i s.saved) in
    ground (arith, bound)
execute-tags i mark_unassigned s h block =
    let bound =
      rounds_while_le s.status (rounds_at i s.cpu.owner pick + rounds_waiting i s.saved) in
    ground (arith, bound)
execute-tags i pick s h block =
    let bound = λ (next : ℕ).
      rounds_while_le s.status (rounds_at i s.cpu.owner (store next) + rounds_waiting i s.saved) in
    elim (Option-cases (next_thread thread_max s.tcb (pos s.current) 1)) [
      | inl nothing ↦ rw nothing (let over = finish_system-tags i s in ground (arith, over))
      | inr (next, found) ↦ rw found (ground (arith, bound next))
    ]
execute-tags i (store next) s h block =
    let bound =
      rounds_while_le s.status
        (rounds_at i s.cpu.owner (switch s.current next) + rounds_waiting i s.saved) in
    ground (arith, bound)
execute-tags i (switch temp next) s h block =
    switch_to-tags i temp next (record (s.cpu) { pc = behind }) s h.0 h.1
execute-tags i behind s h block = ground arith

tags_running :
    (i : ℕ) (s : System)
    → s.status ≡ running
    → tags i s
      ≡ count_tag (i + 1) s.output + (rounds_at i s.cpu.owner s.cpu.pc + rounds_waiting i s.saved)
unfolding tags rounds_while
tags_running i s e = rw e refl

happen-tags :
    (i : ℕ) (e : Event) (status : Status) (flag : Bool) (s : System)
    → s.status ≡ status
    → IsSafe s
    → tags i (happen e status flag s) ≤ tags i s
unfolding happen
happen-tags i statement running flag s same v =
    let bound = execute-tags i s.cpu.pc s v.cpu v.block in
    omega (arith, bound, tags_running i s same)
happen-tags i interrupt running true s same v =
    let bound = timer-tags i s v.block in omega (arith, bound, tags_running i s same)
happen-tags i interrupt running false s same v = omega arith
happen-tags i statement halted flag s same v = omega arith
happen-tags i interrupt halted flag s same v = omega arith
happen-tags i statement crashed flag s same v = omega arith
happen-tags i interrupt crashed flag s same v = omega arith

run-tags : (i : ℕ) (es : List Event) (s : System) → IsSafe s → tags i (run es s) ≤ tags i s
unfolding run step
run-tags i [] s v = omega arith
run-tags i (e ∷ es) s v =
    let first = happen-tags i e s.status s.cpu.flag s refl v in
    let rest = run-tags i es (step e s) (step-IsSafe e s v) in omega (arith, first, rest)

tags-started :
    (i : ℕ) (rounds : ℕ → ℕ) (tcb : ℕ → Tcb) (output : List Line)
    → i < 3
    → tags i (started rounds tcb output) ≤ count_tag (i + 1) output + rounds i
unfolding tags started rounds_while rounds_waiting rounds_saved rounds_at rounds_left new_context
tags-started zero rounds tcb output h = omega arith
tags-started (suc zero) rounds tcb output h = omega arith
tags-started (suc (suc zero)) rounds tcb output h = omega arith
tags-started (suc (suc (suc i))) rounds tcb output h = omega arith

-- From the start of the threads, whatever the order of statements and interrupts: each thread prints its
-- tag at most as often as it has rounds.
pub count_tag-rounds :
    (i : ℕ) (rounds : ℕ → ℕ) (tcb : ℕ → Tcb) (output : List Line) (es : List Event)
    → i < 3
    → count_tag (i + 1) (run es (started rounds tcb output)).output
      ≤ count_tag (i + 1) output + rounds i
unfolding tags
count_tag-rounds i rounds tcb output es h =
    let start = started rounds tcb output in
    let all = run-tags i es start (started-IsSafe rounds tcb output) in
    let first = tags-started i rounds tcb output h in omega (arith, all, first)
