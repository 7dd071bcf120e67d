-- ===== src/Fifos/Preempt.antt =====
-- FIFOS-2/init.c and interrupt.h: three threads that the timer interrupts between `sti` and `cli`. A
-- step is one statement of the running thread, or the whole handler of the timer, which runs with
-- interrupts disabled. A text is written in one step. The word that ends an interrupt at the
-- controller, and the registers that the handler does not save, are left out.
pub mod Safety
pub mod Left
pub mod Stops
pub mod Sound
pub mod Halts
pub mod Race
pub mod Tags
pub mod Exact
pub mod Handover
pub mod Printed
use cs552operating_system.Base.{
  ℕ, zero, suc, ◌+◌, ◌*◌, Bool, true, false, Option, none, some, List, [], ◌∷◌, ◌++◌, ◌==◌,
  if◌then◌else◌, update, pos,
}
use cs552operating_system.Fifos.Thread.{Tcb, thread_max}
use cs552operating_system.Fifos.Scheduler.{Line, tag, funished, all_done, next_thread}

-- Where a thread stands. `loop n`: before the test, with `n` rounds left. `enter n` and `locked n`:
-- before `cli`, and between `cli` and `sti`, with `n` rounds left after this one. Behind `message`
-- come the statements of `functionFinish`, and those of the `scheduler` that it calls; `behind` is
-- the return from there, which has no caller.
pub data Pc : Type 0 where
  loop : ℕ → Pc
  enter : ℕ → Pc
  locked : ℕ → Pc
  message : Pc
  mark_finished : Pc
  mark_unassigned : Pc
  pick : Pc
  store : ℕ → Pc
  switch : ℕ → ℕ → Pc
  behind : Pc

-- What runs, or what a stack keeps of it: whose function it is, where, and the interrupt flag.
pub record Context : Type 0 where
  pub owner : ℕ
  pub pc : Pc
  pub flag : Bool

pub data Status : Type 0 where
  running : Status
  halted : Status
  crashed : Status

-- `saved i` is what the stack pointer of block `i` leads to. A stack is left once only: what
-- `switch_to` has restored from it is gone.
pub record System : Type 0 where
  pub tcb : ℕ → Tcb
  pub current : ℕ
  pub cpu : Context
  pub saved : ℕ → Option Context
  pub output : List Line
  pub status : Status

-- The second half of `switch_to`.
unfoldable pub resume : Option Context → ℕ → System → System
resume none next s = record s { status = crashed }
resume (some c) next s = record s { cpu = c; saved = update s.saved next none }

unfoldable pub switch_to : ℕ → ℕ → Context → System → System
unfolding resume
switch_to temp next c s =
    let saved = update s.saved temp (some c) in
    resume (saved next) next (record s { saved = saved })

-- No thread is left: the message, and the jump to `system_finish`.
unfoldable pub finish_system : System → System
finish_system s = record s { output = s.output ++ (all_done ∷ []); status = halted }

-- `scheduler` as the handler of the timer calls it, once a thread runs. The handler ends in `ret` and
-- not in `iret`, so that the thread goes on with interrupts disabled; the registers that it loses
-- are left out. Where `switch_to` finds no context, the C code goes on with a stale stack: `crashed`.
unfoldable pub preempt : Option ℕ → System → System
unfolding finish_system switch_to
preempt none s = finish_system s
preempt (some next) s =
    switch_to s.current next (record (s.cpu) { flag = false }) (record s { current = next })

unfoldable pub timer : System → System
unfolding preempt
timer s = preempt (next_thread thread_max s.tcb (pos s.current) 1) s

unfoldable pub at_pc : Pc → System → System
at_pc pc s = record s { cpu = record (s.cpu) { pc = pc } }

unfoldable pub picked : Option ℕ → System → System
unfolding finish_system at_pc
picked none s = finish_system s
picked (some next) s = at_pc (store next) s

-- The statement at which the running thread stands.
unfoldable pub execute : Pc → System → System
unfolding at_pc picked switch_to
execute (loop zero) s = at_pc message s
execute (loop (suc n)) s = at_pc (enter n) s
execute (enter n) s = record s { cpu = record (s.cpu) { pc = locked n; flag = false } }
execute (locked n) s = record s {
  cpu = record (s.cpu) { pc = loop n; flag = true };
  output = s.output ++ (tag (s.cpu.owner + 1) ∷ []);
}
execute message s =
    at_pc mark_finished (record s { output = s.output ++ (funished (s.cpu.owner + 1) ∷ []) })
execute mark_finished s =
    at_pc mark_unassigned
      (record s { tcb = update s.tcb s.current (record (s.tcb s.current) { finished = 1 }) })
execute mark_unassigned s =
    at_pc pick
      (record s { tcb = update s.tcb s.current (record (s.tcb s.current) { assigned = 0 }) })
execute pick s = picked (next_thread thread_max s.tcb (pos s.current) 1) s
execute (store next) s = at_pc (switch s.current next) (record s { current = next })
execute (switch temp next) s = switch_to temp next (record (s.cpu) { pc = behind }) s
execute behind s = record s { status = crashed }

-- What the machine does next. A stopped machine stays; the timer waits for the interrupt flag.
pub data Event : Type 0 where
  statement : Event
  interrupt : Event

unfoldable pub happen : Event → Status → Bool → System → System
unfolding execute timer
happen statement running flag s = execute s.cpu.pc s
happen interrupt running true s = timer s
happen interrupt running false s = s
happen e halted flag s = s
happen e crashed flag s = s

unfoldable pub step : Event → System → System
unfolding happen
step e s = happen e s.status s.cpu.flag s

unfoldable pub run : List Event → System → System
run [] s = s
run (e ∷ es) s = run es (step e s)

-- A new thread: its flags are 0x202, with interrupts enabled.
unfoldable pub new_context : (ℕ → ℕ) → ℕ → Context
new_context rounds i = record { owner = i; pc = loop (rounds i); flag = true }

-- After the first interrupt, which leaves the loop of `init` for thread 0.
unfoldable pub started : (ℕ → ℕ) → (ℕ → Tcb) → List Line → System
unfolding new_context
started rounds tcb output = record {
  tcb = tcb;
  current = 0;
  cpu = new_context rounds 0;
  saved = λ i.
      if i == 1
      then some (new_context rounds 1)
      else if i == 2
      then some (new_context rounds 2)
      else none;
  output = output;
  status = running;
}
