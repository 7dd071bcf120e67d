-- ===== src/Fifos/Scheduler.antt =====
-- FIFOS-1/init.c: `scheduler`, `functionYield`, `functionFinish`, and the threads `function1`,
-- `function2` and `function3`, which are one loop with three counts.
pub mod Pick
pub mod Progress
use cs552operating_system.Base.{
  ℕ, zero, suc, ◌+◌, ◌-◌, ◌%◌, ◌^◌, Bool, true, false, ◌&&◌, Option, none, some, List, [], ◌∷◌,
  ◌++◌, ◌==◌, if◌then◌else◌, ℤ, pos, negsuc, to_u32,
}
use cs552operating_system.Fifos.Thread.{Tcb, thread_max}

-- What the threads and the scheduler write on the screen.
pub data Line : Type 0 where
  tag : ℕ → Line
  funished : ℕ → Line
  all_done : Line

-- `times` is the local variable of each thread, by its index; `halted` is the jump to
-- `system_finish`.
pub record Machine : Type 0 where
  pub tcb : ℕ → Tcb
  pub current : ℤ
  pub times : ℕ → ℕ
  pub output : List Line
  pub halted : Bool

abbrev pub is_ready : Tcb → Bool
is_ready t = (t.assigned == 1) && (t.finished == 0)

-- The loop of `scheduler` over `i`, with the rounds left: `(currentThread + i) % N` in 32 bits.
unfoldable pub next_thread : ℕ → (ℕ → Tcb) → ℤ → ℕ → Option ℕ
next_thread zero tcb current i = none
next_thread (suc k) tcb current i =
    let thread = (to_u32 current + i) % 2 ^ 32 % thread_max in
    let rest = next_thread k tcb current (i + 1) in
    if is_ready (tcb thread) then some thread else rest

-- What the loop has found becomes the running thread; `switch_to` is modelled in Switch, and left out
-- here: the thread goes on where it was.
unfoldable pub dispatch : Option ℕ → Machine → Machine
dispatch none m = record m { output = m.output ++ (all_done ∷ []); halted = true }
dispatch (some next) m = record m { current = pos next }

unfoldable pub scheduler : Machine → Machine
unfolding next_thread dispatch
scheduler m = dispatch (next_thread thread_max m.tcb m.current 1) m

-- `functionFinish` of thread `t`.
unfoldable pub finish_thread : ℕ → Machine → Machine
finish_thread t m = record m {
  tcb = λ j. if j == t then record (m.tcb t) { finished = 1; assigned = 0 } else m.tcb j;
}

-- What thread `t` does before it calls the scheduler: a round of its loop, or its end.
unfoldable pub body : ℕ → Machine → Machine
unfolding finish_thread
body t m =
    let name = (m.tcb t).function in
    if m.times t == 0
    then finish_thread t (record m { output = m.output ++ (funished name ∷ []) })
    else record m {
      output = m.output ++ (tag name ∷ []);
      times = λ j. if j == t then m.times t - 1 else m.times j;
    }

unfoldable pub turn : ℕ → Machine → Machine
turn t m = scheduler (body t m)

-- One step of the machine: a halted one, or one before the first call of `scheduler`, stays.
unfoldable pub step_of : Bool → ℤ → Machine → Machine
step_of true current m = m
step_of false (pos t) m = turn t m
step_of false (negsuc n) m = m

-- The machine after some steps.
unfoldable pub run : ℕ → Machine → Machine
unfolding step_of
run zero m = m
run (suc k) m = run k (step_of m.halted m.current m)
