-- ===== src/Fifos/Preempt/Safety.antt =====
-- A thread is never interrupted between `cli` and `sti`.
use cs552operating_system.Base.{
  ℕ, zero, suc, ◌<◌, ◌≡◌, refl, Bool, true, false, Option, none, some, List, [], ◌∷◌, ◌==◌, update,
  pos, arith, inl, inr, Bool-cases, Option-cases,
}
use mathlib.Core.Path.{subst}
use cs552operating_system.Fifos.Thread.{Tcb, thread_max}
use cs552operating_system.Fifos.Scheduler.{Line, next_thread}
use cs552operating_system.Fifos.Scheduler.Pick.{next_thread-fair}
use cs552operating_system.Fifos.Preempt.{
  Pc, loop, enter, locked, message, mark_finished, mark_unassigned, pick, store, switch, behind,
  Context, Status, running, halted, crashed, System, resume, switch_to, finish_system, preempt,
  timer, at_pc, picked, execute, Event, statement, interrupt, happen, step, run, new_context,
  started,
}

-- A context that runs: between `cli` and `sti` the flag is clear, and the indices are of blocks.
abbrev pub IsRunning : Pc → Bool → Type 0
IsRunning (locked n) flag = flag ≡ false
IsRunning (store next) flag = next < 3
IsRunning (switch temp next) flag = (temp < 3) × (next < 3)
IsRunning _ flag = Unit

-- A context that waits does not stand between `cli` and `sti`.
abbrev pub IsWaiting : Pc → Type 0
IsWaiting (locked n) = ⊥
IsWaiting (store next) = next < 3
IsWaiting (switch temp next) = (temp < 3) × (next < 3)
IsWaiting _ = Unit

abbrev pub IsSaved : Option Context → Type 0
IsSaved none = Unit
IsSaved (some c) = IsWaiting c.pc

pub record IsSafe (s : System) : Type 0 where
  pub block : s.current < 3
  pub cpu : IsRunning s.cpu.pc s.cpu.flag
  pub waiting : (i : ℕ) → IsSaved (s.saved i)

IsWaiting-IsRunning : (pc : Pc) (flag : Bool) → IsWaiting pc → IsRunning pc flag
IsWaiting-IsRunning (locked n) flag h = absurd h
IsWaiting-IsRunning (store next) flag h = h
IsWaiting-IsRunning (switch temp next) flag h = h
IsWaiting-IsRunning (loop n) flag h = tt
IsWaiting-IsRunning (enter n) flag h = tt
IsWaiting-IsRunning message flag h = tt
IsWaiting-IsRunning mark_finished flag h = tt
IsWaiting-IsRunning mark_unassigned flag h = tt
IsWaiting-IsRunning pick flag h = tt
IsWaiting-IsRunning behind flag h = tt

-- With the flag set a running context may wait.
IsRunning-IsWaiting : (pc : Pc) → IsRunning pc true → IsWaiting pc
IsRunning-IsWaiting (locked n) h = cc
IsRunning-IsWaiting (store next) h = h
IsRunning-IsWaiting (switch temp next) h = h
IsRunning-IsWaiting (loop n) h = tt
IsRunning-IsWaiting (enter n) h = tt
IsRunning-IsWaiting message h = tt
IsRunning-IsWaiting mark_finished h = tt
IsRunning-IsWaiting mark_unassigned h = tt
IsRunning-IsWaiting pick h = tt
IsRunning-IsWaiting behind h = tt

IsSaved-update :
    (saved : ℕ → Option Context) (i : ℕ) (o : Option Context)
    → ((j : ℕ) → IsSaved (saved j))
    → IsSaved o
    → (j : ℕ) → IsSaved (update saved i o j)
IsSaved-update saved i o all h j = elim (Bool-cases (j == i)) [
  | inl same ↦ rw same h
  | inr other ↦ rw other (all j)
]

resume-IsSafe :
    (o : Option Context) (next : ℕ) (s : System)
    → s.current < 3
    → IsRunning s.cpu.pc s.cpu.flag
    → ((i : ℕ) → IsSaved (s.saved i))
    → IsSaved o
    → IsSafe (resume o next s)
unfolding resume
resume-IsSafe none next s block cpu waiting h = record {
  block = block;
  cpu = cpu;
  waiting = waiting;
}
resume-IsSafe (some c) next s block cpu waiting h = record {
  block = block;
  cpu = IsWaiting-IsRunning c.pc c.flag h;
  waiting = IsSaved-update s.saved next none waiting tt;
}

switch_to-IsSafe :
    (temp next : ℕ) (c : Context) (s : System)
    → IsWaiting c.pc
    → s.current < 3
    → IsRunning s.cpu.pc s.cpu.flag
    → ((i : ℕ) → IsSaved (s.saved i))
    → IsSafe (switch_to temp next c s)
unfolding switch_to
switch_to-IsSafe temp next c s h block cpu waiting =
    let saved = update s.saved temp (some c) in
    let kept = IsSaved-update s.saved temp (some c) waiting h in
    resume-IsSafe (saved next) next (record s { saved = saved }) block cpu kept (kept next)

pub next_thread-lt :
    (tcb : ℕ → Tcb) (c n : ℕ) → c < 3 → next_thread thread_max tcb (pos c) 1 ≡ some n → n < 3
next_thread-lt tcb c n h e =
    let (i, low, high, same, ready, earlier) = (next_thread-fair tcb c h).0 n e in
    omega (arith, same)

timer-IsSafe : (s : System) → s.cpu.flag ≡ true → IsSafe s → IsSafe (timer s)
unfolding timer preempt finish_system
timer-IsSafe s enabled v = elim (Option-cases (next_thread thread_max s.tcb (pos s.current) 1)) [
  | inl nothing ↦ rw nothing (record { block = v.block; cpu = v.cpu; waiting = v.waiting })
  | inr (next, found) ↦
      let small = next_thread-lt s.tcb s.current next v.block found in
      let allowed : IsRunning s.cpu.pc true = subst (IsRunning s.cpu.pc) enabled v.cpu in
      rw found (
        switch_to-IsSafe s.current next (record (s.cpu) { flag = false })
          (record s { current = next }) (IsRunning-IsWaiting s.cpu.pc allowed) small v.cpu
          v.waiting)
]

execute-IsSafe : (pc : Pc) (s : System) → IsRunning pc s.cpu.flag → IsSafe s → IsSafe (execute pc s)
unfolding execute at_pc picked finish_system
execute-IsSafe (loop zero) s h v = record { block = v.block; cpu = tt; waiting = v.waiting }
execute-IsSafe (loop (suc n)) s h v = record { block = v.block; cpu = tt; waiting = v.waiting }
execute-IsSafe (enter n) s h v = record { block = v.block; cpu = refl; waiting = v.waiting }
execute-IsSafe (locked n) s h v = record { block = v.block; cpu = tt; waiting = v.waiting }
execute-IsSafe message s h v = record { block = v.block; cpu = tt; waiting = v.waiting }
execute-IsSafe mark_finished s h v = record { block = v.block; cpu = tt; waiting = v.waiting }
execute-IsSafe mark_unassigned s h v = record { block = v.block; cpu = tt; waiting = v.waiting }
execute-IsSafe pick s h v = elim (Option-cases (next_thread thread_max s.tcb (pos s.current) 1)) [
  | inl nothing ↦ rw nothing (record { block = v.block; cpu = v.cpu; waiting = v.waiting })
  | inr (next, found) ↦
      let small = next_thread-lt s.tcb s.current next v.block found in
      rw found (record { block = v.block; cpu = small; waiting = v.waiting })
]
execute-IsSafe (store next) s h v = record { block = h; cpu = (v.block, h); waiting = v.waiting }
execute-IsSafe (switch temp next) s h v =
    switch_to-IsSafe temp next (record (s.cpu) { pc = behind }) s tt v.block v.cpu v.waiting
execute-IsSafe behind s h v = record { block = v.block; cpu = v.cpu; waiting = v.waiting }

happen-IsSafe :
    (e : Event) (status : Status) (flag : Bool) (s : System)
    → s.cpu.flag ≡ flag
    → IsSafe s
    → IsSafe (happen e status flag s)
unfolding happen
happen-IsSafe statement running flag s same v = execute-IsSafe s.cpu.pc s v.cpu v
happen-IsSafe interrupt running true s same v = timer-IsSafe s same v
happen-IsSafe interrupt running false s same v = v
happen-IsSafe statement halted flag s same v = v
happen-IsSafe interrupt halted flag s same v = v
happen-IsSafe statement crashed flag s same v = v
happen-IsSafe interrupt crashed flag s same v = v

pub step-IsSafe : (e : Event) (s : System) → IsSafe s → IsSafe (step e s)
unfolding step
step-IsSafe e s v = happen-IsSafe e s.status s.cpu.flag s refl v

-- Whatever the order of statements and interrupts, from a state in which this holds, such as the one
-- after the first interrupt: a thread between `cli` and `sti` runs with interrupts disabled, and no
-- thread that waits stands there.
pub run-IsSafe : (es : List Event) (s : System) → IsSafe s → IsSafe (run es s)
unfolding run
run-IsSafe [] s v = v
run-IsSafe (e ∷ es) s v = run-IsSafe es (step e s) (step-IsSafe e s v)

pub started-IsSafe :
    (rounds : ℕ → ℕ) (tcb : ℕ → Tcb) (output : List Line) → IsSafe (started rounds tcb output)
unfolding started new_context
started-IsSafe rounds tcb output = record {
  block = omega arith;
  cpu = tt;
  waiting = λ i. ground arith;
}
