-- ===== src/Fifos/Examples.antt =====
-- The theorems on the threads at concrete states.
pub mod Screens
pub mod Preemption
use cs552operating_system.Base.{
  ℕ, ◌+◌, ◌-◌, ◌*◌, ◌≤◌, ◌<◌, ◌≡◌, ◌≢◌, ◌⊎◌, ◌↔◌, refl, true, false, some, none, [], arith, ◌==◌,
  if◌then◌else◌, pos,
}
use cs552operating_system.Fifos.Thread.{
  Threads, Memory, thread_max, build_frame, find_unassigned, new_tcb, thread_create, init_tcb_array,
  create_threads,
}
use cs552operating_system.Fifos.Create.{thread_create_lem, create_threads_lem}
use cs552operating_system.Fifos.Switch.{Cpu, IsCpu, save, restore, restore-save}
use cs552operating_system.Fifos.Scheduler.{Machine, is_ready, next_thread, run}
use cs552operating_system.Fifos.Scheduler.Pick.{after, next_thread-fair}
use cs552operating_system.Fifos.Scheduler.Progress.{count_tag, turns_left, run-prints}

abbrev blank_memory : Memory
blank_memory a = 0

-- What `initTCBArray` finds.
abbrev at_boot : Threads
at_boot = record { tcb = λ j. new_tcb j 0 0; memory = blank_memory }

-- A processor at a call of `switch_to`.
abbrev caller : Cpu
caller = record {
  eax = 1;
  ecx = 2;
  edx = 3;
  ebx = 4;
  esp = 500;
  ebp = 5;
  esi = 6;
  edi = 7;
  eflags = 0x202;
  eip = 0x1000;
  ds = 0x10;
  es = 0x10;
  fs = 0x10;
  gs = 0x10;
}

caller-IsCpu : IsCpu caller
caller-IsCpu = record {
  eax = omega arith;
  ecx = omega arith;
  edx = omega arith;
  ebx = omega arith;
  ebp = omega arith;
  esi = omega arith;
  edi = omega arith;
  eflags = omega arith;
  eip = omega arith;
}

restore-save_example :
    restore (save caller blank_memory).0 (save caller blank_memory).1 ≡ record caller { esp = 502 }
restore-save_example = restore-save caller blank_memory caller-IsCpu (omega arith)

-- Three threads with functions 1, 2 and 3, the first of them running, with 2, 1 and 3 rounds.
abbrev three : Machine
three = record {
  tcb = λ j. new_tcb j (j + 1) (1000 * j);
  current = pos 0;
  times = λ j. if j == 0 then 2 else if j == 1 then 1 else 3;
  output = [];
  halted = false;
}

next_thread-fair_example :
    ((n : ℕ)
      → next_thread thread_max three.tcb (pos 0) 1 ≡ some n
      → (i : ℕ) × (1 ≤ i)
        × (i ≤ 3)
        × (n ≡ after 0 i)
        × (is_ready (three.tcb n) ≡ true)
        × ((j : ℕ) → 1 ≤ j → j < i → is_ready (three.tcb (after 0 j)) ≡ false))
    × ((next_thread thread_max three.tcb (pos 0) 1 ≡ none)
        ↔ ((t : ℕ) → t < 3 → is_ready (three.tcb t) ≡ false))
next_thread-fair_example = next_thread-fair three.tcb 0 (omega arith)

run-prints_example :
    ((run (turns_left three) three).halted ≡ true)
    × ((t : ℕ) → t < 3 → is_ready ((run (turns_left three) three).tcb t) ≡ false)
    × ((t : ℕ)
        → t < 3
        → count_tag (t + 1) (run (turns_left three) three).output
          ≡ (if t == 0 then 2 else if t == 1 then 1 else 3))
unfolding new_tcb
run-prints_example =
    run-prints (λ t. t + 1) (λ t. if t == 0 then 2 else if t == 1 then 1 else 3)
      (λ t j ht hj e. omega (arith, e)) three 0 (refl, refl, omega arith, refl) (λ t h. refl)
      (λ t h. unfold count_tag in omega arith)
