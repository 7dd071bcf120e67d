-- ===== src/Fifos/Examples/Preemption.antt =====
-- The theorems on interrupts and preemption at concrete states.
use cs552operating_system.Base.{
  ℕ, zero, suc, ◌+◌, ◌≡◌, refl, false, some, List, [], ◌∷◌, ◌≤◌, ◌<◌, ◌++◌, ◌==◌, if◌then◌else◌,
  arith,
}
use cs552operating_system.Fifos.Thread.{Tcb, new_tcb}
use cs552operating_system.Fifos.Scheduler.{tag, funished, all_done, is_ready, next_thread}
use cs552operating_system.Fifos.Preempt.{
  halted, crashed, Event, statement, interrupt, step, run, new_context, started,
}
use cs552operating_system.Fifos.Preempt.Safety.{IsSafe, run-IsSafe, started-IsSafe}
use cs552operating_system.Fifos.Preempt.Left.{left_system, statements}
use cs552operating_system.Fifos.Preempt.Sound.{is_spared, all_spared}
use cs552operating_system.Fifos.Preempt.Halts.{run-halts, started-IsSound}
use cs552operating_system.Fifos.Scheduler.Progress.{count_tag}
use cs552operating_system.Fifos.Preempt.Tags.{count_tag-rounds}
use cs552operating_system.Fifos.Preempt.Printed.{count_tag-run}
use cs552operating_system.Fifos.Preempt.Race.{before_switch, switch-interrupted}

abbrev two_rounds : ℕ → ℕ
two_rounds i = 2

abbrev ready : ℕ → Tcb
ready i = new_tcb i (i + 1) 1000

-- Block 2 alone is ready.
abbrev last_ready : ℕ → Tcb
last_ready i =
    if i == 2
    then new_tcb 2 3 1000
    else record (new_tcb i (i + 1) 1000) { finished = 1; assigned = 0 }

abbrev repeated : ℕ → List Event
repeated zero = []
repeated (suc n) = statement ∷ repeated n

-- The timer strikes in the loop of the first thread, and between `cli` and `sti`, where it waits.
abbrev schedule : List Event
schedule = statement ∷ interrupt ∷ statement ∷ statement ∷ interrupt ∷ statement ∷ repeated 50

-- Without interrupts the threads run one after the other.
one_by_one :
    (run (repeated 40) (started (λ i. 1) ready [])).output
    ≡ tag 1 ∷ funished 1 ∷ tag 2 ∷ funished 2 ∷ tag 3 ∷ funished 3 ∷ all_done ∷ []
unfolding run step started next_thread new_tcb
one_by_one = refl

-- With an interrupt behind the 13th statement, the last thread never runs.
interrupted :
    (run (repeated 13 ++ (interrupt ∷ repeated 20)) (started (λ i. 0) ready [])).output
    ≡ funished 1 ∷ funished 2 ∷ []
unfolding run step started next_thread new_tcb
interrupted = refl

run-IsSafe_example : IsSafe (run schedule (started two_rounds ready []))
run-IsSafe_example =
    run-IsSafe schedule (started two_rounds ready []) (started-IsSafe two_rounds ready [])

run-halts_example :
    ((run schedule (started two_rounds ready [])).status ≡ halted)
    × ((t : ℕ) → t < 3 → is_ready ((run schedule (started two_rounds ready [])).tcb t) ≡ false)
unfolding left_system statements started all_spared is_spared step run next_thread new_tcb
run-halts_example =
    run-halts schedule (started two_rounds ready []) (started-IsSafe two_rounds ready [])
      (started-IsSound two_rounds ready []) refl (omega arith)

switch-interrupted_example :
    (run
      (interrupt ∷ statement ∷ [])
      (before_switch last_ready 1 2 1 (λ i. some (new_context two_rounds i)) [])).status
    ≡ crashed
unfolding next_thread new_tcb
switch-interrupted_example =
    switch-interrupted last_ready 1 2 1 (λ i. some (new_context two_rounds i)) [] (omega arith) refl

count_tag-rounds_example :
    count_tag 2 (run schedule (started two_rounds ready [])).output ≤ count_tag 2 [] + 2
count_tag-rounds_example = count_tag-rounds 1 two_rounds ready [] schedule (omega arith)

count_tag-run_example :
    let last = run schedule (started two_rounds ready []) in
    (last.status ≡ halted)
    × ((i : ℕ) → i < 3 → is_ready (last.tcb i) ≡ false)
    × ((i : ℕ) → i < 3 → count_tag (i + 1) last.output ≡ two_rounds i)
unfolding left_system statements started all_spared is_spared step run next_thread new_tcb
count_tag-run_example = count_tag-run two_rounds ready schedule (λ i low. refl) refl (omega arith)
