-- ===== src/Fifos/Preempt/Race.antt =====
-- The timer in `scheduler`, when `functionFinish` has called it with interrupts enabled.
use cs552operating_system.Base.{
  ℕ, false, ◌≡◌, ◌≢◌, refl, true, Option, some, List, [], ◌∷◌, ◌==◌, pos, arith,
}
use cs552operating_system.Fifos.Thread.{Tcb, thread_max}
use cs552operating_system.Fifos.Scheduler.{Line, next_thread}
use cs552operating_system.Fifos.Preempt.{
  switch, Context, running, crashed, System, resume, switch_to, preempt, timer, execute, statement,
  interrupt, happen, step, run,
}

-- The thread `owner` has finished and `scheduler` has made block `next` current: the processor stands
-- before the call of `switch_to`, with interrupts enabled.
abbrev pub before_switch :
    (tcb : ℕ → Tcb) (temp next owner : ℕ) (saved : ℕ → Option Context) (output : List Line) → System
before_switch tcb temp next owner saved output = record {
  tcb = tcb;
  current = next;
  cpu = record { owner = owner; pc = switch temp next; flag = true };
  saved = saved;
  output = output;
  status = running;
}

-- When the thread `next` alone is left, and the timer comes right before the call of `switch_to` that
-- would start it from another block, the context of `next` is lost, and the call goes wrong.
pub switch-interrupted :
    (tcb : ℕ → Tcb) (temp next owner : ℕ) (saved : ℕ → Option Context) (output : List Line)
    → temp ≢ next
    → next_thread thread_max tcb (pos next) 1 ≡ some next
    → (run (interrupt ∷ statement ∷ []) (before_switch tcb temp next owner saved output)).status
      ≡ crashed
unfolding run step happen timer preempt switch_to resume execute
switch-interrupted tcb temp next owner saved output differ alone =
    let same : (next == next) ≡ true = ground arith in
    let other : (next == temp) ≡ false = ground arith in
    rw alone (rw same (rw other (rw same refl)))
