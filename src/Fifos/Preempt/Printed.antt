-- ===== src/Fifos/Preempt/Printed.antt =====
-- How often each thread of FIFOS-2 has printed its tag at the end, where the timer does not strike between
-- the change of `currentThread` and the call of `switch_to` behind it.
use cs552operating_system.Base.{
  ℕ, zero, suc, ◌+◌, ◌≤◌, ◌<◌, ◌≡◌, ◌≢◌, refl, sym, ◌∙◌, Bool, true, false, List, [], ◌∷◌, ◌++◌,
  ◌==◌, update, pos, arith, inl, inr, Bool-cases, Option-cases, ==→eq,
}
use mathlib.Core.Path.{subst}
use cs552operating_system.Fifos.Thread.{Tcb, thread_max}
use cs552operating_system.Fifos.Scheduler.{Line, tag, funished, is_ready, next_thread}
use cs552operating_system.Fifos.Scheduler.Progress.{count_tag, count_tag-append}
use cs552operating_system.Fifos.Preempt.{
  Pc, loop, enter, locked, message, mark_finished, mark_unassigned, pick, store, switch, behind,
  Status, running, halted, crashed, System, at_pc, picked, execute, Event, statement, interrupt,
  happen, step, run, new_context, started,
}
use cs552operating_system.Fifos.Preempt.Safety.{IsRunning, IsSafe, step-IsSafe, started-IsSafe}
use cs552operating_system.Fifos.Preempt.Left.{left_system, statements}
use cs552operating_system.Fifos.Preempt.Tags.{rounds_left}
use cs552operating_system.Fifos.Preempt.Sound.{is_spared, all_spared, IsSoundAt, IsSound, apart}
use cs552operating_system.Fifos.Preempt.Halts.{
  cleared_waiting, happen-IsSound, and_left, and_right, run-halts, started-IsSound,
}
use cs552operating_system.Fifos.Preempt.Exact.{Counts, IsAway, IsExactAt, IsExact, IsAway-append}
use cs552operating_system.Fifos.Preempt.Handover.{
  finish_system-IsExact, timer-IsExact, switch-IsExact,
}

module _ (total : ℕ → ℕ) where
  tag_other :
      (i owner : ℕ) (output : List Line)
      → owner ≢ i
      → count_tag (i + 1) (output ++ (tag (owner + 1) ∷ [])) ≡ count_tag (i + 1) output
  unfolding count_tag
  tag_other i owner output other =
      ground (arith, other, count_tag-append (i + 1) output (tag (owner + 1)))

  tag_own :
      (owner current n : ℕ) (output : List Line)
      → owner ≡ current
      → Counts total current output (locked n)
      → Counts total current (output ++ (tag (owner + 1) ∷ [])) (loop n)
  unfolding count_tag rounds_left
  tag_own owner current n output e h =
      ground (arith, e, h, count_tag-append (current + 1) output (tag (owner + 1)))

  funished_other :
      (i k : ℕ) (output : List Line)
      → count_tag i (output ++ (funished k ∷ [])) ≡ count_tag i output
  unfolding count_tag
  funished_other i k output = omega (arith, count_tag-append i output (funished k))

  -- A change of the current block, after which that thread is not ready, where it has printed all.
  cleared_over :
      (tcb : ℕ → Tcb) (current : ℕ) (t : Tcb) (output : List Line)
      → count_tag (current + 1) output ≡ total current
      → ((i : ℕ) → i < 3 → is_ready (tcb i) ≡ false → count_tag (i + 1) output ≡ total i)
      → (i : ℕ) → i < 3
      → is_ready (update tcb current t i) ≡ false
      → count_tag (i + 1) output ≡ total i
  cleared_over tcb current t output all over i low clear = elim (Bool-cases (i == current)) [
    | inl same ↦ subst (λ k. count_tag (k + 1) output ≡ total k) (sym (==→eq i current same)) all
    | inr other ↦ over i low (rw other at clear)
  ]

  execute-IsExact :
      (pc : Pc) (s : System)
      → s.cpu.pc ≡ pc
      → s.current < 3
      → IsRunning pc s.cpu.flag
      → IsSoundAt pc s
      → IsExactAt total pc s
      → IsExact total (execute pc s)
  unfolding execute at_pc picked rounds_left
  execute-IsExact (loop zero) s at block h sound v = record {
    owner = v.owner;
    here = v.here;
    away = v.away;
    over = v.over;
  }
  execute-IsExact (loop (suc n)) s at block h sound v = record {
    owner = v.owner;
    here = (v.here.0, omega (arith, v.here.1));
    away = v.away;
    over = v.over;
  }
  execute-IsExact (enter n) s at block h sound v = record {
    owner = v.owner;
    here = v.here;
    away = v.away;
    over = v.over;
  }
  execute-IsExact (locked n) s at block h sound v =
      let line : Line = tag (s.cpu.owner + 1) in
      let unprinted : (i : ℕ)
          → i ≢ s.current
          → count_tag (i + 1) (s.output ++ (line ∷ [])) ≡ count_tag (i + 1) s.output =
        λ i other. tag_other i s.cpu.owner s.output (λ e. other (sym e ∙ v.owner)) in
      record {
        owner = v.owner;
        here = (v.here.0, tag_own s.cpu.owner s.current n s.output v.owner v.here.1);
        away = λ i low set other.
            IsAway-append total i s.output line (s.saved i) (unprinted i other)
              (v.away i low set other);
        over = λ i low clear.
            unprinted i (λ e. apart s.tcb s.current i v.here.0 clear (sym e)) ∙ v.over i low clear;
      }
  execute-IsExact message s at block h sound v =
      let line : Line = funished (s.cpu.owner + 1) in
      let same = λ (i : ℕ). funished_other i (s.cpu.owner + 1) s.output in
      record {
        owner = v.owner;
        here = (v.here.0, omega (arith, same (s.current + 1), v.here.1));
        away = λ i low set other.
            IsAway-append total i s.output line (s.saved i) (same (i + 1)) (v.away i low set other);
        over = λ i low clear. same (i + 1) ∙ v.over i low clear;
      }
  execute-IsExact mark_finished s at block h sound v = record {
    owner = v.owner;
    here = tt;
    away = λ i low set other. v.away i low (cleared_waiting s.tcb s.current i _ other set) other;
    over = cleared_over s.tcb s.current _ s.output (omega (arith, v.here.1)) v.over;
  }
  execute-IsExact mark_unassigned s at block h sound v = record {
    owner = v.owner;
    here = tt;
    away = λ i low set other. v.away i low (cleared_waiting s.tcb s.current i _ other set) other;
    over = cleared_over s.tcb s.current _ s.output (v.over s.current block sound.place) v.over;
  }
  execute-IsExact pick s at block h sound v =
      elim (Option-cases (next_thread thread_max s.tcb (pos s.current) 1)) [
        | inl nothing ↦ rw nothing (finish_system-IsExact total pick s at v)
        | inr (next, found) ↦
            rw found (record { owner = v.owner; here = tt; away = v.away; over = v.over })
      ]
  execute-IsExact (store next) s at block h sound v = record {
    owner = tt;
    here = tt;
    away = λ i low set elsewhere. v.away i low set (apart s.tcb i s.current set sound.place.0);
    over = v.over;
  }
  execute-IsExact (switch temp next) s at block h sound v =
      switch-IsExact total temp next s h.1 sound v
  execute-IsExact behind s at block h sound v = absurd sound.place

  happen-IsExact :
      (e : Event) (status : Status) (flag : Bool) (s : System)
      → s.cpu.flag ≡ flag
      → is_spared e s.cpu.pc ≡ true
      → IsSafe s
      → IsSound s
      → IsExact total s
      → IsExact total (happen e status flag s)
  unfolding happen
  happen-IsExact statement running flag s same spared safe sound v =
      execute-IsExact s.cpu.pc s refl safe.block safe.cpu sound v
  happen-IsExact interrupt running true s same spared safe sound v =
      timer-IsExact total s same spared safe sound v
  happen-IsExact interrupt running false s same spared safe sound v = v
  happen-IsExact statement halted flag s same spared safe sound v = v
  happen-IsExact interrupt halted flag s same spared safe sound v = v
  happen-IsExact statement crashed flag s same spared safe sound v = v
  happen-IsExact interrupt crashed flag s same spared safe sound v = v

  run-IsExact :
      (es : List Event) (s : System)
      → all_spared es s ≡ true
      → IsSafe s
      → IsSound s
      → IsExact total s
      → IsExact total (run es s)
  unfolding run all_spared step
  run-IsExact [] s spared safe sound v = v
  run-IsExact (e ∷ es) s spared safe sound v =
      let first = and_left (is_spared e s.cpu.pc) _ spared in
      let rest = and_right (is_spared e s.cpu.pc) _ spared in
      run-IsExact es (step e s) rest (step-IsSafe e s safe)
        (happen-IsSound e s.status s.cpu.flag s refl refl first safe sound)
        (happen-IsExact e s.status s.cpu.flag s refl first safe sound v)

started-IsExact :
    (rounds : ℕ → ℕ) (tcb : ℕ → Tcb)
    → ((i : ℕ) → i < 3 → is_ready (tcb i) ≡ true)
    → IsExact rounds (started rounds tcb [])
unfolding started new_context count_tag rounds_left
started-IsExact rounds tcb ready = record {
  owner = refl;
  here = (ready 0 (omega arith), omega arith);
  away = away;
  over = λ i low clear. absurd (apart tcb i i (ready i low) clear refl);
}
  where
    away :
        (i : ℕ)
        → i < 3
        → is_ready (tcb i) ≡ true
        → i ≢ 0
        → IsAway rounds i [] ((started rounds tcb []).saved i)
    away zero low set other = absurd (other refl)
    away (suc zero) low set other = (refl, omega arith)
    away (suc (suc zero)) low set other = (refl, omega arith)
    away (suc (suc (suc i))) low set other = absurd (omega arith)

-- FIFOS-2, from the start of three ready threads with an empty screen: in any order of statements and
-- interrupts, with the timer never striking between the change of `currentThread` and the `switch_to`
-- behind it, once `left_system` of the start statements have run, the machine has come to its end,
-- `system_finish`, no thread is ready, and each thread has printed its tag exactly as often as it
-- has rounds.
pub count_tag-run :
    (rounds : ℕ → ℕ) (tcb : ℕ → Tcb) (es : List Event)
    → ((i : ℕ) → i < 3 → is_ready (tcb i) ≡ true)
    → all_spared es (started rounds tcb []) ≡ true
    → left_system (started rounds tcb []) ≤ statements es
    → let last = run es (started rounds tcb []) in
      (last.status ≡ halted)
      × ((i : ℕ) → i < 3 → is_ready (last.tcb i) ≡ false)
      × ((i : ℕ) → i < 3 → count_tag (i + 1) last.output ≡ rounds i)
count_tag-run rounds tcb es ready spared enough =
    let start = started rounds tcb [] in
    let safe = started-IsSafe rounds tcb [] in
    let sound = started-IsSound rounds tcb [] in
    let (end, idle) = run-halts es start safe sound spared enough in
    let exact = run-IsExact rounds es start spared safe sound (started-IsExact rounds tcb ready) in
    (end, idle, λ i low. exact.over i low (idle i low))
