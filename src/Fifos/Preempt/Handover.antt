-- ===== src/Fifos/Preempt/Handover.antt =====
-- The timer and `switch_to` of FIFOS-2, with what each thread has printed of its tags.
use cs552operating_system.Base.{
  ℕ, ◌+◌, ◌<◌, ◌≡◌, ◌≢◌, refl, sym, ap, ◌∙◌, true, false, some, [], ◌∷◌, ◌++◌, ◌==◌, update, pos,
  arith, inl, inr, Bool-cases, Option-cases, ==→eq,
}
use mathlib.Core.Path.{subst}
use cs552operating_system.Fifos.Thread.{thread_max}
use cs552operating_system.Fifos.Scheduler.{all_done, is_ready, next_thread}
use cs552operating_system.Fifos.Scheduler.Progress.{count_tag, count_tag-append}
use cs552operating_system.Fifos.Preempt.{
  Pc, switch, behind, Context, System, switch_to, finish_system, preempt, timer, execute, interrupt,
}
use cs552operating_system.Fifos.Preempt.Safety.{IsRunning, IsSafe, next_thread-lt}
use cs552operating_system.Fifos.Preempt.Sound.{
  is_spared, IsBody, IsResumable, IsResumable-update, IsSoundAt, IsSound, apart, is_ready-IsBody,
  is_spared-Elsewhere, next_thread-is_ready,
}
use cs552operating_system.Fifos.Preempt.Exact.{
  IsAway, IsExactAt, IsExact, IsAway-update, resume-IsExact, IsHere-append, IsAway-append,
  IsBody-IsAway,
}

module _ (total : ℕ → ℕ) where
  pub finish_system-IsExact :
      (pc : Pc) (s : System)
      → s.cpu.pc ≡ pc
      → IsExactAt total pc s
      → IsExact total (finish_system s)
  unfolding finish_system count_tag
  finish_system-IsExact pc s at v =
      let w = subst (λ pc. IsExactAt total pc s) (sym at) v in
      let same : (i : ℕ) → count_tag i (s.output ++ (all_done ∷ [])) ≡ count_tag i s.output =
        λ i. omega (arith, count_tag-append i s.output all_done) in
      record {
        owner = w.owner;
        here =
            IsHere-append total s.tcb s.current s.output all_done s.cpu.pc (same (s.current + 1))
              w.here;
        away = λ i low set e.
            IsAway-append total i s.output all_done (s.saved i) (same (i + 1)) (w.away i low set e);
        over = λ i low clear. same (i + 1) ∙ w.over i low clear;
      }

  pub timer-IsExact :
      (s : System)
      → s.cpu.flag ≡ true
      → is_spared interrupt s.cpu.pc ≡ true
      → IsSafe s
      → IsSound s
      → IsExact total s
      → IsExact total (timer s)
  unfolding timer preempt switch_to
  timer-IsExact s enabled spared safe sound v =
      elim (Option-cases (next_thread thread_max s.tcb (pos s.current) 1)) [
        | inl nothing ↦ rw nothing (finish_system-IsExact s.cpu.pc s refl v)
        | inr (next, found) ↦
            let set = next_thread-is_ready s next safe.block found in
            let small = next_thread-lt s.tcb s.current next safe.block found in
            let allowed : IsRunning s.cpu.pc true = subst (IsRunning s.cpu.pc) enabled safe.cpu in
            let left_behind : Context = record (s.cpu) { flag = false } in
            let saved = update s.saved s.current (some left_behind) in
            let body : is_ready (s.tcb s.current) ≡ true → IsBody s.cpu.pc =
              is_ready-IsBody s.tcb s.current s.cpu.pc spared allowed sound.place in
            let kept : (i : ℕ)
                → i < 3
                → is_ready (s.tcb i) ≡ true
                → IsResumable (saved i) × IsAway total i s.output (saved i) =
              λ i low ready. elim (Bool-cases (i == s.current)) [
                | inl same ↦
                    let here = ==→eq i s.current same in
                    let inside = body (sym (ap (λ k. is_ready (s.tcb k)) here) ∙ ready) in
                    rw same (
                      inside,
                      IsBody-IsAway total i s.cpu.owner s.current s.tcb s.output s.cpu.pc here
                          inside v.owner v.here,
                    )
                | inr other ↦
                    let apart_from : i ≢ s.current = ground (arith, other) in
                    let elsewhere = is_spared-Elsewhere i s.current s.cpu.pc spared apart_from in
                    rw other (sound.waiting i low ready elsewhere, v.away i low ready elsewhere)
              ] in
            rw found (
              resume-IsExact total (saved next) next (record s { current = next; saved = saved })
                refl (kept next small set).0 set (kept next small set).1
                (λ i low ready other. (kept i low ready).1) v.over)
      ]

  pub switch-IsExact :
      (temp next : ℕ) (s : System)
      → next < 3
      → IsSoundAt (switch temp next) s
      → IsExactAt total (switch temp next) s
      → IsExact total (execute (switch temp next) s)
  unfolding execute switch_to
  switch-IsExact temp next s small sound v =
      let gone : Context = record (s.cpu) { pc = behind } in
      let saved = update s.saved temp (some gone) in
      let (clear, set, same) = sound.place in
      let away : (i : ℕ) → i < 3 → is_ready (s.tcb i) ≡ true → IsAway total i s.output (saved i) =
        λ i low ready.
          IsAway-update total s.output s.saved i temp (some gone) (apart s.tcb i temp ready clear)
            (v.away i low ready tt) in
      let there : IsResumable (saved next) =
        IsResumable-update s.saved next temp (some gone) (apart s.tcb next temp set clear)
          (sound.waiting next small set tt) in
      resume-IsExact total (saved next) next (record s { saved = saved }) same there set
        (away next small set) (λ i low ready other. away i low ready) v.over
