-- ===== src/Fifos/Scheduler/Progress.antt =====
-- Every thread prints as often as its count says, and the machine stops.
use cs552operating_system.Base.{
  ℕ, zero, suc, ◌+◌, ◌≤◌, ◌<◌, ◌≡◌, ◌⊎◌, refl, sym, ap, true, false, Option, none, some, List, [],
  ◌∷◌, ◌++◌, arith, ◌==◌, if◌then◌else◌, pos, inl, inr, Option-cases,
}
use mathlib.Core.Path.{subst}
use cs552operating_system.Fifos.Thread.{thread_max}
use cs552operating_system.Fifos.Scheduler.{
  Line, tag, funished, all_done, Machine, is_ready, next_thread, dispatch, scheduler, body, turn,
  step_of, run,
}
use cs552operating_system.Fifos.Scheduler.Pick.{next_thread-fair}

-- How often the tag of a function is on the screen.
unfoldable pub count_tag : ℕ → List Line → ℕ
count_tag n [] = 0
count_tag n (tag k ∷ ls) = count_tag n ls + (if k == n then 1 else 0)
count_tag n (funished k ∷ ls) = count_tag n ls
count_tag n (all_done ∷ ls) = count_tag n ls

pub count_tag-append :
    (n : ℕ) (ls : List Line) (l : Line)
    → count_tag n (ls ++ (l ∷ [])) ≡ count_tag n ls + count_tag n (l ∷ [])
unfolding count_tag
count_tag-append n [] l = omega arith
count_tag-append n (tag k ∷ ls) l = omega (arith, count_tag-append n ls l)
count_tag-append n (funished k ∷ ls) l = count_tag-append n ls l
count_tag-append n (all_done ∷ ls) l = count_tag-append n ls l

-- The rounds that a thread has left, and the turns: one more, for its end.
abbrev pub left : Machine → ℕ → ℕ
left m t = if is_ready (m.tcb t) then m.times t else 0

abbrev turns : Machine → ℕ → ℕ
turns m t = if is_ready (m.tcb t) then m.times t + 1 else 0

abbrev pub turns_left : Machine → ℕ
turns_left m = turns m 0 + turns m 1 + turns m 2

-- A thread runs, or all three have ended.
abbrev pub Runs : Machine → ℕ → Type 0
Runs m c = (m.halted ≡ false) × (m.current ≡ pos c) × (c < 3) × (is_ready (m.tcb c) ≡ true)

abbrev Ended : Machine → Type 0
Ended m = (m.halted ≡ true) × ((t : ℕ) → t < 3 → is_ready (m.tcb t) ≡ false)

-- Three functions, no two the same, with the tags printed and those left adding up to `total`.
record Counts (f total : ℕ → ℕ) (m : Machine) : Type 0 where
  named : (t : ℕ) → t < 3 → (m.tcb t).function ≡ f t
  adds : (t : ℕ) → t < 3 → count_tag (f t) m.output + left m t ≡ total t

body-turns : (c : ℕ) (m : Machine) → Runs m c → turns_left (body c m) + 1 ≡ turns_left m
unfolding body
body-turns zero m r = ground arith
body-turns (suc zero) m r = ground arith
body-turns (suc (suc zero)) m r = ground arith
body-turns (suc (suc (suc c))) m r = absurd (omega arith)

module _ (f total : ℕ → ℕ) (apart : (t j : ℕ) → t < 3 → j < 3 → f t ≡ f j → t ≡ j) where
  body-Counts : (c : ℕ) (m : Machine) → Runs m c → Counts f total m → Counts f total (body c m)
  unfolding body count_tag
  body-Counts c m r k = record {
    named = λ t h. ground (arith, k.named t h, k.named c r.2);
    adds = λ t h. ground (
      arith,
      k.adds t h,
      k.named c r.2,
      apart c t r.2 h,
      count_tag-append (f t) m.output (tag ((m.tcb c).function)),
      count_tag-append (f t) m.output (funished ((m.tcb c).function)),
    );
  }

  -- Where the machine stands between two turns.
  record Between (m : Machine) : Type 0 where
    counts : Counts f total m
    stands : ((c : ℕ) × Runs m c) ⊎ Ended m

  dispatch-Counts : (o : Option ℕ) (m : Machine) → Counts f total m → Counts f total (dispatch o m)
  unfolding dispatch count_tag
  dispatch-Counts none m k = record {
    named = k.named;
    adds = λ t h. ground (arith, k.adds t h, count_tag-append (f t) m.output all_done);
  }
  dispatch-Counts (some n) m k = record { named = k.named; adds = k.adds }

  dispatch-turns : (o : Option ℕ) (m : Machine) → turns_left (dispatch o m) ≡ turns_left m
  unfolding dispatch
  dispatch-turns none m = refl
  dispatch-turns (some n) m = refl

  scheduler-Between :
      (c : ℕ) (m : Machine)
      → m.halted ≡ false
      → m.current ≡ pos c
      → c < 3
      → Counts f total m
      → Between (scheduler m) × (turns_left (scheduler m) ≡ turns_left m)
  unfolding scheduler
  scheduler-Between c m running current h k =
      let (some_ready, (none_ready, _)) = next_thread-fair m.tcb c h in
      let e : next_thread thread_max m.tcb m.current 1 ≡ next_thread thread_max m.tcb (pos c) 1 =
        ap (λ z. next_thread thread_max m.tcb z 1) current in
      rw e (elim (Option-cases (next_thread thread_max m.tcb (pos c) 1)) [
        | inl ended ↦ rw ended (
          record {
            counts = dispatch-Counts none m k;
            stands = inr (unfold dispatch in (refl, none_ready ended));
          },
          dispatch-turns none m,
        )
        | inr (n, found) ↦
            let (i, _, _, at, ready, _) = some_ready n found in
            rw found (
              record {
                counts = dispatch-Counts (some n) m k;
                stands = inl (n, unfold dispatch in (running, refl, omega arith, ready));
              },
              dispatch-turns (some n) m,
            )
      ])

  turn-Between :
      (c : ℕ) (m : Machine)
      → Runs m c
      → Counts f total m
      → Between (turn c m) × (turns_left (turn c m) + 1 ≡ turns_left m)
  unfolding turn
  turn-Between c m r k =
      let (b, same) =
        scheduler-Between c (body c m) (halted r) (current r) r.2 (body-Counts c m r k) in
      (b, omega (arith, same, body-turns c m r))
    where
      halted : Runs m c → (body c m).halted ≡ false
      halted r = unfold body in ground arith

      current : Runs m c → (body c m).current ≡ pos c
      current r = unfold body in ground arith

  Ended-turns : (m : Machine) → Ended m → turns_left m ≡ 0
  Ended-turns m e = ground (arith, e.1 0, e.1 1, e.1 2)

  step_running : (c : ℕ) (m : Machine) → Runs m c → step_of m.halted m.current m ≡ turn c m
  unfolding step_of
  step_running c m r = λ i. step_of (r.0 i) (r.1 i) m

  step-Ended : (m : Machine) → Ended m → step_of m.halted m.current m ≡ m
  unfolding step_of
  step-Ended m e = λ i. step_of (e.0 i) m.current m

  -- What is reached with all turns spent.
  abbrev Finished : Machine → Type 0
  Finished m = Ended m × Counts f total m

  run_from :
      (k : ℕ) (m : Machine)
      → Counts f total m
      → ((c : ℕ) × Runs m c) ⊎ Ended m
      → turns_left m ≤ k
      → Finished (run k m)
  unfolding run
  run_from zero m n (inl (c, r)) enough = absurd (omega (arith, body-turns c m r))
  run_from zero m n (inr e) enough = (e, n)
  run_from (suc k) m n (inl (c, r)) enough =
      let (b, fewer) = turn-Between c m r n in
      subst (λ m'. Finished (run k m')) (sym (step_running c m r))
        (run_from k (turn c m) b.counts b.stands (omega (arith, fewer)))
  run_from (suc k) m n (inr e) enough =
      subst (λ m'. Finished (run k m')) (sym (step-Ended m e))
        (run_from k m n (inr e) (omega (arith, Ended-turns m e)))

  -- Three threads with functions that are not the same, one of them running, and any number of rounds
  -- in each: after as many turns as they have left, each printing one tag or ending, the machine has
  -- stopped with no thread ready, and the tag of each function has been printed exactly as many more
  -- times as its thread had rounds left.
  pub run-prints :
      (m : Machine) (c : ℕ)
      → Runs m c
      → ((t : ℕ) → t < 3 → (m.tcb t).function ≡ f t)
      → ((t : ℕ) → t < 3 → count_tag (f t) m.output + left m t ≡ total t)
      → ((run (turns_left m) m).halted ≡ true)
        × ((t : ℕ) → t < 3 → is_ready ((run (turns_left m) m).tcb t) ≡ false)
        × ((t : ℕ) → t < 3 → count_tag (f t) (run (turns_left m) m).output ≡ total t)
  run-prints m c r named adds =
      let (e, n) =
        run_from (turns_left m) m (record { named = named; adds = adds }) (inl (c, r))
          (omega arith) in
      (e.0, e.1, λ t h. ground (arith, n.adds t h, e.1 t h))
