-- ===== src/Fifos/Create.antt =====
-- What `threadCreate` and `createThreads` leave in the array of control blocks.
use cs552operating_system.Base.{
  ℕ, zero, suc, ◌+◌, ◌≤◌, ◌<◌, ◌≡◌, ◌≢◌, ◌⊎◌, refl, inl, inr, Bool-cases, ==→eq, arith, ◌==◌,
  if◌then◌else◌,
}
use cs552operating_system.Fifos.Thread.{
  Tcb, Threads, thread_max, find_unassigned, new_tcb, thread_create, init_tcb_array, create_threads,
}

record Found (tcb : ℕ → Tcb) (k i id : ℕ) : Type 0 where
  above : i ≤ id
  below : id ≤ i + k
  busy : (j : ℕ) → i ≤ j → j < id → (tcb j).assigned ≢ 0
  free : id < i + k → (tcb id).assigned ≡ 0

find_unassigned-Found : (k : ℕ) (tcb : ℕ → Tcb) (i : ℕ) → Found tcb k i (find_unassigned k tcb i)
unfolding find_unassigned
find_unassigned-Found zero tcb i = record {
  above = omega arith;
  below = omega arith;
  busy = λ j p q. absurd (omega arith);
  free = λ h. absurd (omega arith);
}
find_unassigned-Found (suc k) tcb i = elim (Bool-cases ((tcb i).assigned == 0)) [
  | inl hit ↦ rw hit (record {
    above = omega arith;
    below = omega arith;
    busy = λ j p q. absurd (omega arith);
    free = λ h. ==→eq _ _ hit;
  })
  | inr miss ↦
      let n = find_unassigned-Found k tcb (i + 1) in
      rw miss (record {
        above = omega (arith, n.above);
        below = omega (arith, n.below);
        busy = λ j p q. elim (Bool-cases (j == i)) [
          | inl same ↦ rw (==→eq j i same) (ground arith)
          | inr other ↦ n.busy j (ground arith) q
        ];
        free = λ h. n.free (omega arith);
      })
]

-- `threadCreate` refuses, and changes nothing, exactly if the three blocks are assigned; otherwise it
-- fills the first block that is not assigned, which is then assigned and not finished, and leaves the
-- other blocks as they were.
pub thread_create_lem :
    (flags function stack : ℕ) (t : Threads)
    → let (t', r) = thread_create flags function stack t in
      let id = find_unassigned thread_max t.tcb 0 in
      ((t' ≡ t) × (r ≡ 0) × ((j : ℕ) → j < 3 → (t.tcb j).assigned ≢ 0))
      ⊎ ((r ≡ 1)
          × (id < 3)
          × ((t.tcb id).assigned ≡ 0)
          × ((j : ℕ) → j < id → (t.tcb j).assigned ≢ 0)
          × ((j : ℕ) → t'.tcb j ≡ (if j == id then new_tcb id function stack else t.tcb j)))
unfolding thread_create
thread_create_lem flags function stack t =
    let n = find_unassigned-Found 3 t.tcb 0 in
    elim (Bool-cases (find_unassigned thread_max t.tcb 0 == 3)) [
      | inl full ↦ inl (rw full refl, rw full refl, λ j h. n.busy j (omega arith) (ground arith))
      | inr room ↦ inr (
        rw room refl,
        ground (arith, n.below),
        n.free (ground (arith, n.below)),
        λ j h. n.busy j (omega arith) h,
        λ j. rw room refl,
      )
    ]

-- After `initTCBArray`, `createThreads` creates all three threads, and thread `j` has the block
-- that `threadCreate` writes for it in place `j` of the array.
pub create_threads_lem :
    (flags : ℕ) (function stack : ℕ → ℕ) (t : Threads)
    → let (t', r1, r2, r3) = create_threads flags function stack (init_tcb_array t) in
      (r1 ≡ 1)
      × (r2 ≡ 1)
      × (r3 ≡ 1)
      × (t'.tcb 0 ≡ new_tcb 0 (function 1) (stack 1))
      × (t'.tcb 1 ≡ new_tcb 1 (function 2) (stack 2))
      × (t'.tcb 2 ≡ new_tcb 2 (function 3) (stack 3))
unfolding create_threads find_unassigned init_tcb_array new_tcb
create_threads_lem flags function stack t = (refl, refl, refl, refl, refl, refl)
