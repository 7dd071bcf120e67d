-- ===== src/Fifos/Scheduler/Pick.antt =====
-- The thread that `scheduler` picks.
use cs552operating_system.Base.{
  ℕ, ◌+◌, ◌%◌, ◌^◌, ◌≤◌, ◌<◌, ◌≡◌, ◌⊎◌, ◌↔◌, refl, true, false, Option, none, some, arith, ◌==◌,
  if◌then◌else◌, pos, negsuc, inl, inr, sym, Bool-cases, ==→eq,
}
use cs552operating_system.Fifos.Thread.{Tcb, thread_max}
use cs552operating_system.Fifos.Scheduler.{is_ready, next_thread}

-- The three threads after `current`, in the order in which they are tried.
abbrev pub after : ℕ → ℕ → ℕ
after current i = (current + i) % 3

-- The first ready one of the three threads after the current one, which comes last itself.
unfoldable pub round_robin : (ℕ → Tcb) → ℕ → Option ℕ
round_robin tcb c =
    if is_ready (tcb (after c 1))
    then some (after c 1)
    else if is_ready (tcb (after c 2))
    then some (after c 2)
    else if is_ready (tcb (after c 3))
    then some (after c 3)
    else none

wrap : (c i : ℕ) → c < 3 → i ≤ 3 → (c % 2 ^ 32 + i) % 2 ^ 32 % 3 ≡ after c i
wrap c i h k = omega arith

pub next_thread-round_robin :
    (tcb : ℕ → Tcb) (c : ℕ) → c < 3 → next_thread thread_max tcb (pos c) 1 ≡ round_robin tcb c
unfolding next_thread round_robin
next_thread-round_robin tcb c h =
    rw (wrap c 1 h (omega arith), wrap c 2 h (omega arith), wrap c 3 h (omega arith))

-- Before any thread runs, the search starts at the first thread.
pub next_thread-start :
    (tcb : ℕ → Tcb) → next_thread thread_max tcb (negsuc 0) 1 ≡ round_robin tcb 2
unfolding next_thread round_robin
next_thread-start tcb = refl

Picked : (ℕ → Tcb) → ℕ → ℕ → Type 0
Picked tcb c n =
    (i : ℕ) × (1 ≤ i)
    × (i ≤ 3)
    × (n ≡ after c i)
    × (is_ready (tcb n) ≡ true)
    × ((j : ℕ) → 1 ≤ j → j < i → is_ready (tcb (after c j)) ≡ false)

one_before : (j : ℕ) → 1 ≤ j → j < 2 → j ≡ 1
one_before j p q = omega arith

two : (j : ℕ) → 1 ≤ j → j < 3 → (j == 1) ≡ false → j ≡ 2
two j p q other = ground arith

round_robin-Picked : (tcb : ℕ → Tcb) (c n : ℕ) → round_robin tcb c ≡ some n → Picked tcb c n
unfolding round_robin Picked
round_robin-Picked tcb c n h = elim (Bool-cases (is_ready (tcb (after c 1)))) [
  | inl r1 ↦
      let h' : some (after c 1) ≡ some n = rw r1 at h in
      let e : after c 1 ≡ n = cc in
      (1, omega arith, omega arith, sym e, rw (← e) r1, λ j p q. absurd (omega arith))
  | inr u1 ↦ elim (Bool-cases (is_ready (tcb (after c 2)))) [
    | inl r2 ↦
        let h' : some (after c 2) ≡ some n = rw (u1, r2) at h in
        let e : after c 2 ≡ n = cc in
        (2, omega arith, omega arith, sym e, rw (← e) r2, λ j p q. rw (one_before j p q) u1)
    | inr u2 ↦ elim (Bool-cases (is_ready (tcb (after c 3)))) [
      | inl r3 ↦
          let h' : some (after c 3) ≡ some n = rw (u1, u2, r3) at h in
          let e : after c 3 ≡ n = cc in
          (
            3,
            omega arith,
            omega arith,
            sym e,
            rw (← e) r3,
            λ j p q. elim (Bool-cases (j == 1)) [
              | inl one ↦ rw (==→eq j 1 one) u1
              | inr other ↦ rw (two j p q other) u2
            ],
          )
      | inr u3 ↦ let h' : none ≡ some n = rw (u1, u2, u3) at h in cc
    ]
  ]
]

covers : (c t : ℕ) → c < 3 → t < 3 → (t ≡ after c 1) ⊎ ((t ≡ after c 2) ⊎ (t ≡ after c 3))
covers c t h k = ground arith

round_robin-unready :
    (tcb : ℕ → Tcb) (c : ℕ)
    → round_robin tcb c ≡ none
    → (is_ready (tcb (after c 1)) ≡ false)
      × (is_ready (tcb (after c 2)) ≡ false)
      × (is_ready (tcb (after c 3)) ≡ false)
unfolding round_robin
round_robin-unready tcb c e = ground arith

round_robin-none :
    (tcb : ℕ → Tcb) (c : ℕ)
    → c < 3
    → round_robin tcb c ≡ none
    → (t : ℕ) → t < 3
    → is_ready (tcb t) ≡ false
round_robin-none tcb c h e t k =
    let (u1, u2, u3) = round_robin-unready tcb c e in
    elim (covers c t h k) [ inl p ↦ rw p u1 | inr (inl p) ↦ rw p u2 | inr (inr p) ↦ rw p u3 ]

none-round_robin :
    (tcb : ℕ → Tcb) (c : ℕ)
    → ((t : ℕ) → t < 3 → is_ready (tcb t) ≡ false)
    → round_robin tcb c ≡ none
unfolding round_robin
none-round_robin tcb c all =
    rw (all (after c 1) (omega arith), all (after c 2) (omega arith), all (after c 3) (omega arith))

-- The scheduler, with thread `c` running, picks a thread that is ready, and passes over no thread that
-- is ready and comes earlier in the order behind `c`; it finds none exactly if none of the three is
-- ready.
pub next_thread-fair :
    (tcb : ℕ → Tcb) (c : ℕ)
    → c < 3
    → ((n : ℕ)
        → next_thread thread_max tcb (pos c) 1 ≡ some n
        → (i : ℕ) × (1 ≤ i)
          × (i ≤ 3)
          × (n ≡ after c i)
          × (is_ready (tcb n) ≡ true)
          × ((j : ℕ) → 1 ≤ j → j < i → is_ready (tcb (after c j)) ≡ false))
      × ((next_thread thread_max tcb (pos c) 1 ≡ none)
          ↔ ((t : ℕ) → t < 3 → is_ready (tcb t) ≡ false))
unfolding Picked
next_thread-fair tcb c h =
    rw (next_thread-round_robin tcb c h)
      (round_robin-Picked tcb c, (round_robin-none tcb c h, none-round_robin tcb c))
