-- ===== src/Keyboard/Due.antt =====
-- A call of KBD_module.c is served once a key goes down.
use cs552operating_system.Base.{
  ℕ, suc, ◌≤◌, ◌≡◌, ◌≢◌, refl, ap, ◌∙◌, true, false, List, [], ◌∷◌, ◌++◌, ◌==◌, arith, inl, inr,
  Bool-cases,
}
use cs552operating_system.Keyboard.{
  is_press, Call, entered, waiting, woken, cleared, served, Kbd, ir_getchar, go_on, Event, irq,
  statement, signal, interrupt_wait, step, run,
}

unfoldable pub statements : List Event → ℕ
statements [] = 0
statements (irq c ∷ es) = statements es
statements (statement ∷ es) = suc (statements es)
statements (signal ∷ es) = statements es

-- A call with at most `n` statements left, and nothing to wait for.
abbrev IsDue : ℕ → Call → ℕ → Type 0
IsDue n entered pressed = ⊥
IsDue n waiting pressed = (pressed ≢ 0) × (3 ≤ n)
IsDue n woken pressed = 2 ≤ n
IsDue n cleared pressed = 1 ≤ n
IsDue n (served key) pressed = Unit

abbrev pub HasStarted : Call → Type 0
HasStarted entered = ⊥
HasStarted waiting = Unit
HasStarted woken = Unit
HasStarted cleared = Unit
HasStarted (served key) = Unit

press-IsDue : (n : ℕ) (call : Call) (old : ℕ) → IsDue n call old → IsDue n call 1
press-IsDue n entered old h = h
press-IsDue n waiting old h = (omega arith, h.1)
press-IsDue n woken old h = h
press-IsDue n cleared old h = h
press-IsDue n (served key) old h = h

HasStarted-IsDue : (n : ℕ) (call : Call) → 3 ≤ n → HasStarted call → IsDue n call 1
HasStarted-IsDue n entered few h = h
HasStarted-IsDue n waiting few h = (omega arith, few)
HasStarted-IsDue n woken few h = omega arith
HasStarted-IsDue n cleared few h = omega arith
HasStarted-IsDue n (served key) few h = tt

irq-IsDue :
    (n c : ℕ) (s : Kbd)
    → IsDue n s.call s.ev_press
    → IsDue n (ir_getchar c s).call (ir_getchar c s).ev_press
unfolding ir_getchar
irq-IsDue n c s h = elim (Bool-cases (is_press c)) [
  | inl down ↦ rw down (press-IsDue n s.call s.ev_press h)
  | inr up ↦ rw up h
]

go_on-IsDue :
    (n : ℕ) (call : Call) (s : Kbd)
    → s.call ≡ call
    → IsDue (suc n) call s.ev_press
    → IsDue n (go_on call s).call (go_on call s).ev_press
unfolding go_on
go_on-IsDue n entered s e h = absurd h
go_on-IsDue n waiting s e h =
    let pressed : (s.ev_press == 0) ≡ false = ground (arith, h.0) in rw pressed (omega (arith, h.1))
go_on-IsDue n woken s e h = omega arith
go_on-IsDue n cleared s e h = tt
go_on-IsDue n (served key) s e h = rw e tt

signal-IsDue :
    (n : ℕ) (call : Call) (s : Kbd)
    → s.call ≡ call
    → IsDue n call s.ev_press
    → IsDue n (interrupt_wait call s).call (interrupt_wait call s).ev_press
unfolding interrupt_wait
signal-IsDue n entered s e h = absurd h
signal-IsDue n waiting s e h = omega (arith, h.1)
signal-IsDue n woken s e h = rw e h
signal-IsDue n cleared s e h = rw e h
signal-IsDue n (served key) s e h = rw e tt

IsDue-served : (call : Call) (pressed : ℕ) → IsDue 0 call pressed → (key : ℕ) × (call ≡ served key)
IsDue-served entered pressed h = absurd h
IsDue-served waiting pressed h = absurd (omega (arith, h.1))
IsDue-served woken pressed h = absurd (omega arith)
IsDue-served cleared pressed h = absurd (omega arith)
IsDue-served (served key) pressed h = (key, refl)

run-IsDue :
    (es : List Event) (s : Kbd)
    → IsDue (statements es) s.call s.ev_press
    → IsDue 0 (run es s).call (run es s).ev_press
unfolding run step statements
run-IsDue [] s h = h
run-IsDue (irq c ∷ es) s h = run-IsDue es (ir_getchar c s) (irq-IsDue (statements es) c s h)
run-IsDue (statement ∷ es) s h =
    run-IsDue es (go_on s.call s) (go_on-IsDue (statements es) s.call s refl h)
run-IsDue (signal ∷ es) s h =
    run-IsDue es (interrupt_wait s.call s) (signal-IsDue (statements es) s.call s refl h)

go_on-HasStarted : (call : Call) (s : Kbd) → s.call ≡ call → HasStarted (go_on call s).call
unfolding go_on
go_on-HasStarted entered s e = tt
go_on-HasStarted waiting s e = elim (Bool-cases (s.ev_press == 0)) [
  | inl none_yet ↦ rw none_yet (rw e tt)
  | inr pressed ↦ rw pressed tt
]
go_on-HasStarted woken s e = tt
go_on-HasStarted cleared s e = tt
go_on-HasStarted (served key) s e = rw e tt

irq-HasStarted : (c : ℕ) (s : Kbd) → HasStarted s.call → HasStarted (ir_getchar c s).call
unfolding ir_getchar
irq-HasStarted c s h = elim (Bool-cases (is_press c)) [ inl down ↦ rw down h | inr up ↦ rw up h ]

signal-HasStarted :
    (call : Call) (s : Kbd)
    → s.call ≡ call
    → HasStarted call
    → HasStarted (interrupt_wait call s).call
unfolding interrupt_wait
signal-HasStarted entered s e h = absurd h
signal-HasStarted waiting s e h = tt
signal-HasStarted woken s e h = rw e tt
signal-HasStarted cleared s e h = rw e tt
signal-HasStarted (served key) s e h = rw e tt

run-HasStarted : (es : List Event) (s : Kbd) → HasStarted s.call → HasStarted (run es s).call
unfolding run step
run-HasStarted [] s h = h
run-HasStarted (irq c ∷ es) s h = run-HasStarted es (ir_getchar c s) (irq-HasStarted c s h)
run-HasStarted (statement ∷ es) s h =
    run-HasStarted es (go_on s.call s) (go_on-HasStarted s.call s refl)
run-HasStarted (signal ∷ es) s h =
    run-HasStarted es (interrupt_wait s.call s) (signal-HasStarted s.call s refl h)

run-append : (es fs : List Event) (s : Kbd) → run (es ++ fs) s ≡ run fs (run es s)
unfolding run
run-append [] fs s = refl
run-append (e ∷ es) fs s = run-append es fs (step e s)

ir_getchar-IsDue :
    (c n : ℕ) (s : Kbd)
    → is_press c ≡ true
    → 3 ≤ n
    → HasStarted s.call
    → IsDue n (ir_getchar c s).call (ir_getchar c s).ev_press
unfolding ir_getchar
ir_getchar-IsDue c n s down few h = rw down (HasStarted-IsDue n s.call few h)

-- A call behind its first statement is served, whatever happens before and after: once a key has gone
-- down, three more of its statements are enough.
pub run-served :
    (es fs : List Event) (c : ℕ) (s : Kbd)
    → HasStarted s.call
    → is_press c ≡ true
    → 3 ≤ statements fs
    → (key : ℕ) × ((run (es ++ (irq c ∷ fs)) s).call ≡ served key)
unfolding run step
run-served es fs c s started down few =
    let s1 = run es s in
    let due =
      run-IsDue fs (ir_getchar c s1)
        (ir_getchar-IsDue c (statements fs) s1 down few (run-HasStarted es s started)) in
    let last = run fs (ir_getchar c s1) in
    let (key, end) = IsDue-served last.call last.ev_press due in
    (key, ap (λ x. x.call) (run-append es (irq c ∷ fs) s) ∙ end)
