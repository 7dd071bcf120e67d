-- ===== src/Keyboard/Served.antt =====
-- The key that a call of KBD_module.c gets.
use cs552operating_system.Base.{
  ℕ, ◌≡◌, ◌≢◌, refl, true, List, [], ◌∷◌, ◌==◌, arith, inl, inr, Bool-cases,
}
use mathlib.Core.Path.{subst}
use cs552operating_system.Keyboard.{
  scancode, is_press, Call, entered, waiting, woken, cleared, served, Kbd, ir_getchar, go_on, Event,
  irq, statement, signal, step, run,
}

-- What holds of the keys that go down during some events, among which no signal is.
abbrev pub AllPress : (ℕ → Type 0) → List Event → Type 0
AllPress P [] = Unit
AllPress P (irq c ∷ es) = (is_press c ≡ true → P (scancode c)) × AllPress P es
AllPress P (statement ∷ es) = AllPress P es
AllPress P (signal ∷ es) = ⊥

abbrev IsFresh : (ℕ → Type 0) → Call → ℕ → ℕ → Type 0
IsFresh P entered key pressed = Unit
IsFresh P waiting key pressed = pressed ≢ 0 → P key
IsFresh P woken key pressed = P key
IsFresh P cleared key pressed = P key
IsFresh P (served k) key pressed = P k

press-IsFresh :
    (P : ℕ → Type 0) (call : Call) (key old pressed : ℕ)
    → P key
    → IsFresh P call old pressed
    → IsFresh P call key 1
press-IsFresh P entered key old pressed p h = tt
press-IsFresh P waiting key old pressed p h = λ _. p
press-IsFresh P woken key old pressed p h = p
press-IsFresh P cleared key old pressed p h = p
press-IsFresh P (served k) key old pressed p h = h

ir_getchar-IsFresh :
    (P : ℕ → Type 0) (c : ℕ) (s : Kbd)
    → (is_press c ≡ true → P (scancode c))
    → IsFresh P s.call s.kbd_key s.ev_press
    → let s' = ir_getchar c s in IsFresh P s'.call s'.kbd_key s'.ev_press
unfolding ir_getchar
ir_getchar-IsFresh P c s p h = elim (Bool-cases (is_press c)) [
  | inl down ↦ rw down (press-IsFresh P s.call (scancode c) s.kbd_key s.ev_press (p down) h)
  | inr up ↦ rw up h
]

go_on-IsFresh :
    (P : ℕ → Type 0) (call : Call) (s : Kbd)
    → s.call ≡ call
    → IsFresh P call s.kbd_key s.ev_press
    → let s' = go_on call s in IsFresh P s'.call s'.kbd_key s'.ev_press
unfolding go_on
go_on-IsFresh P entered s e h = λ set. absurd (set refl)
go_on-IsFresh P waiting s e h = elim (Bool-cases (s.ev_press == 0)) [
  | inl none_yet ↦ rw none_yet (rw e h)
  | inr pressed ↦ rw pressed (h (ground arith))
]
go_on-IsFresh P woken s e h = h
go_on-IsFresh P cleared s e h = h
go_on-IsFresh P (served k) s e h = rw e h

run-IsFresh :
    (P : ℕ → Type 0) (es : List Event) (s : Kbd)
    → AllPress P es
    → IsFresh P s.call s.kbd_key s.ev_press
    → let s' = run es s in IsFresh P s'.call s'.kbd_key s'.ev_press
unfolding run step
run-IsFresh P [] s a h = h
run-IsFresh P (irq c ∷ es) s a h =
    run-IsFresh P es (ir_getchar c s) a.1 (ir_getchar-IsFresh P c s a.0 h)
run-IsFresh P (statement ∷ es) s a h =
    run-IsFresh P es (go_on s.call s) a (go_on-IsFresh P s.call s refl h)
run-IsFresh P (signal ∷ es) s a h = absurd a

-- A call that no signal interrupts, whatever was pressed before it: if it is served a key, every
-- property of the keys that go down from its start on is one of that key.
pub served-AllPress :
    (P : ℕ → Type 0) (es : List Event) (s : Kbd) (key : ℕ)
    → s.call ≡ entered
    → AllPress P es
    → (run es s).call ≡ served key
    → P key
served-AllPress P es s key start a end =
    let last = run es s in
    subst (λ call. IsFresh P call last.kbd_key last.ev_press) end
      (run-IsFresh P es s a (rw start tt))
