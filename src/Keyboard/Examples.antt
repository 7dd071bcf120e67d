-- ===== src/Keyboard/Examples.antt =====
-- The theorems on the keyboard at concrete inputs.
use cs552operating_system.Base.{
  ℕ, ◌≡◌, ◌⊎◌, refl, codes, true, false, List, [], ◌∷◌, ◌++◌, inl, inr, arith,
}
use cs552operating_system.Base.ProcFiles.Example.{
  created, filled, removed, requested, released, interrupts, proc_files,
}
use cs552operating_system.Keyboard.Register.{initialization_routine, cleanup_routine}
use cs552operating_system.Keyboard.{
  scancode, entered, waiting, served, Kbd, Event, irq, statement, signal, step, run,
}
use cs552operating_system.Keyboard.Served.{served-AllPress}
use cs552operating_system.Keyboard.Due.{statements, run-served}

abbrev IsQOrW : ℕ → Type 0
IsQOrW key = (key ≡ b'q') ⊎ (key ≡ b'w')

-- A key was pressed before the call.
abbrev after_a : Kbd
after_a = record { kbd_key = b'a'; ev_press = 1; call = entered }

abbrev in_wait : Kbd
in_wait = record { kbd_key = b'a'; ev_press = 0; call = waiting }

-- `q` goes down and up, and `w` goes down before the key is read.
abbrev q_and_w : List Event
q_and_w = statement ∷ irq 0x10 ∷ statement ∷ irq 0x90 ∷ irq 0x11 ∷ statement ∷ statement ∷ []

gets_w : (run q_and_w after_a).call ≡ served (b'w')
unfolding run step scancode
gets_w = refl

-- At a signal the call gets the key from before it.
gets_old : (run (statement ∷ signal ∷ statement ∷ statement ∷ []) after_a).call ≡ served (b'a')
unfolding run step
gets_old = refl

-- The key from before the call alone does not serve it.
still_waits : (run (statement ∷ statement ∷ statement ∷ statement ∷ []) after_a).call ≡ waiting
unfolding run step
still_waits = refl

served-AllPress_example : IsQOrW (b'w')
unfolding run step scancode
served-AllPress_example =
    served-AllPress IsQOrW q_and_w after_a (b'w') refl
      (
        λ down. inl refl,
        (λ up. absurd (let never : false ≡ true = up in cc), (λ down. inr refl, tt)),
      )
      refl

run-served_example :
    (key : ℕ) × ((run
        ((statement ∷ []) ++ (irq 0x10 ∷ (statement ∷ statement ∷ irq 0x90 ∷ statement ∷ [])))
        in_wait).call
      ≡ served key)
unfolding statements
run-served_example =
    run-served (statement ∷ []) (statement ∷ statement ∷ irq 0x90 ∷ statement ∷ []) 0x10 in_wait tt
      refl (omega arith)

-- What KBD_module.c asks of the kernel when it is loaded and removed, the last call first.
registered :
    cleanup_routine interrupts proc_files 55
      (initialization_routine interrupts proc_files 44 55 []).1
    ≡ released 1 55
      ∷ removed (codes "ioctl_test")
      ∷ requested 1 55 128 (codes "KBD_IRQ") 55
      ∷ released 1 0
      ∷ filled 1 44
      ∷ created (codes "ioctl_test") 292
      ∷ []
unfolding cleanup_routine initialization_routine
registered = refl
