-- ===== src/Keyboard/Polled.antt =====
-- The key that a call of KBD_module_noIR.c gets.
use cs552operating_system.Base.{
  ℕ, ◌≡◌, ◌∙◌, refl, Bool, true, false, not, ◌||◌, some, List, [], ◌∷◌, ◌++◌, bit_and, ◌==◌,
}
use cs552operating_system.Keyboard.{scancode, is_press, my_getchar, einval, pseudo_device_ioctl}

-- A round of the loop that reads no code, or the code of a key that goes up.
abbrev pub is_idle : ℕ → ℕ → Bool
is_idle status c = (bit_and status 0x1 == 0) || not (is_press c)

abbrev pub AllIdle : List (ℕ × ℕ) → Type 0
AllIdle [] = Unit
AllIdle ((status, c) ∷ reads) = (is_idle status c ≡ true) × AllIdle reads

my_getchar-idle :
    (idle reads : List (ℕ × ℕ)) → AllIdle idle → my_getchar (idle ++ reads) ≡ my_getchar reads
unfolding my_getchar
my_getchar-idle [] reads h = refl
my_getchar-idle ((status, c) ∷ idle) reads h = rw h.0 (my_getchar-idle idle reads h.1)

-- Behind any number of idle rounds, the first key that goes down is the one that the call gets, whatever
-- the keyboard gives later; and the call returns `-EINVAL` all the same.
pseudo_device_ioctl-first :
    (idle reads : List (ℕ × ℕ)) (status c : ℕ)
    → AllIdle idle
    → is_idle status c ≡ false
    → pseudo_device_ioctl true (idle ++ ((status, c) ∷ reads)) ≡ some (einval, some (scancode c))
unfolding pseudo_device_ioctl
pseudo_device_ioctl-first idle reads status c h found =
    let got : my_getchar (idle ++ ((status, c) ∷ reads)) ≡ some (scancode c) =
      my_getchar-idle idle ((status, c) ∷ reads) h ∙ first status c reads found in
    rw (pseudo_device_ioctl, got) refl
  where
    first :
        (status c : ℕ) (reads : List (ℕ × ℕ))
        → is_idle status c ≡ false
        → my_getchar ((status, c) ∷ reads) ≡ some (scancode c)
    first status c reads found = unfold my_getchar in rw found refl
