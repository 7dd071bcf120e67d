-- ===== src/Keyboard.antt =====
-- Primer Assignment/MingxinChen: the modules KBD_module.c, which takes keys from an interrupt, and
-- KBD_module_noIR.c, which polls the keyboard. What they log is left out.
pub mod Served
pub mod Due
pub mod Polled
pub mod Register
pub mod Examples
use cs552operating_system.Base.{
  ℕ, zero, suc, ◌%◌, bit_and, Bool, true, false, not, ◌&&◌, ◌||◌, Option, none, some, List, [], ◌∷◌,
  ◌++◌, ltb, ◌==◌, if◌then◌else◌, get_elem?, codes,
}

-- `scancode`, less its last 44 bytes, which are 0.
abbrev pub scancode_bytes : List ℕ
scancode_bytes =
    (0 ∷ 27 ∷ codes "1234567890-=")
    ++ (127 ∷ 9 ∷ codes "qwertyuiop[]")
    ++ (10 ∷ 0 ∷ codes "asdfghjkl;'`")
    ++ (0 ∷ 92 ∷ codes "zxcvbnm,./")
    ++ (0 ∷ b'*' ∷ 0 ∷ b' ' ∷ 0 ∷ 0 ∷ 0 ∷ 0 ∷ 0 ∷ 0 ∷ 0 ∷ 0 ∷ 0 ∷ 0 ∷ 0 ∷ 0 ∷ 0 ∷ [])
    ++ codes "789-456+1230."

-- `scancode[(int)c]` of a code below 128.
unfoldable pub scancode : ℕ → ℕ
scancode c = elim (get_elem? scancode_bytes c) [ none ↦ 0 | some key ↦ key ]

-- A code with bit 7 clear is of a key that goes down.
abbrev pub is_press : ℕ → Bool
is_press c = bit_and c 0x80 == 0

-- Where a call of `ioctl` with `IOCTL_CHAR` stands: at its start, in `wait_event_interruptible`, behind
-- it, behind `ev_press = 0`, or at its end with a key.
pub data Call : Type 0 where
  entered waiting woken cleared : Call
  served : ℕ → Call

-- `KBD_key`, `ev_press`, and one call.
pub record Kbd : Type 0 where
  pub kbd_key : ℕ
  pub ev_press : ℕ
  pub call : Call

-- The handler of the interrupt, for a code that `inb` reads.
unfoldable pub ir_getchar : ℕ → Kbd → Kbd
ir_getchar c s = if is_press c then record s { kbd_key = scancode c; ev_press = 1 } else s

-- The next statement of the call; `wait_event_interruptible` goes on once `ev_press` is set.
unfoldable pub go_on : Call → Kbd → Kbd
go_on entered s = record s { ev_press = 0; call = waiting }
go_on waiting s = if s.ev_press == 0 then s else record s { call = woken }
go_on woken s = record s { ev_press = 0; call = cleared }
go_on cleared s = record s { call = served s.kbd_key }
go_on (served key) s = s

-- What happens next: an interrupt with a code, a statement of the call, or a signal, at which
-- `wait_event_interruptible` returns too.
pub data Event : Type 0 where
  irq : ℕ → Event
  statement : Event
  signal : Event

unfoldable pub interrupt_wait : Call → Kbd → Kbd
interrupt_wait waiting s = record s { call = woken }
interrupt_wait entered s = s
interrupt_wait woken s = s
interrupt_wait cleared s = s
interrupt_wait (served key) s = s

unfoldable pub step : Event → Kbd → Kbd
unfolding ir_getchar go_on interrupt_wait
step (irq c) s = ir_getchar c s
step statement s = go_on s.call s
step signal s = interrupt_wait s.call s

unfoldable pub run : List Event → Kbd → Kbd
run [] s = s
run (e ∷ es) s = run es (step e s)

-- `my_getchar` of KBD_module_noIR.c, on what the rounds of its loop would read: the status, and the
-- code, which is read if bit 0 of the status is set. None if the rounds do not suffice.
unfoldable pub my_getchar : List (ℕ × ℕ) → Option ℕ
my_getchar [] = none
my_getchar ((status, c) ∷ reads) =
    let on = my_getchar reads in
    if (bit_and status 0x1 == 0) || not (is_press c) then on else some (scancode c)

-- The results of an `ioctl`: 0, or `-EINVAL`.
pub data Result : Type 0 where
  ok einval : Result

-- `pseudo_device_ioctl` of KBD_module_noIR.c, with the key that it copies to user space. The case of
-- `IOCTL_CHAR_WHILE` has no `break`.
unfoldable pub pseudo_device_ioctl : (is_char : Bool) → List (ℕ × ℕ) → Option (Result × Option ℕ)
pseudo_device_ioctl true reads = elim (my_getchar reads) [
  | none ↦ none
  | some key ↦ some (einval, some key)
]
pseudo_device_ioctl false reads = some (einval, none)
