-- ===== src/Fifos/Interrupt/Laws.antt =====
-- What the processor, the interrupt controllers and the timer read from what was written.
use cs552operating_system.Base.{
  ℕ, zero, suc, ◌+◌, ◌-◌, ◌*◌, ◌/◌, ◌%◌, ◌^◌, ◌≤◌, ◌<◌, ◌≡◌, refl, ap, ◌∙◌, some, List, [], ◌∷◌,
  ◌++◌, inl, inr, false, Bool-cases, bit_and-0xffff, bit_or-shifted, arith, ltb, leb, ◌&&◌, ◌==◌,
  if◌then◌else◌, update,
}
use mathlib.Core.List.{append_assoc}
use cs552operating_system.Fifos.Interrupt.{
  IdtEntry, Board, outb, gate, fill_idt, idt_register, init_idt, init_pic, pit_divisor, init_pit,
  init_interrupts,
}

-- The address that a descriptor leads to.
unfoldable pub handler_of : IdtEntry → ℕ
handler_of e = e.offset_low + e.offset_high * 2 ^ 16

-- A present 32-bit interrupt gate of the kernel's code segment.
abbrev pub IsGate : IdtEntry → Type 0
IsGate e = (e.selector ≡ 0x08) × (e.type_s_dpl_p ≡ 0x8e)

-- The bytes that a port has been given, in order.
unfoldable pub sent : ℕ → List (ℕ × ℕ) → List ℕ
sent p [] = []
sent p ((q, v) ∷ rest) = if q == p then v ∷ sent p rest else sent p rest

fill_idt_lem :
    (k handler i : ℕ) (idt : ℕ → IdtEntry) (j : ℕ)
    → fill_idt k handler i idt j ≡ (if leb i j && ltb j (i + k) then gate handler else idt j)
unfolding fill_idt
fill_idt_lem zero handler i idt j = ground arith
fill_idt_lem (suc k) handler i idt j =
    fill_idt_lem k handler (i + 1) (update idt i (gate handler)) j ∙ ground arith

gate_address : (a : ℕ) → a < 2 ^ 32 → handler_of (gate a) ≡ a
unfolding handler_of gate
gate_address a h = rw (bit_and-0xffff a, bit_and-0xffff (a / 2 ^ 16)) (omega arith)

gate-IsGate : (a : ℕ) → IsGate (gate a)
unfolding gate
gate-IsGate a = (refl, refl)

-- After `initIDT`, `initPIC` and `initPIT`, which all report success, the first 32 descriptors are
-- present interrupt gates that lead to the system handler, and the 33rd is one that leads to the
-- timer's; the word that `lidt` has loaded gives the address of the table and its last byte.
pub init_interrupts-idt :
    (system_handler timer_handler base_address : ℕ) (b : Board)
    → system_handler < 2 ^ 32
    → timer_handler < 2 ^ 32
    → base_address < 2 ^ 32
    → let (b', r1, r2, r3) = init_interrupts system_handler timer_handler base_address b in
      (r1 ≡ 1)
      × (r2 ≡ 1)
      × (r3 ≡ 1)
      × ((i : ℕ) → i < 32 → (handler_of (b'.idt i) ≡ system_handler) × IsGate (b'.idt i))
      × (handler_of (b'.idt 32) ≡ timer_handler)
      × IsGate (b'.idt 32)
      × (b'.idtr ≡ some (base_address * 2 ^ 16 + (33 * 8 - 1)))
unfolding init_interrupts init_idt init_pic init_pit idt_register outb
init_interrupts-idt system_handler timer_handler base_address b s t a = (
  refl,
  refl,
  refl,
  λ i h.
      let found : fill_idt 32 system_handler 0 b.idt i ≡ gate system_handler =
        fill_idt_lem 32 system_handler 0 b.idt i ∙ ground arith in
      let other : (i == 32) ≡ false = ground arith in
      rw other (rw found (gate_address system_handler s, gate-IsGate system_handler)),
  gate_address timer_handler t,
  gate-IsGate timer_handler,
  ap some (
      let small : base_address * 2 ^ 16 % 2 ^ 64 ≡ base_address * 2 ^ 16 = omega arith in
      rw small (bit_or-shifted 16 base_address 263 (omega arith))),
)

sent-append : (p : ℕ) (xs ys : List (ℕ × ℕ)) → sent p (xs ++ ys) ≡ sent p xs ++ sent p ys
unfolding sent
sent-append p [] ys = refl
sent-append p ((q, v) ∷ xs) ys = elim (Bool-cases (q == p)) [
  | inl same ↦ rw same (ap (λ t. v ∷ t) (sent-append p xs ys))
  | inr other ↦ rw other (sent-append p xs ys)
]

-- What the three functions write, in order.
abbrev written_ports : List (ℕ × ℕ)
written_ports =
    (0x20, 0x11)
    ∷ (0x21, 0x20)
    ∷ (0x21, 0x04)
    ∷ (0x21, 0x01)
    ∷ (0xa0, 0x11)
    ∷ (0xa1, 0x28)
    ∷ (0xa1, 0x02)
    ∷ (0xa1, 0x01)
    ∷ (0x21, 0xfe)
    ∷ (0xa1, 0xff)
    ∷ (0x43, 0x34)
    ∷ (0x40, 155)
    ∷ (0x40, 46)
    ∷ []

init_interrupts-written :
    (system_handler timer_handler base_address : ℕ) (b : Board)
    → (init_interrupts system_handler timer_handler base_address b).0.ports
      ≡ b.ports ++ written_ports
unfolding init_interrupts init_idt init_pic init_pit pit_divisor outb
init_interrupts-written system_handler timer_handler base_address b = simp append_assoc

sent_written :
    (p system_handler timer_handler base_address : ℕ) (b : Board)
    → sent p (init_interrupts system_handler timer_handler base_address b).0.ports
      ≡ sent p b.ports ++ sent p written_ports
sent_written p s t a b =
    ap (sent p) (init_interrupts-written s t a b) ∙ sent-append p b.ports written_ports

-- What the controllers and the timer have been sent: each controller its four initialisation words,
-- with interrupts from 32 and from 40 on, and then its mask, which lets through the timer alone; and
-- the timer its mode and the two halves of the divisor of its frequency for 100 interrupts in a
-- second, rounded down. What was sent before stays in front.
init_interrupts-ports :
    (system_handler timer_handler base_address : ℕ) (b : Board)
    → let b' = (init_interrupts system_handler timer_handler base_address b).0 in
      (sent 0x20 b'.ports ≡ sent 0x20 b.ports ++ (0x11 ∷ []))
      × (sent 0x21 b'.ports ≡ sent 0x21 b.ports ++ (32 ∷ 4 ∷ 1 ∷ 0xfe ∷ []))
      × (sent 0xa0 b'.ports ≡ sent 0xa0 b.ports ++ (0x11 ∷ []))
      × (sent 0xa1 b'.ports ≡ sent 0xa1 b.ports ++ (40 ∷ 2 ∷ 1 ∷ 0xff ∷ []))
      × (sent 0x43 b'.ports ≡ sent 0x43 b.ports ++ (0x34 ∷ []))
      × (sent 0x40 b'.ports
          ≡ sent 0x40 b.ports ++ ((pit_divisor % 2 ^ 8) ∷ (pit_divisor / 2 ^ 8) ∷ []))
      × (pit_divisor < 2 ^ 16)
      × (pit_divisor * 100 ≤ 1193180)
      × (1193180 < (pit_divisor + 1) * 100)
unfolding sent pit_divisor
init_interrupts-ports s t a b = (
  sent_written 0x20 s t a b,
  sent_written 0x21 s t a b,
  sent_written 0xa0 s t a b,
  sent_written 0xa1 s t a b,
  sent_written 0x43 s t a b,
  sent_written 0x40 s t a b,
  omega arith,
  omega arith,
  omega arith,
)
