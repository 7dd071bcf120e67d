-- ===== src/Fifos/Interrupt.antt =====
-- FIFOS-2/interrupt.h: the descriptors of the interrupts, and what is written to the ports of the
-- interrupt controllers and of the timer. The addresses of the handlers, which the linker chooses,
-- and of the table are arguments.
pub mod Laws
use cs552operating_system.Base.{
  ℕ, zero, suc, ◌+◌, ◌-◌, ◌*◌, ◌/◌, ◌%◌, ◌^◌, bit_and, bit_or, Option, none, some, List, [], ◌∷◌,
  ◌++◌, ltb, ◌==◌, if◌then◌else◌, update,
}

-- `IDTEntry`, 8 bytes.
pub record IdtEntry : Type 0 where
  pub offset_low : ℕ
  pub selector : ℕ
  pub unused0 : ℕ
  pub type_s_dpl_p : ℕ
  pub offset_high : ℕ

-- The table, the word that `lidt` has loaded, and the bytes written to ports, in order.
pub record Board : Type 0 where
  pub idt : ℕ → IdtEntry
  pub idtr : Option ℕ
  pub ports : List (ℕ × ℕ)

unfoldable pub outb : ℕ → ℕ → Board → Board
outb p v b = record b { ports = b.ports ++ ((p, v) ∷ []) }

-- The descriptor of a handler.
unfoldable pub gate : ℕ → IdtEntry
gate handler_address = record {
  offset_low = bit_and handler_address 0xffff % 2 ^ 16;
  selector = 0x08;
  unused0 = 0;
  type_s_dpl_p = 0x8e;
  offset_high = bit_and (handler_address / 2 ^ 16) 0xffff % 2 ^ 16;
}

-- The loop of `initIDT` from interrupt `i`, with the rounds left.
unfoldable pub fill_idt : ℕ → ℕ → ℕ → (ℕ → IdtEntry) → ℕ → IdtEntry
fill_idt zero handler_address i idt = idt
fill_idt (suc k) handler_address i idt =
    fill_idt k handler_address (i + 1) (update idt i (gate handler_address))

-- `(uint64_t)baseAddress << 16 | length`
unfoldable pub idt_register : ℕ → ℕ
idt_register base_address =
    let length : ℕ = (8 * 33 - 1) % 2 ^ 16 in bit_or (base_address * 2 ^ 16 % 2 ^ 64) length

unfoldable pub init_idt : ℕ → ℕ → Board → Board × ℕ
init_idt system_handler base_address b = (
  record b { idt = fill_idt 32 system_handler 0 b.idt; idtr = some (idt_register base_address) },
  1,
)

unfoldable pub init_pic : Board → Board × ℕ
unfolding outb
init_pic b =
    let master = outb 0x21 0x01 (outb 0x21 0x04 (outb 0x21 0x20 (outb 0x20 0x11 b))) in
    let slave = outb 0xa1 0x01 (outb 0xa1 0x02 (outb 0xa1 0x28 (outb 0xa0 0x11 master))) in
    (outb 0xa1 0xff (outb 0x21 0xfe slave), 1)

-- 100 interrupts in a second.
unfoldable pub pit_divisor : ℕ
pit_divisor = 1193180 / 100 % 2 ^ 16

unfoldable pub init_pit : ℕ → Board → Board × ℕ
unfolding outb
init_pit timer_handler b =
    let f = pit_divisor in
    let b1 = outb 0x43 0x34 (record b { idt = update b.idt 32 (gate timer_handler) }) in
    (outb 0x40 (bit_and (f / 2 ^ 8) 0xff % 2 ^ 8) (outb 0x40 (bit_and f 0xff % 2 ^ 8) b1), 1)

-- The calls that `init` makes before it enables interrupts, with their results.
unfoldable pub init_interrupts : ℕ → ℕ → ℕ → Board → Board × ℕ × ℕ × ℕ
init_interrupts system_handler timer_handler base_address b =
    let (b1, r1) = init_idt system_handler base_address b in
    let (b2, r2) = init_pic b1 in let (b3, r3) = init_pit timer_handler b2 in (b3, r1, r2, r3)
