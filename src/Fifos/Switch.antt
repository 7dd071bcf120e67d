-- ===== src/Fifos/Switch.antt =====
-- FIFOS-1/switch.s: `switch_to`, over the registers that it saves and restores.
pub mod First
use cs552operating_system.Base.{ℕ, ◌+◌, ◌-◌, ◌*◌, ◌^◌, ◌≤◌, ◌<◌, ◌≡◌, arith}
use cs552operating_system.Fifos.Thread.{Memory, poke, store_word, load_word, build_frame}

pub record Cpu : Type 0 where
  pub eax : ℕ
  pub ecx : ℕ
  pub edx : ℕ
  pub ebx : ℕ
  pub esp : ℕ
  pub ebp : ℕ
  pub esi : ℕ
  pub edi : ℕ
  pub eflags : ℕ
  pub eip : ℕ
  pub ds : ℕ
  pub es : ℕ
  pub fs : ℕ
  pub gs : ℕ

-- `pushfl`, `pushal` and the four `pushw`, below the return address `eip` that the call has pushed
-- at `esp`; the stack pointer that goes into the control block.
unfoldable pub save : Cpu → Memory → Memory × ℕ
unfolding store_word
save c m =
    let sp = c.esp in
    let m1 = store_word (store_word m sp c.eip) (sp - 2) c.eflags in
    let m2 = store_word (store_word m1 (sp - 4) c.eax) (sp - 6) c.ecx in
    let m3 = store_word (store_word m2 (sp - 8) c.edx) (sp - 10) c.ebx in
    let m4 = store_word (store_word m3 (sp - 12) (2 * (sp - 2))) (sp - 14) c.ebp in
    let m5 = store_word (store_word m4 (sp - 16) c.esi) (sp - 18) c.edi in
    let m6 = poke (poke m5 (sp - 19) c.ds) (sp - 20) c.es in
    (poke (poke m6 (sp - 21) c.fs) (sp - 22) c.gs, sp - 22)

-- The four `popw`, `popal` (which skips the saved ESP), `popfl` and `ret`.
unfoldable pub restore : Memory → ℕ → Cpu
unfolding load_word
restore m sp = record {
  gs = m sp;
  fs = m (sp + 1);
  es = m (sp + 2);
  ds = m (sp + 3);
  edi = load_word m (sp + 4);
  esi = load_word m (sp + 6);
  ebp = load_word m (sp + 8);
  ebx = load_word m (sp + 12);
  edx = load_word m (sp + 14);
  ecx = load_word m (sp + 16);
  eax = load_word m (sp + 18);
  eflags = load_word m (sp + 20);
  eip = load_word m (sp + 22);
  esp = sp + 24;
}

-- Registers of 32 and selectors of 16 bits.
pub record IsCpu (c : Cpu) : Type 0 where
  pub eax : c.eax < 2 ^ 32
  pub ecx : c.ecx < 2 ^ 32
  pub edx : c.edx < 2 ^ 32
  pub ebx : c.ebx < 2 ^ 32
  pub ebp : c.ebp < 2 ^ 32
  pub esi : c.esi < 2 ^ 32
  pub edi : c.edi < 2 ^ 32
  pub eflags : c.eflags < 2 ^ 32
  pub eip : c.eip < 2 ^ 32

-- One register at a time, behind a call of `switch_to` with room on the stack.
module _ (c : Cpu) (m : Memory) (v : IsCpu c) (room : 24 ≤ c.esp) where
  abbrev again : Cpu
  again = restore (save c m).0 (save c m).1

  again-eax : again.eax ≡ c.eax
  unfolding restore save
  again-eax = ground (arith, v.eax)

  again-ecx : again.ecx ≡ c.ecx
  unfolding restore save
  again-ecx = ground (arith, v.ecx)

  again-edx : again.edx ≡ c.edx
  unfolding restore save
  again-edx = ground (arith, v.edx)

  again-ebx : again.ebx ≡ c.ebx
  unfolding restore save
  again-ebx = ground (arith, v.ebx)

  again-ebp : again.ebp ≡ c.ebp
  unfolding restore save
  again-ebp = ground (arith, v.ebp)

  again-esi : again.esi ≡ c.esi
  unfolding restore save
  again-esi = ground (arith, v.esi)

  again-edi : again.edi ≡ c.edi
  unfolding restore save
  again-edi = ground (arith, v.edi)

  again-eflags : again.eflags ≡ c.eflags
  unfolding restore save
  again-eflags = ground (arith, v.eflags)

  again-eip : again.eip ≡ c.eip
  unfolding restore save
  again-eip = ground (arith, v.eip)

  again-ds : again.ds ≡ c.ds
  unfolding restore save
  again-ds = ground arith

  again-es : again.es ≡ c.es
  unfolding restore save
  again-es = ground arith

  again-fs : again.fs ≡ c.fs
  unfolding restore save
  again-fs = ground arith

  again-gs : again.gs ≡ c.gs
  unfolding restore save
  again-gs = ground arith

  again-esp : again.esp ≡ c.esp + 2
  unfolding restore save
  again-esp = omega arith

  -- What `switch_to` saves of a thread it restores unchanged when the thread is next switched to: the
  -- thread goes on behind its call, with every register and selector as it left them, given registers
  -- of 32 bits and room for the frame.
  pub restore-save : restore (save c m).0 (save c m).1 ≡ record c { esp = c.esp + 2 }
  restore-save j = record {
    eax = again-eax j;
    ecx = again-ecx j;
    edx = again-edx j;
    ebx = again-ebx j;
    esp = again-esp j;
    ebp = again-ebp j;
    esi = again-esi j;
    edi = again-edi j;
    eflags = again-eflags j;
    eip = again-eip j;
    ds = again-ds j;
    es = again-es j;
    fs = again-fs j;
    gs = again-gs j;
  }
