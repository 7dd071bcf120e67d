-- ===== src/Fifos/Switch/First.antt =====
-- FIFOS-1/switch.s with init.c: the first switch to a thread that `threadCreate` has made.
use cs552operating_system.Base.{ℕ, ◌+◌, ◌-◌, ◌^◌, ◌≤◌, ◌<◌, ◌≡◌, arith}
use cs552operating_system.Fifos.Thread.{Memory, build_frame}
use cs552operating_system.Fifos.Switch.{Cpu, restore}

module _ (flags function stack : ℕ) (m : Memory) (small : flags < 2 ^ 32) (code : function < 2 ^ 32)
    (room : 24 ≤ stack) where
  abbrev first : Cpu
  first = restore (build_frame flags function stack m) (stack - 22)

  first-eax : first.eax ≡ 0
  unfolding restore build_frame
  first-eax = ground arith

  first-ecx : first.ecx ≡ 0
  unfolding restore build_frame
  first-ecx = ground arith

  first-edx : first.edx ≡ 0
  unfolding restore build_frame
  first-edx = ground arith

  first-ebx : first.ebx ≡ 0
  unfolding restore build_frame
  first-ebx = ground arith

  first-esp : first.esp ≡ stack + 2
  unfolding restore build_frame
  first-esp = ground arith

  first-ebp : first.ebp ≡ 0
  unfolding restore build_frame
  first-ebp = ground arith

  first-esi : first.esi ≡ 0
  unfolding restore build_frame
  first-esi = ground arith

  first-edi : first.edi ≡ 0
  unfolding restore build_frame
  first-edi = ground arith

  first-eflags : first.eflags ≡ flags
  unfolding restore build_frame
  first-eflags = ground arith

  first-eip : first.eip ≡ function
  unfolding restore build_frame
  first-eip = ground arith

  first-ds : first.ds ≡ m (stack - 19)
  unfolding restore build_frame
  first-ds = ground arith

  first-es : first.es ≡ 0x10
  unfolding restore build_frame
  first-es = ground arith

  first-fs : first.fs ≡ 0x10
  unfolding restore build_frame
  first-fs = ground arith

  first-gs : first.gs ≡ 0x10
  unfolding restore build_frame
  first-gs = ground arith

  -- The registers of a thread at its start.
  abbrev pub at_start : Cpu
  at_start = record {
    eax = 0;
    ecx = 0;
    edx = 0;
    ebx = 0;
    esp = stack + 2;
    ebp = 0;
    esi = 0;
    edi = 0;
    eflags = flags;
    eip = function;
    ds = m (stack - 19);
    es = 0x10;
    fs = 0x10;
    gs = 0x10;
  }

  -- A new thread, when it is first switched to, starts at its function with the given flags, general
  -- registers of 0 and 0x10 in ES, FS and GS, on the stack behind the frame; DS is what stood in
  -- memory before, since `threadCreate` writes its four selectors one place too low. The flags and
  -- the address are words of 32 bits, and the stack has room for the frame.
  restore-build_frame : restore (build_frame flags function stack m) (stack - 22) ≡ at_start
  restore-build_frame j = record {
    eax = first-eax j;
    ecx = first-ecx j;
    edx = first-edx j;
    ebx = first-ebx j;
    esp = first-esp j;
    ebp = first-ebp j;
    esi = first-esi j;
    edi = first-edi j;
    eflags = first-eflags j;
    eip = first-eip j;
    ds = first-ds j;
    es = first-es j;
    fs = first-fs j;
    gs = first-gs j;
  }
