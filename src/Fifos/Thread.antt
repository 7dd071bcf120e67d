-- ===== src/Fifos/Thread.antt =====
-- FIFOS-1/init.c: `TCB`, `threadCreate` with the frame that it builds on a new stack, `createThreads`
-- and `initTCBArray`. Memory is a function on addresses counted in units of 16 bits.
use cs552operating_system.Base.{
  ℕ, zero, suc, ◌+◌, ◌-◌, ◌*◌, ◌/◌, ◌%◌, not, ◌&&◌, ◌==◌, if◌then◌else◌,
}

-- `N`
abbrev pub thread_max : ℕ
thread_max = 3

pub record Tcb : Type 0 where
  pub stack_pointer : ℕ
  pub id : ℕ
  pub function : ℕ
  pub finished : ℕ
  pub assigned : ℕ
  pub priority : ℕ
  pub bp : ℕ

abbrev pub Memory : Type 0
Memory = ℕ → ℕ

abbrev pub poke : Memory → ℕ → ℕ → Memory
poke m a v b = if b == a then v else m b

-- `*(uint32_t *)a = v`, low half first.
unfoldable pub store_word : Memory → ℕ → ℕ → Memory
store_word m a v = poke (poke m a (v % 65536)) (a + 1) (v / 65536 % 65536)

unfoldable pub load_word : Memory → ℕ → ℕ
load_word m a = m a + 65536 * m (a + 1)

-- What `init.c` keeps: the array, and the stacks.
pub record Threads : Type 0 where
  pub tcb : ℕ → Tcb
  pub memory : Memory

-- The frame below `stack`: the address of the function, the flags, eight registers of 0, and the
-- selector 0x10 in four places of 16 bits.
unfoldable pub build_frame : ℕ → ℕ → ℕ → Memory → Memory
unfolding store_word
build_frame flags functionname stack m =
    let m1 = store_word (store_word m stack functionname) (stack - 2) flags in
    let m2 = store_word (store_word m1 (stack - 4) 0) (stack - 6) 0 in
    let m3 = store_word (store_word m2 (stack - 8) 0) (stack - 10) 0 in
    let m4 = store_word (store_word m3 (stack - 12) 0) (stack - 14) 0 in
    let m5 = store_word (store_word m4 (stack - 16) 0) (stack - 18) 0 in
    let m6 = poke (poke m5 (stack - 20) 0x10) (stack - 21) 0x10 in
    poke (poke m6 (stack - 22) 0x10) (stack - 23) 0x10

-- The first index whose block is not assigned, with the rounds left; `N` if there is none.
unfoldable pub find_unassigned : ℕ → (ℕ → Tcb) → ℕ → ℕ
find_unassigned zero tcb id = id
find_unassigned (suc k) tcb id =
    if (tcb id).assigned == 0 then id else find_unassigned k tcb (id + 1)

-- `stackPointer = stack - 11` counts words of 32 bits.
unfoldable pub new_tcb : ℕ → ℕ → ℕ → Tcb
new_tcb id functionname stack = record {
  stack_pointer = stack - 22;
  id = id;
  function = functionname;
  finished = 0;
  assigned = 1;
  priority = 0;
  bp = stack;
}

-- `threadCreate`, with its result; `flags` is the word that it stores for EFLAGS.
unfoldable pub thread_create : ℕ → ℕ → ℕ → Threads → Threads × ℕ
thread_create flags functionname stack t =
    let id = find_unassigned thread_max t.tcb 0 in
    if id == thread_max then (t, 0) else (
      record {
        tcb = λ j. if j == id then new_tcb id functionname stack else t.tcb j;
        memory = build_frame flags functionname stack t.memory;
      },
      1,
    )

-- `initTCBArray`
unfoldable pub init_tcb_array : Threads → Threads
init_tcb_array t = record t {
  tcb = λ j.
      if not (j == 0) && not (j == 1) && not (j == 2)
      then t.tcb j
      else record (t.tcb j) { assigned = 0; finished = 1 };
}

-- `createThreads`: the three functions on their stacks, and for each whether it was created.
unfoldable pub create_threads : ℕ → (function stack : ℕ → ℕ) → Threads → Threads × ℕ × ℕ × ℕ
unfolding thread_create
create_threads flags function stack t =
    let (t1, r1) = thread_create flags (function 1) (stack 1) t in
    let (t2, r2) = thread_create flags (function 2) (stack 2) t1 in
    let (t3, r3) = thread_create flags (function 3) (stack 3) t2 in (t3, r1, r2, r3)
