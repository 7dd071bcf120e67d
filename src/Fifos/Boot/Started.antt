-- ===== src/Fifos/Boot/Started.antt =====
-- What `init` of FIFOS-2 has done when it enables interrupts.
use cs552operating_system.Base.{
  ℕ, ◌+◌, ◌*◌, ◌^◌, ◌<◌, ◌≡◌, refl, ap, ◌∙◌, true, some, List, [], ◌∷◌, length, get_elem?, codes,
  arith,
}
use cs552operating_system.Fifos.Thread.{
  new_tcb, thread_create, find_unassigned, init_tcb_array, create_threads,
}
use cs552operating_system.Fifos.Create.{create_threads_lem}
use cs552operating_system.Fifos.Display.{vga_width, make_color, terminal_initialize}
use cs552operating_system.Fifos.Display.Rows.{shown}
use cs552operating_system.Fifos.Display.Page.{AreLines, shown-row, write_lines, write_lines_lem}
use cs552operating_system.Fifos.Interrupt.{init_interrupts, init_idt, init_pic, init_pit}
use cs552operating_system.Fifos.Interrupt.Laws.{handler_of, init_interrupts-idt}
use cs552operating_system.Fifos.Boot.{
  Machine, init, report_interrupts, create_interruptible, create_and_report,
}

abbrev pub first_lines : List (List ℕ)
first_lines =
    codes "FIFOS-2: Welcome to FIFOS-2 System!"
    ∷ codes "                by Jiying & Mingxin"
    ∷ codes "thread 'function1' created."
    ∷ codes "thread 'function2' created."
    ∷ codes "thread 'function3' created."
    ∷ []

init-terminal :
    (function stack : ℕ → ℕ) (system_handler timer_handler base_address : ℕ) (m : Machine)
    → (init function stack system_handler timer_handler base_address m).terminal
      ≡ write_lines first_lines (terminal_initialize m.terminal)
unfolding init write_lines thread_create find_unassigned init_tcb_array new_tcb init_interrupts
    init_idt init_pic init_pit report_interrupts create_and_report create_interruptible
init-terminal function stack system_handler timer_handler base_address m = refl

init-threads :
    (function stack : ℕ → ℕ) (system_handler timer_handler base_address : ℕ) (m : Machine)
    → (init function stack system_handler timer_handler base_address m).threads
      ≡ (create_threads 0x202 function stack (init_tcb_array m.threads)).0
unfolding init create_threads create_and_report create_interruptible
init-threads function stack system_handler timer_handler base_address m = refl

init-board :
    (function stack : ℕ → ℕ) (system_handler timer_handler base_address : ℕ) (m : Machine)
    → (init function stack system_handler timer_handler base_address m).board
      ≡ (init_interrupts system_handler timer_handler base_address m.board).0
unfolding init create_and_report create_interruptible
init-board function stack system_handler timer_handler base_address m = refl

first_lines-AreLines : AreLines first_lines
first_lines-AreLines = ground arith

-- With handlers and a table below 2 ^ 32: when `init` enables interrupts, the first five rows of the
-- screen show the two lines of the banner and the three threads created, the blocks hold the three
-- threads in their order, and the descriptors of the first 32 interrupts and of the timer lead to
-- their handlers.
pub init-Started :
    (function stack : ℕ → ℕ) (system_handler timer_handler base_address : ℕ) (m : Machine)
    → system_handler < 2 ^ 32
    → timer_handler < 2 ^ 32
    → base_address < 2 ^ 32
    → let m' = init function stack system_handler timer_handler base_address m in
      (m'.flag ≡ true)
      × ((i : ℕ) (l : List ℕ)
          → get_elem? first_lines i ≡ some l
          → shown m'.terminal (i * vga_width) (length l) ≡ l)
      × (m'.threads.tcb 0 ≡ new_tcb 0 (function 1) (stack 1))
      × (m'.threads.tcb 1 ≡ new_tcb 1 (function 2) (stack 2))
      × (m'.threads.tcb 2 ≡ new_tcb 2 (function 3) (stack 3))
      × ((i : ℕ) → i < 32 → handler_of (m'.board.idt i) ≡ system_handler)
      × (handler_of (m'.board.idt 32) ≡ timer_handler)
unfolding init terminal_initialize make_color
init-Started function stack system_handler timer_handler base_address m a b c =
    let m' = init function stack system_handler timer_handler base_address m in
    let start = terminal_initialize m.terminal in
    let (row, lines, others) =
      write_lines_lem first_lines start first_lines-AreLines refl (omega arith) (omega arith) in
    let (r1, r2, r3, first, second, third) = create_threads_lem 0x202 function stack m.threads in
    let threads = init-threads function stack system_handler timer_handler base_address m in
    let board = init-board function stack system_handler timer_handler base_address m in
    let (s1, s2, s3, gates, timer, last, register) =
      init_interrupts-idt system_handler timer_handler base_address m.board a b c in
    (
      refl,
      λ i l h.
          ap (λ t. shown t (i * vga_width) (length l))
            (init-terminal function stack system_handler timer_handler base_address m)
          ∙ shown-row (write_lines first_lines start) ((0 + i) * vga_width) (i * vga_width)
              (length l) l (omega arith) (lines i l h),
      ap (λ t. t.tcb 0) threads ∙ first,
      ap (λ t. t.tcb 1) threads ∙ second,
      ap (λ t. t.tcb 2) threads ∙ third,
      λ i h. ap (λ b. handler_of (b.idt i)) board ∙ (gates i h).0,
      ap (λ b. handler_of (b.idt 32)) board ∙ timer,
    )
