-- ===== src/Fifos/Boot.antt =====
-- FIFOS-2/init.c: `createThreads` with what it prints, and `init`, up to its endless loop. The delay is
-- left out.
pub mod Started
use cs552operating_system.Base.{ℕ, Bool, true, false, ◌||◌, List, ◌==◌, if◌then◌else◌, codes}
use cs552operating_system.Fifos.Thread.{Threads, init_tcb_array, thread_create}
use cs552operating_system.Fifos.Display.{Terminal, terminal_initialize, terminal_writestring}
use cs552operating_system.Fifos.Interrupt.{Board, init_interrupts}

-- The screen, the threads, the devices, and the interrupt flag.
pub record Machine : Type 0 where
  pub terminal : Terminal
  pub threads : Threads
  pub board : Board
  pub flag : Bool

-- `threadCreate`, which stores flags that let interrupts in.
unfoldable pub create_interruptible : ℕ → ℕ → Threads → Threads × ℕ
create_interruptible function stack t = thread_create 0x202 function stack t

-- `threadCreate`, and the text for its result.
unfoldable pub create_and_report : ℕ → ℕ → (failed created : List ℕ) → Machine → Machine
create_and_report function stack failed created m =
    let (threads, r) = create_interruptible function stack m.threads in
    record m {
      threads = threads;
      terminal = terminal_writestring (if r == 0 then failed else created) m.terminal;
    }

-- `createThreads`, with the addresses of the three functions and of the tops of the three stacks.
unfoldable pub report_threads : (function stack : ℕ → ℕ) → Machine → Machine
unfolding create_and_report
report_threads function stack m =
    create_and_report (function 3) (stack 3) (codes "create thread 'function3' failed.")
      (codes "thread 'function3' created.")
      (create_and_report (function 2) (stack 2) (codes "create thread 'function2' failed.")
        (codes "thread 'function2' created.")
        (create_and_report (function 1) (stack 1) (codes "create thread 'function1' failed.")
          (codes "thread 'function1' created.") m))

unfoldable pub banner : Terminal → Terminal
banner t =
    terminal_writestring (codes "                by Jiying & Mingxin")
      (terminal_writestring (codes "FIFOS-2: Welcome to FIFOS-2 System!") (terminal_initialize t))

unfoldable pub report_interrupts : (r1 r2 r3 : ℕ) → Terminal → Terminal
report_interrupts r1 r2 r3 t =
    if (r1 == 0) || ((r2 == 0) || (r3 == 0))
    then terminal_writestring (codes "initialize IDT error.") t
    else t

-- `init`, with the addresses of the two handlers and of the table of descriptors.
unfoldable pub init :
    (function stack : ℕ → ℕ) → (system_handler timer_handler base_address : ℕ) → Machine → Machine
unfolding report_threads banner report_interrupts
init function stack system_handler timer_handler base_address m =
    let m1 = record m {
      flag = false;
      terminal = banner m.terminal;
      threads = init_tcb_array m.threads;
    } in
    let m2 = report_threads function stack m1 in
    let (board, r1, r2, r3) = init_interrupts system_handler timer_handler base_address m2.board in
    record m2 { board = board; terminal = report_interrupts r1 r2 r3 m2.terminal; flag = true }
