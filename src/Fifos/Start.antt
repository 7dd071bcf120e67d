-- ===== src/Fifos/Start.antt =====
-- FIFOS-1/init.c: `createThreads` with what it prints, `init`, and what the threads print on the screen.
-- The delay is left out.
pub mod Shown
use cs552operating_system.Base.{
  ℕ, ◌+◌, Bool, false, List, [], ◌∷◌, ◌==◌, if◌then◌else◌, codes, negsuc,
}
use cs552operating_system.Fifos.Thread.{Threads, init_tcb_array, thread_create}
use cs552operating_system.Fifos.Display.{Terminal, terminal_initialize, terminal_writestring}
use cs552operating_system.Fifos.Scheduler.{Line, tag, funished, all_done, Machine, scheduler}

-- The screen and the threads.
pub record Computer : Type 0 where
  pub terminal : Terminal
  pub threads : Threads

-- `threadCreate`, and the text for its result.
unfoldable pub create_shown : ℕ → ℕ → (failed created : List ℕ) → Computer → Computer
create_shown function stack failed created c =
    let (threads, r) = thread_create 2 function stack c.threads in
    record {
      threads = threads;
      terminal = terminal_writestring (if r == 0 then failed else created) c.terminal;
    }

-- `createThreads`, with the addresses of the three functions and of the tops of the three stacks.
unfoldable pub create_threads_shown : (function stack : ℕ → ℕ) → Computer → Computer
unfolding create_shown
create_threads_shown function stack c =
    create_shown (function 3) (stack 3) (codes "create thread 'function3' failed.")
      (codes "thread 'function3' created.")
      (create_shown (function 2) (stack 2) (codes "create thread 'function2' failed.")
        (codes "thread 'function2' created.")
        (create_shown (function 1) (stack 1) (codes "create thread 'function1' failed.")
          (codes "thread 'function1' created.") c))

unfoldable pub welcome : Terminal → Terminal
welcome t =
    terminal_writestring (codes "                by Jiying & Mingxin")
      (terminal_writestring (codes "FIFOS-1: Welcome to FIFOS-1 System!") (terminal_initialize t))

-- What each function sets its variable `times` to, by its number.
unfoldable pub first_times : ℕ → ℕ
first_times k = if k == 1 then 3 else if k == 2 then 4 else 5

-- The threads when `scheduler` is called for the first time: thread `t` runs function `t + 1`.
unfoldable pub entering : Threads → Machine
unfolding first_times
entering threads = record {
  tcb = threads.tcb;
  current = negsuc 0;
  times = λ t. first_times (t + 1);
  output = [];
  halted = false;
}

-- `init`: the screen, and the machine behind the first call of `scheduler`.
unfoldable pub init : (function stack : ℕ → ℕ) → Computer → Terminal × Machine
unfolding create_threads_shown welcome entering
init function stack c =
    let started = record c { terminal = welcome c.terminal; threads = init_tcb_array c.threads } in
    let created = create_threads_shown function stack started in
    (created.terminal, scheduler (entering created.threads))

-- The number of the function at an address.
unfoldable pub number_of : (ℕ → ℕ) → ℕ → ℕ
number_of function name = if name == function 1 then 1 else if name == function 2 then 2 else 3

-- The text of a line, by the number of the function that prints it.
unfoldable pub tag_text : ℕ → List ℕ
tag_text k = if k == 1 then codes "<1>" else if k == 2 then codes "<2>" else codes "<3>"

unfoldable pub end_text : ℕ → List ℕ
end_text k =
    if k == 1
    then codes "thread 'function1' funished."
    else if k == 2
    then codes "thread 'function2' funished."
    else codes "thread 'function3' funished."

unfoldable pub line_text : (ℕ → ℕ) → Line → List ℕ
unfolding number_of tag_text end_text
line_text function (tag name) = tag_text (number_of function name)
line_text function (funished name) = end_text (number_of function name)
line_text function all_done = codes "All threads done"

-- The screen after the threads have written some lines.
unfoldable pub show_lines : (ℕ → ℕ) → List Line → Terminal → Terminal
unfolding line_text
show_lines function [] t = t
show_lines function (l ∷ ls) t =
    show_lines function ls (terminal_writestring (line_text function l) t)
