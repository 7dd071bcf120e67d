-- ===== src/Fifos/Start/Shown.antt =====
-- What FIFOS-1 prints from its start until it halts.
use cs552operating_system.Base.{
  ℕ, ◌+◌, ◌*◌, ◌≡◌, ◌≢◌, refl, ap, ◌∙◌, true, some, List, [], ◌∷◌, ◌++◌, length, get_elem?, codes,
  arith,
}
use cs552operating_system.Fifos.Thread.{thread_create, find_unassigned, init_tcb_array, new_tcb}
use cs552operating_system.Fifos.Display.{Terminal, vga_width, make_color, terminal_initialize}
use cs552operating_system.Fifos.Display.Rows.{shown}
use cs552operating_system.Fifos.Display.Page.{AreLines, shown-row, write_lines, write_lines_lem}
use cs552operating_system.Fifos.Scheduler.{
  Line, tag, funished, all_done, run, scheduler, body, turn,
}
use cs552operating_system.Fifos.Start.{
  Computer, init, number_of, line_text, show_lines, create_shown,
}

-- The lines of the threads, in the order of the rounds.
abbrev printed : (ℕ → ℕ) → List Line
printed f =
    tag (f 1)
    ∷ tag (f 2)
    ∷ tag (f 3)
    ∷ tag (f 1)
    ∷ tag (f 2)
    ∷ tag (f 3)
    ∷ tag (f 1)
    ∷ tag (f 2)
    ∷ tag (f 3)
    ∷ funished (f 1)
    ∷ tag (f 2)
    ∷ tag (f 3)
    ∷ funished (f 2)
    ∷ tag (f 3)
    ∷ funished (f 3)
    ∷ all_done
    ∷ []

run-printed : (f stack : ℕ → ℕ) (c : Computer) → (run 15 (init f stack c).1).output ≡ printed f
unfolding run init scheduler thread_create find_unassigned init_tcb_array new_tcb turn body
run-printed f stack c = refl

run-halted : (f stack : ℕ → ℕ) (c : Computer) → (run 15 (init f stack c).1).halted ≡ true
unfolding run init scheduler thread_create find_unassigned init_tcb_array new_tcb turn body
run-halted f stack c = refl

abbrev start_lines : List (List ℕ)
start_lines =
    codes "FIFOS-1: Welcome to FIFOS-1 System!"
    ∷ codes "                by Jiying & Mingxin"
    ∷ codes "thread 'function1' created."
    ∷ codes "thread 'function2' created."
    ∷ codes "thread 'function3' created."
    ∷ []

abbrev thread_lines : List (List ℕ)
thread_lines =
    codes "<1>"
    ∷ codes "<2>"
    ∷ codes "<3>"
    ∷ codes "<1>"
    ∷ codes "<2>"
    ∷ codes "<3>"
    ∷ codes "<1>"
    ∷ codes "<2>"
    ∷ codes "<3>"
    ∷ codes "thread 'function1' funished."
    ∷ codes "<2>"
    ∷ codes "<3>"
    ∷ codes "thread 'function2' funished."
    ∷ codes "<3>"
    ∷ codes "thread 'function3' funished."
    ∷ codes "All threads done"
    ∷ []

-- The rows of the screen from the top.
abbrev pub all_lines : List (List ℕ)
all_lines = start_lines ++ thread_lines

all_lines-AreLines : AreLines all_lines
all_lines-AreLines = ground arith

init-terminal :
    (f stack : ℕ → ℕ) (c : Computer)
    → (init f stack c).0 ≡ write_lines start_lines (terminal_initialize c.terminal)
unfolding init write_lines thread_create find_unassigned init_tcb_array new_tcb create_shown
init-terminal f stack c = refl

module _ (f : ℕ → ℕ) (d12 : f 1 ≢ f 2) (d13 : f 1 ≢ f 3) (d23 : f 2 ≢ f 3) where
  number_first : number_of f (f 1) ≡ 1
  unfolding number_of
  number_first = ground arith

  number_second : number_of f (f 2) ≡ 2
  unfolding number_of
  number_second = ground (arith, d12)

  number_third : number_of f (f 3) ≡ 3
  unfolding number_of
  number_third = ground (arith, d13, d23)

  show_lines_lem : (t : Terminal) → show_lines f (printed f) t ≡ write_lines thread_lines t
  unfolding show_lines line_text write_lines
  show_lines_lem t = rw (number_first, number_second, number_third) refl

-- FIFOS-1, with three functions at different addresses, where each `switch_to` goes where the scheduler
-- sends it, from `init` and whatever screen and control blocks are before: `init` calls the scheduler, and 15 turns later the machine has halted;
-- the rows of the screen then show, from the top, the banner, the three threads created, the tags of
-- the threads in turn, three of the first, four of the second and five of the third, the end of each
-- thread behind its last tag, and the end of all.
pub run-shown :
    (f stack : ℕ → ℕ) (c : Computer)
    → f 1 ≢ f 2
    → f 1 ≢ f 3
    → f 2 ≢ f 3
    → let (t, m) = init f stack c in
      let m' = run 15 m in
      (m'.halted ≡ true)
      × ((i : ℕ) (l : List ℕ)
          → get_elem? all_lines i ≡ some l
          → shown (show_lines f m'.output t) (i * vga_width) (length l) ≡ l)
unfolding terminal_initialize make_color
run-shown f stack c d12 d13 d23 =
    let start = terminal_initialize c.terminal in
    let (row, lines, others) =
      write_lines_lem all_lines start all_lines-AreLines refl (omega arith) (omega arith) in
    let whole : show_lines f (run 15 (init f stack c).1).output (init f stack c).0
        ≡ write_lines all_lines start =
      rw (run-printed f stack c, init-terminal f stack c, show_lines_lem f d12 d13 d23)
        (unfold write_lines in refl) in
    (
      run-halted f stack c,
      λ i l h.
          ap (λ t. shown t (i * vga_width) (length l)) whole
          ∙ shown-row (write_lines all_lines start) ((0 + i) * vga_width) (i * vga_width) (length l)
              l (omega arith) (lines i l h),
    )
