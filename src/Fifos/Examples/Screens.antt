-- ===== src/Fifos/Examples/Screens.antt =====
-- The theorems on the text screen at concrete states.
use cs552operating_system.Base.{
  ℕ, ◌+◌, ◌*◌, ◌≤◌, ◌<◌, ◌≡◌, ◌⊎◌, refl, true, none, some, List, [], ◌∷◌, codes, length, get_elem?,
  arith,
}
use cs552operating_system.Fifos.Display.{Terminal, vga_width}
use cs552operating_system.Fifos.Display.Rows.{shown}
use cs552operating_system.Fifos.Display.Page.{AreLines, write_lines, write_lines_lem}
use cs552operating_system.Fifos.Thread.{new_tcb}
use cs552operating_system.Fifos.Interrupt.Laws.{handler_of}
use cs552operating_system.Fifos.Boot.{Machine, init}
use cs552operating_system.Fifos.Boot.Started.{first_lines, init-Started}

abbrev blank : Terminal
blank = record { row = 0; column = 0; color = 7; buffer = λ i. 0 }

abbrev two_lines : List (List ℕ)
two_lines = codes "<1>" ∷ codes "<2>" ∷ []

two_lines-AreLines : AreLines two_lines
two_lines-AreLines = ground arith

write_lines_lem_example :
    let t' = write_lines two_lines blank in
    (t'.row ≡ blank.row + length two_lines)
    × ((i : ℕ) (l : List ℕ)
        → get_elem? two_lines i ≡ some l
        → shown t' ((blank.row + i) * vga_width) (length l) ≡ l)
    × ((p : ℕ)
        → (p < blank.row * vga_width) ⊎ ((blank.row + length two_lines) * vga_width ≤ p)
        → t'.buffer p ≡ blank.buffer p)
write_lines_lem_example =
    write_lines_lem two_lines blank two_lines-AreLines refl (omega arith) (omega arith)

abbrev at_reset : Machine
at_reset = record {
  terminal = blank;
  threads = record { tcb = λ j. new_tcb j 0 0; memory = λ a. 0 };
  board = record {
    idt = λ i. record {
      offset_low = 0;
      selector = 0;
      unused0 = 0;
      type_s_dpl_p = 0;
      offset_high = 0;
    };
    idtr = none;
    ports = [];
  };
  flag = true;
}

init-Started_example :
    let m' = init (λ k. 100 * k) (λ k. 1000 * k) 0x123456 0x123500 0x200000 at_reset in
    (m'.flag ≡ true)
    × ((i : ℕ) (l : List ℕ)
        → get_elem? first_lines i ≡ some l
        → shown m'.terminal (i * vga_width) (length l) ≡ l)
    × (m'.threads.tcb 0 ≡ new_tcb 0 100 1000)
    × (m'.threads.tcb 1 ≡ new_tcb 1 200 2000)
    × (m'.threads.tcb 2 ≡ new_tcb 2 300 3000)
    × ((i : ℕ) → i < 32 → handler_of (m'.board.idt i) ≡ 0x123456)
    × (handler_of (m'.board.idt 32) ≡ 0x123500)
init-Started_example =
    init-Started (λ k. 100 * k) (λ k. 1000 * k) 0x123456 0x123500 0x200000 at_reset (omega arith)
      (omega arith) (omega arith)
