-- ===== src/Fifos/Display/FunctionId.antt =====
-- FIFOS-1/display.h: `itoa` and `terminal_functionId`, the tag of a thread by its number.
use cs552operating_system.Base.{
  ℕ, ◌+◌, ◌-◌, ◌*◌, ◌%◌, ◌^◌, ◌<◌, ◌≡◌, ap, ◌∙◌, List, [], ◌∷◌, ◌==◌, if◌then◌else◌, arith, update,
}
use cs552operating_system.Fifos.Display.{
  Terminal, vga_width, make_vgaentry, put_chars, terminal_writestring,
}
use cs552operating_system.Fifos.Display.Rows.{at, putchar_lem}

-- `itoa` sets one byte, and no 0 behind it.
unfoldable pub itoa : ℕ → ℕ
itoa d = (d + b'0') % 2 ^ 8

-- The text that starts at `p`, with the bytes that stand in memory behind the first one.
unfoldable pub id_text : ℕ → List ℕ → List ℕ
unfolding itoa
id_text id behind = if itoa id == 0 then [] else itoa id ∷ behind

-- `terminal_row -= 1; terminal_column = column`
unfoldable pub row_back : ℕ → Terminal → Terminal
row_back column t = record t { row = (t.row + 2 ^ 32 - 1) % 2 ^ 32; column = column }

unfoldable pub terminal_function_id : ℕ → List ℕ → Terminal → Terminal
unfolding id_text row_back
terminal_function_id id behind t = row_back 3 (
    terminal_writestring (b'>' ∷ []) (
      row_back 2 (
        terminal_writestring (id_text id behind)
          (row_back 1 (terminal_writestring (b'<' ∷ []) t)))))

one_back :
    (c column : ℕ) (t : Terminal)
    → t.row < 1000
    → t.column + 1 < vga_width
    → row_back column (terminal_writestring (c ∷ []) t)
      ≡ record t { column = column; buffer = update t.buffer (at t) (make_vgaentry c t.color) }
unfolding row_back terminal_writestring put_chars
one_back c column t low short = rw (putchar_lem c t low short) (ground arith)

-- `terminal_functionId` of a number up to 9, where a 0 stands in memory behind the digit, at the start
-- of one of the first 1000 rows: it writes the digit between `<` and `>` from there on, stays in the
-- row, behind them, and changes no other cell.
pub terminal_function_id_lem :
    (id : ℕ) (t : Terminal)
    → id < 10
    → t.row < 1000
    → t.column ≡ 0
    → let entry : ℕ → ℕ = λ c. make_vgaentry c t.color in
      let cell = t.row * vga_width in
      terminal_function_id id [] t ≡ record t {
        column = 3;
        buffer =
            update
              (update (update t.buffer cell (entry b'<')) (cell + 1) (entry (id + b'0')))
              (cell + 2)
              (entry b'>');
      }
unfolding terminal_function_id
terminal_function_id_lem id t digit low start =
    let text : id_text id [] ≡ (id + b'0') ∷ [] = unfold id_text itoa in ground arith in
    let write : ℕ → Terminal → Terminal = λ c t. terminal_writestring (c ∷ []) t in
    let t1 : Terminal = record t {
      column = 1;
      buffer = update t.buffer (at t) (make_vgaentry b'<' t.color);
    } in
    let t2 : Terminal = record t {
      column = 2;
      buffer = update t1.buffer (at t1) (make_vgaentry (id + b'0') t.color);
    } in
    ap (λ u. row_back 3 (write b'>' (row_back 2 (terminal_writestring (id_text id []) u))))
      (one_back b'<' 1 t low (omega (arith, start)))
    ∙ ap (λ l. row_back 3 (write b'>' (row_back 2 (terminal_writestring l t1)))) text
    ∙ ap (λ u. row_back 3 (write b'>' u)) (one_back (id + b'0') 2 t1 low (omega arith))
    ∙ one_back b'>' 3 t2 low (omega arith)
    ∙ ap
        (λ column. record t {
          column = 3;
          buffer =
              update
                (update (update t.buffer (t.row * vga_width + column) (make_vgaentry b'<' t.color))
                  (t.row * vga_width + 1) (make_vgaentry (id + b'0') t.color))
                (t.row * vga_width + 2) (make_vgaentry b'>' t.color);
        })
        start
    ∙ ground arith
