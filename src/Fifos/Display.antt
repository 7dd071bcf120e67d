-- ===== src/Fifos/Display.antt =====
-- FIFOS-1/display.h: the text screen. A cell is a word of 16 bits, by its index from 0xB8000; a text
-- is the bytes in front of its final 0.
pub mod Rows
pub mod Page
pub mod FunctionId
use cs552operating_system.Base.{
  ℕ, zero, suc, ◌+◌, ◌-◌, ◌*◌, ◌%◌, ◌^◌, bit_or, List, [], ◌∷◌, ltb, ◌==◌, if◌then◌else◌, update,
  length,
}

abbrev pub vga_width : ℕ
vga_width = 80

abbrev pub vga_height : ℕ
vga_height = 24

abbrev pub color_light_grey : ℕ
color_light_grey = 7

abbrev pub color_black : ℕ
color_black = 0

-- `terminal_row`, `terminal_column`, `terminal_color` and `terminal_buffer`.
pub record Terminal : Type 0 where
  pub row : ℕ
  pub column : ℕ
  pub color : ℕ
  pub buffer : ℕ → ℕ

unfoldable pub make_color : ℕ → ℕ → ℕ
make_color fg bg = bit_or fg (bg * 2 ^ 4) % 2 ^ 8

-- A `char` is signed, and is extended to 16 bits.
unfoldable pub make_vgaentry : ℕ → ℕ → ℕ
make_vgaentry c color =
    let c16 = if ltb c 128 then c else 0xff00 + c in bit_or c16 (color * 2 ^ 8) % 2 ^ 16

-- The two loops of `terminal_initialize` write the cells of the rows one after the other.
unfoldable pub blank_cells : ℕ → ℕ → ℕ → (ℕ → ℕ) → ℕ → ℕ
blank_cells zero color index buffer = buffer
blank_cells (suc k) color index buffer =
    blank_cells k color (index + 1) (update buffer index (make_vgaentry b' ' color))

unfoldable pub terminal_initialize : Terminal → Terminal
terminal_initialize t =
    let color = make_color color_light_grey color_black in
    record {
      row = 0;
      column = 0;
      color = color;
      buffer = blank_cells (vga_height * vga_width) color 0 t.buffer;
    }

unfoldable pub terminal_setcolor : ℕ → Terminal → Terminal
terminal_setcolor color t = record t { color = color }

unfoldable pub terminal_putentryat : ℕ → ℕ → ℕ → ℕ → Terminal → Terminal
terminal_putentryat c color x y t = record t {
  buffer = update t.buffer ((y * vga_width + x) % 2 ^ 32) (make_vgaentry c color);
}

-- The position after one more character.
unfoldable pub advance : Terminal → Terminal
advance t =
    let column = (t.column + 1) % 2 ^ 32 in
    let row = (t.row + 1) % 2 ^ 32 in
    if column == vga_width
    then record t { column = 0; row = if row == vga_height then 0 else row }
    else record t { column = column }

unfoldable pub terminal_putchar : ℕ → Terminal → Terminal
terminal_putchar c t = advance (terminal_putentryat c t.color t.column t.row t)

-- The loop of `terminal_writestring`.
unfoldable pub put_chars : List ℕ → Terminal → Terminal
put_chars [] t = t
put_chars (c ∷ cs) t = put_chars cs (terminal_putchar c t)

unfoldable pub terminal_writestring : List ℕ → Terminal → Terminal
terminal_writestring text t =
    let t' = put_chars text t in record t' { row = (t'.row + 1) % 2 ^ 32; column = 0 }
