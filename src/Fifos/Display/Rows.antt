-- ===== src/Fifos/Display/Rows.antt =====
-- What `terminal_writestring` leaves on the screen.
use cs552operating_system.Base.{
  ℕ, suc, ◌+◌, ◌*◌, ◌%◌, ◌≤◌, ◌<◌, ◌≡◌, ◌⊎◌, refl, sym, ap, ◌∙◌, List, [], ◌∷◌, map, true, arith,
  ◌==◌, update, length, put_bytes, bytes_at, put_bytes_outside, bytes_at-put_bytes, all_below,
  all_below→, ==→eq,
}
use cs552operating_system.Fifos.Display.{
  Terminal, vga_width, make_vgaentry, terminal_putentryat, advance, terminal_putchar, put_chars,
  terminal_writestring,
}

-- The cells of a text in a color.
abbrev pub cells : ℕ → List ℕ → List ℕ
cells color text = map (λ c. make_vgaentry c color) text

abbrev pub at : Terminal → ℕ
at t = t.row * vga_width + t.column

pub putchar_lem :
    (c : ℕ) (t : Terminal)
    → t.row < 1000
    → t.column + 1 < vga_width
    → terminal_putchar c t ≡ record t {
      column = t.column + 1;
      buffer = update t.buffer (at t) (make_vgaentry c t.color);
    }
unfolding terminal_putchar terminal_putentryat advance
putchar_lem c t low short = ground arith

put_chars_lem :
    (cs : List ℕ) (t : Terminal)
    → t.row < 1000
    → t.column + length cs < vga_width
    → put_chars cs t ≡ record t {
      column = t.column + length cs;
      buffer = put_bytes t.buffer (at t) (cells t.color cs);
    }
unfolding put_chars put_bytes
put_chars_lem [] t low short = ground arith
put_chars_lem (c ∷ cs) t low short =
    let t' = record t {
      column = t.column + 1;
      buffer = update t.buffer (at t) (make_vgaentry c t.color);
    } in
    rw (putchar_lem c t low (omega arith)) (put_chars_lem cs t' low (omega arith) ∙ ground arith)

-- An ASCII byte is the low half of its cell.
low_table : all_below 128 (λ c. all_below 256 (λ color. make_vgaentry c color % 256 == c)) ≡ true
unfolding all_below make_vgaentry
low_table = refl

low_lem : (c color : ℕ) → c < 128 → color < 256 → make_vgaentry c color % 256 ≡ c
low_lem c color h k = ==→eq _ _ (
    all_below→ 256 (λ color. make_vgaentry c color % 256 == c) color
      (all_below→ 128 _ c low_table h) k)

abbrev pub IsAscii : List ℕ → Type 0
IsAscii [] = Unit
IsAscii (c ∷ cs) = (c < 128) × IsAscii cs

-- The characters that `n` cells from a place on show.
unfoldable pub shown : Terminal → ℕ → ℕ → List ℕ
shown t p n = map (λ cell. cell % 256) (bytes_at t.buffer p n)

cells_low :
    (color : ℕ) (text : List ℕ)
    → IsAscii text
    → color < 256
    → map (λ cell. cell % 256) (cells color text) ≡ text
cells_low color [] a h = refl
cells_low color (c ∷ cs) a h = rw (low_lem c color a.0 h, cells_low color cs a.1 h)

length-cells : (color : ℕ) (text : List ℕ) → length (cells color text) ≡ length text
length-cells color [] = refl
length-cells color (c ∷ cs) = ap suc (length-cells color cs)

writestring_buffer :
    (text : List ℕ) (t : Terminal)
    → t.row < 1000
    → t.column + length text < vga_width
    → terminal_writestring text t ≡ record t {
      row = t.row + 1;
      column = 0;
      buffer = put_bytes t.buffer (at t) (cells t.color text);
    }
unfolding terminal_writestring
writestring_buffer text t low short = rw (put_chars_lem text t low short) (ground arith)

-- `terminal_writestring` of an ASCII text that ends before the end of its row shows the text from the
-- position on, changes no other cell, and goes to the start of the next row, also where that is
-- past the last row of the screen; the rows are counted below 1000.
pub terminal_writestring_lem :
    (text : List ℕ) (t : Terminal)
    → IsAscii text
    → t.color < 256
    → t.row < 1000
    → t.column + length text < vga_width
    → let t' = terminal_writestring text t in
      (t'.row ≡ t.row + 1)
      × (t'.column ≡ 0)
      × (t'.color ≡ t.color)
      × (shown t' (at t) (length text) ≡ text)
      × ((i : ℕ) → (i < at t) ⊎ (at t + length text ≤ i) → t'.buffer i ≡ t.buffer i)
unfolding shown
terminal_writestring_lem text t ascii color low short =
    let same = writestring_buffer text t low short in
    let count = length-cells t.color text in
    (
      ap (λ x. x.row) same,
      ap (λ x. x.column) same,
      ap (λ x. x.color) same,
      ap (λ x. map (λ cell. cell % 256) (bytes_at x.buffer (at t) (length text))) same
          ∙ ap
              (λ n.
                map (λ cell. cell % 256)
                  (bytes_at (put_bytes t.buffer (at t) (cells t.color text)) (at t) n))
              (sym count)
          ∙ ap (map (λ cell. cell % 256)) (bytes_at-put_bytes t.buffer (at t) (cells t.color text))
          ∙ cells_low t.color text ascii color,
      λ i out.
          ap (λ x. x.buffer i) same
          ∙ put_bytes_outside t.buffer (at t) (cells t.color text) i (rw count out),
    )
