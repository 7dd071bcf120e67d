-- ===== src/Fifos/Display/Page.antt =====
-- Several lines written with `terminal_writestring`, one after the other.
use cs552operating_system.Base.{
  ℕ, zero, suc, ◌+◌, ◌*◌, ◌%◌, ◌≤◌, ◌<◌, ◌≡◌, ◌⊎◌, refl, ap, ◌∙◌, inl, none, some, List, [], ◌∷◌,
  length, get_elem?, bytes_at, arith,
}
use mathlib.Core.Path.{subst}
use cs552operating_system.Fifos.Display.{Terminal, vga_width, terminal_writestring}
use cs552operating_system.Fifos.Display.Rows.{IsAscii, shown, at, terminal_writestring_lem}

unfoldable pub write_lines : List (List ℕ) → Terminal → Terminal
write_lines [] t = t
write_lines (l ∷ ls) t = write_lines ls (terminal_writestring l t)

-- Every line is of ASCII bytes, and shorter than a row.
abbrev pub AreLines : List (List ℕ) → Type 0
AreLines [] = Unit
AreLines (l ∷ ls) = (IsAscii l × (length l < vga_width)) × AreLines ls

record Written (t t' : Terminal) (ls : List (List ℕ)) : Type 0 where
  pub row : t'.row ≡ t.row + length ls
  pub column : t'.column ≡ 0
  pub color : t'.color ≡ t.color
  pub lines :
      (i : ℕ) (l : List ℕ)
      → get_elem? ls i ≡ some l
      → shown t' ((t.row + i) * vga_width) (length l) ≡ l
  pub others :
      (p : ℕ)
      → (p < t.row * vga_width) ⊎ ((t.row + length ls) * vga_width ≤ p)
      → t'.buffer p ≡ t.buffer p

shown-same :
    (t t' : Terminal) (p n : ℕ)
    → ((a : ℕ) → p ≤ a → a < p + n → t'.buffer a ≡ t.buffer a)
    → shown t' p n ≡ shown t p n
unfolding shown bytes_at
shown-same t t' p zero h = refl
shown-same t t' p (suc n) h = rw (h p (omega arith) (omega arith)) (
    ap (λ rest. t.buffer p % 256 ∷ rest)
      (shown-same t t' (p + 1) n (λ a low high. h a (omega arith) (omega arith))))

pub shown-row : (t : Terminal) (p q n : ℕ) (l : List ℕ) → p ≡ q → shown t p n ≡ l → shown t q n ≡ l
shown-row t p q n l e = subst (λ p. shown t p n ≡ l) e

-- The first line, and those behind it.
lines_cons :
    (t' : Terminal) (y y1 : ℕ) (l : List ℕ) (ls : List (List ℕ))
    → y1 ≡ y + 1
    → shown t' (y * vga_width) (length l) ≡ l
    → ((i : ℕ) (k : List ℕ)
        → get_elem? ls i ≡ some k
        → shown t' ((y1 + i) * vga_width) (length k) ≡ k)
    → (i : ℕ) (k : List ℕ) → get_elem? (l ∷ ls) i ≡ some k
    → shown t' ((y + i) * vga_width) (length k) ≡ k
lines_cons t' y y1 l ls next first rest zero k h =
    let same : l ≡ k = ap (λ o. elim o [ none ↦ l | some x ↦ x ]) h in
    subst (λ k. shown t' ((y + 0) * vga_width) (length k) ≡ k) same
      (shown-row t' (y * vga_width) ((y + 0) * vga_width) (length l) l (omega arith) first)
lines_cons t' y y1 l ls next first rest (suc i) k h =
    shown-row t' ((y1 + i) * vga_width) ((y + suc i) * vga_width) (length k) k (omega (arith, next))
      (rest i k h)

write_lines-Written :
    (ls : List (List ℕ)) (t : Terminal)
    → AreLines ls
    → t.column ≡ 0
    → t.color < 256
    → t.row + length ls ≤ 1000
    → Written t (write_lines ls t) ls
unfolding write_lines
write_lines-Written [] t a start color few = record {
  row = omega arith;
  column = start;
  color = refl;
  lines = λ i l h. cc;
  others = λ p h. refl;
}
write_lines-Written (l ∷ ls) t a start color few =
    let t1 = terminal_writestring l t in
    let (row, column, kept, first, others) =
      terminal_writestring_lem l t a.0.0 color (omega arith) (omega (arith, start, a.0.1)) in
    let rest = write_lines-Written ls t1 a.1 column (omega (arith, kept)) (omega (arith, row)) in
    let t' = write_lines ls t1 in
    let line : shown t' (t.row * vga_width) (length l) ≡ l =
      shown-same t1 t' (t.row * vga_width) (length l)
        (λ p low high. rest.others p (inl (omega (arith, row, a.0.1))))
      ∙ shown-row t1 (at t) (t.row * vga_width) (length l) l (omega (arith, start)) first in
    record {
      row = omega (arith, row, rest.row);
      column = rest.column;
      color = rest.color ∙ kept;
      lines = lines_cons t' t.row t1.row l ls row line rest.lines;
      others = λ p out.
          rest.others p (omega (arith, out, row)) ∙ others p (omega (arith, out, start, a.0.1));
    }

-- From the start of a row, short lines of ASCII bytes are shown in one row each, and no cell in front of
-- these rows or behind them changes. The rows are counted on past the last row of the screen, as
-- far as 1000 rows: `terminal_writestring` never goes back to the first one.
pub write_lines_lem :
    (ls : List (List ℕ)) (t : Terminal)
    → AreLines ls
    → t.column ≡ 0
    → t.color < 256
    → t.row + length ls ≤ 1000
    → let t' = write_lines ls t in
      (t'.row ≡ t.row + length ls)
      × ((i : ℕ) (l : List ℕ)
          → get_elem? ls i ≡ some l
          → shown t' ((t.row + i) * vga_width) (length l) ≡ l)
      × ((p : ℕ)
          → (p < t.row * vga_width) ⊎ ((t.row + length ls) * vga_width ≤ p)
          → t'.buffer p ≡ t.buffer p)
write_lines_lem ls t a start color few =
    let w = write_lines-Written ls t a start color few in (w.row, w.lines, w.others)
