-- ===== src/Memos/Map/Rows.antt =====
-- The rows of the screen that `init` leaves.
use cs552operating_system.Base.{
  ℕ, zero, suc, ◌+◌, ◌*◌, ◌%◌, ◌^◌, ◌≤◌, ◌<◌, ◌≡◌, ◌⊎◌, refl, sym, ap, ◌∙◌, inl, inr, some, List,
  [], ◌∷◌, map, length, put_bytes, bytes_at, bytes_at-put_bytes, put_bytes_outside, arith,
}
use mathlib.Core.Path.{subst}
use cs552operating_system.Memos.Map.{Screen, cell_of, print_str, read_range, walk_map, init}
use cs552operating_system.Memos.Map.Lines.{
  line_of, size_line, new_line, print_size_lem, line_of-short, size_line-short, print_str_lem,
}
use cs552operating_system.Memos.Map.Walk.{
  place, ranges, available, print_lines, place_ge, walk_map_lem,
}

-- The row `y` begins with the text.
abbrev pub Shows : Screen → ℕ → List ℕ → Type 0
Shows s y text = bytes_at s.cells (y * 80) (length text) ≡ map cell_of text

length-map : (text : List ℕ) → length (map cell_of text) ≡ length text
length-map [] = refl
length-map (c ∷ cs) = ap suc (length-map cs)

bytes_at-same :
    (m m' : ℕ → ℕ) (p n : ℕ)
    → ((a : ℕ) → p ≤ a → a < p + n → m' a ≡ m a)
    → bytes_at m' p n ≡ bytes_at m p n
unfolding bytes_at
bytes_at-same m m' p zero h = refl
bytes_at-same m m' p (suc n) h = rw (h p (omega arith) (omega arith)) (
    ap (λ t. m p ∷ t)
      (bytes_at-same m m' (p + 1) n (λ a low high. h a (omega arith) (omega arith))))

-- A line printed from the start of a row.
record Printed (s s' : Screen) (text : List ℕ) : Type 0 where
  row : s'.y ≡ s.y
  shown : Shows s' s.y text
  others : (p : ℕ) → (p < s.y * 80) ⊎ (s.y * 80 + 80 ≤ p) → s'.cells p ≡ s.cells p

print_str-Printed :
    (text : List ℕ) (s : Screen) → s.x ≡ 0 → length text < 80 → Printed s (print_str text s) text
print_str-Printed text s start short =
    let same = print_str_lem text s (omega (arith, start)) in
    let cells : (print_str text s).cells ≡ put_bytes s.cells (s.y * 80) (map cell_of text) =
      ap (λ t. t.cells) same
      ∙ ap (λ x. put_bytes s.cells x (map cell_of text)) (omega (arith, start)) in
    let count = length-map text in
    record {
      row = ap (λ t. t.y) same;
      shown =
          ap (λ m. bytes_at m (s.y * 80) (length text)) cells
          ∙ ap (bytes_at (put_bytes s.cells (s.y * 80) (map cell_of text)) (s.y * 80)) (sym count)
          ∙ bytes_at-put_bytes s.cells (s.y * 80) (map cell_of text);
      others = λ p out.
          ap (λ m. m p) cells
          ∙ put_bytes_outside s.cells (s.y * 80) (map cell_of text) p
              (omega (arith, out, count, short));
    }

Shows-kept :
    (s s' : Screen) (y : ℕ) (text : List ℕ)
    → length text < 80
    → ((p : ℕ) → y * 80 ≤ p → p < y * 80 + 80 → s'.cells p ≡ s.cells p)
    → Shows s y text
    → Shows s' y text
Shows-kept s s' y text short kept h =
    bytes_at-same s.cells s'.cells (y * 80) (length text) (λ p low high. kept p low (omega arith))
    ∙ h

record Listed (word : ℕ → ℕ) (n a : ℕ) (s s' : Screen) : Type 0 where
  row : s'.y ≡ s.y + n
  shown : (i : ℕ) → i < n → Shows s' (s.y + i) (line_of (read_range word (place i word a)))
  others : (p : ℕ) → (p < s.y * 80) ⊎ ((s.y + n) * 80 ≤ p) → s'.cells p ≡ s.cells p

Shows-row : (s : Screen) (y y' : ℕ) (text : List ℕ) → y ≡ y' → Shows s y text → Shows s y' text
Shows-row s y y' text e = subst (λ y. Shows s y text) e

-- The rows of a range and of those behind it.
shown_cons :
    (word : ℕ → ℕ) (n a y y1 : ℕ) (s' : Screen)
    → y1 ≡ y + 1
    → Shows s' y (line_of (read_range word a))
    → ((i : ℕ)
        → i < n
        → Shows s' (y1 + i) (line_of (read_range word (place i word (a + word a + 4)))))
    → (i : ℕ) → i < suc n
    → Shows s' (y + i) (line_of (read_range word (place i word a)))
unfolding place
shown_cons word n a y y1 s' next first rest zero h =
    Shows-row s' y (y + 0) (line_of (read_range word a)) (omega arith) first
shown_cons word n a y y1 s' next first rest (suc i) h =
    Shows-row s' (y1 + i) (y + suc i) (line_of (read_range word (place i word (a + word a + 4))))
      (omega (arith, next)) (rest i (omega arith))

print_lines-Listed :
    (word : ℕ → ℕ) (n a : ℕ) (s : Screen)
    → ((x : ℕ) → word x < 2 ^ 32)
    → s.x ≡ 0
    → s.y + n < 2 ^ 16
    → Listed word n a s (print_lines (ranges n word a) s)
unfolding print_lines ranges place
print_lines-Listed word zero a s words start few = record {
  row = omega arith;
  shown = λ i h. absurd (omega arith);
  others = λ p h. refl;
}
print_lines-Listed word (suc n) a s words start few =
    let r = read_range word a in
    let short = line_of-short r (words (a + 4)) in
    let first = print_str-Printed (line_of r) s start short in
    let s1 = new_line (print_str (line_of r) s) in
    let row : s1.y ≡ s.y + 1 = omega (arith, first.row) in
    let rest = print_lines-Listed word n (a + word a + 4) s1 words refl (omega (arith, row)) in
    let s' = print_lines (ranges n word (a + word a + 4)) s1 in
    let kept =
      Shows-kept s1 s' s.y (line_of r) short
        (λ p low high. rest.others p (inl (omega (arith, row)))) first.shown in
    record {
      row = omega (arith, row, rest.row);
      shown = shown_cons word n a s.y s1.y s' row kept rest.shown;
      others =
          λ p out. rest.others p (omega (arith, out, row)) ∙ first.others p (omega (arith, out));
    }

-- For a map of `n` ranges that fills its length exactly, with 32-bit words, addresses below 2 ^ 32 and
-- rows enough: `init` ends, within a round for each 4 bytes of the map. Row 4 + `i` then begins with the
-- line of range `i`, and row 2 with the line of the size: the sum of the available ranges, from the
-- low words of their lengths and without its carry.
pub init_lem :
    (fuel n : ℕ) (word : ℕ → ℕ) (mmap_addr mmap_length : ℕ) (s : Screen)
    → ((x : ℕ) → word x < 2 ^ 32)
    → place n word mmap_addr ≡ mmap_addr + mmap_length
    → mmap_addr + mmap_length < 2 ^ 32
    → mmap_length ≤ 4 * fuel
    → n < 1000
    → (s' : Screen) × (init fuel word mmap_addr mmap_length s ≡ some s')
      × Shows s' 2 (size_line (available (ranges n word mmap_addr) % 2 ^ 32))
      × ((i : ℕ) → i < n → Shows s' (4 + i) (line_of (read_range word (place i word mmap_addr))))
unfolding init
init_lem fuel n word mmap_addr mmap_length s words whole small enough few =
    let s0 = record s { x = 0; y = 4 } in
    let rs = ranges n word mmap_addr in
    let memsz = available rs % 2 ^ 32 in
    let limit : (mmap_addr + mmap_length) % 2 ^ 32 ≡ mmap_addr + mmap_length = omega arith in
    let s1 = print_lines rs s0 in
    let s2 = record s1 { y = 2; x = 0 } in
    let s3 = print_str (size_line memsz) s2 in
    let rounds : n ≤ fuel = omega (arith, place_ge n word mmap_addr) in
    let sum : 0 + available rs ≡ available rs = omega arith in
    let walked : walk_map fuel word (mmap_addr + mmap_length) mmap_addr 0 s0 ≡ some (memsz, s1) =
      walk_map_lem n fuel word (mmap_addr + mmap_length) mmap_addr 0 s0 words whole small rounds
        (omega arith)
      ∙ ap (λ m. some (m % 2 ^ 32, s1)) sum in
    let listed = print_lines-Listed word n mmap_addr s0 words refl (omega arith) in
    let size = print_str-Printed (size_line memsz) s2 refl (size_line-short memsz) in
    (
      s3,
      rw limit (rw walked (print_size_lem memsz s1)),
      size.shown,
      λ i h.
          Shows-kept s1 s3 (4 + i) (line_of (read_range word (place i word mmap_addr)))
            (line_of-short (read_range word (place i word mmap_addr))
              (words (place i word mmap_addr + 4)))
            (λ p low high. size.others p (inr (omega arith))) (listed.shown i h),
    )
