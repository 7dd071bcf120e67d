-- ===== src/Memos/Map/Lines.antt =====
-- What `printStr` and one round of the loop of `init` write.
use cs552operating_system.Base.{
  ℕ, ◌+◌, ◌*◌, ◌/◌, ◌%◌, ◌^◌, ◌≤◌, ◌<◌, ◌≡◌, refl, sym, ap, ◌∙◌, inl, inr, none, some, List, [],
  ◌∷◌, ◌++◌, map, ◌==◌, update, codes, length, length-append, put_bytes, arith, Bool-cases,
}
use mathlib.Core.List.{append_assoc}
use cs552operating_system.Memos.Number.{to_string}
use cs552operating_system.Memos.Number.Value.{to_string_lem}
use cs552operating_system.Memos.Map.{
  Screen, cell_of, print_str, Range, print_number, state_text, print_range, print_size,
}

-- The text of a number, where `toString` has one.
unfoldable pub text_of : ℕ → ℕ → List ℕ
text_of number unit = elim (to_string number unit) [ none ↦ [] | some text ↦ text ]

-- The line of a range.
unfoldable pub line_of : Range → List ℕ
line_of r =
    codes "Address Range["
    ++ text_of r.base_addr_low 16
    ++ codes ":"
    ++ text_of ((r.base_addr_low + r.length_low) % 2 ^ 32) 16
    ++ codes "] State: "
    ++ state_text r.kind

-- The line of the size of the memory.
unfoldable pub size_line : ℕ → List ℕ
size_line memsz =
    codes "MemOS: Welcome MemOS_2 System memory is: "
    ++ text_of ((memsz / 2 ^ 20 + 1) % 2 ^ 32) 10
    ++ codes "MB"

abbrev pub new_line : Screen → Screen
new_line s = record s { y = (s.y + 1) % 2 ^ 16; x = 0 }

print_str-append : (a b : List ℕ) (s : Screen) → print_str b (print_str a s) ≡ print_str (a ++ b) s
unfolding print_str
print_str-append [] b s = refl
print_str-append (c ∷ a) b s =
    print_str-append a b
      (record s { x = (s.x + 1) % 2 ^ 16; cells = update s.cells (s.y * 80 + s.x) (cell_of c) })

print_number_lem :
    (number unit : ℕ) (text : List ℕ) (s : Screen)
    → to_string number unit ≡ some text
    → print_number number unit s ≡ some (print_str (text_of number unit) s)
unfolding print_number text_of
print_number_lem number unit text s found =
    let left : print_number number unit s ≡ some (print_str text s) =
      rw (print_number, found) refl in
    let right : text_of number unit ≡ text = rw (text_of, found) refl in
    left ∙ ap (λ t. some (print_str t s)) (sym right)

print_hexadecimal :
    (n : ℕ) (s : Screen) → n < 2 ^ 32 → print_number n 16 s ≡ some (print_str (text_of n 16) s)
print_hexadecimal n s h =
    let (text, found, value, short) = (to_string_lem n h).1 in print_number_lem n 16 text s found

print_decimal :
    (n : ℕ) (s : Screen) → n < 2 ^ 32 → print_number n 10 s ≡ some (print_str (text_of n 10) s)
print_decimal n s h =
    let (text, found, value, short) = (to_string_lem n h).0 in print_number_lem n 10 text s found

hexadecimal_short : (n : ℕ) → n < 2 ^ 32 → length (text_of n 16) ≤ 8
unfolding text_of
hexadecimal_short n h =
    let (text, found, value, short) = (to_string_lem n h).1 in rw (length, found) short

decimal_short : (n : ℕ) → n < 2 ^ 32 → length (text_of n 10) ≤ 10
unfolding text_of
decimal_short n h =
    let (text, found, value, short) = (to_string_lem n h).0 in rw (length, found) short

printed_line :
    (r : Range) (s : Screen)
    → print_str (state_text r.kind) (
        print_str (codes "] State: ") (
          print_str (text_of ((r.base_addr_low + r.length_low) % 2 ^ 32) 16) (
            print_str
              (codes ":")
              (print_str (text_of r.base_addr_low 16) (print_str (codes "Address Range[") s)))))
      ≡ print_str (line_of r) s
unfolding line_of
printed_line r s = simp (print_str-append, append_assoc)

printed_size :
    (memsz : ℕ) (s : Screen)
    → print_str (codes "MB") (
        print_str
          (text_of ((memsz / 2 ^ 20 + 1) % 2 ^ 32) 10)
          (print_str (codes "MemOS: Welcome MemOS_2 System memory is: ") s))
      ≡ print_str (size_line memsz) s
unfolding size_line
printed_size memsz s = simp (print_str-append, append_assoc)

pub print_range_lem :
    (r : Range) (s : Screen)
    → r.base_addr_low < 2 ^ 32
    → print_range r s ≡ some (new_line (print_str (line_of r) s))
unfolding print_range
print_range_lem r s h =
    let s1 = print_str (codes "Address Range[") s in
    let s2 = print_str (text_of r.base_addr_low 16) s1 in
    let s3 = print_str (codes ":") s2 in
    rw (print_hexadecimal r.base_addr_low s1 h) (
      rw (print_hexadecimal ((r.base_addr_low + r.length_low) % 2 ^ 32) s3 (omega arith))
        (ap (λ t. some (new_line t)) (printed_line r s)))

pub print_size_lem :
    (memsz : ℕ) (s : Screen)
    → print_size memsz s ≡ some (print_str (size_line memsz) (record s { y = 2; x = 0 }))
unfolding print_size
print_size_lem memsz s =
    let s1 =
      print_str (codes "MemOS: Welcome MemOS_2 System memory is: ") (record s { y = 2; x = 0 }) in
    rw (print_decimal ((memsz / 2 ^ 20 + 1) % 2 ^ 32) s1 (omega arith))
      (ap some (printed_size memsz (record s { y = 2; x = 0 })))

length-state_text : (kind : ℕ) → length (state_text kind) ≤ 9
length-state_text kind = elim (Bool-cases (kind == 1)) [
  | inl same ↦ rw same (omega arith)
  | inr other ↦ rw other (omega arith)
]

-- A line stays within its row.
pub line_of-short : (r : Range) → r.base_addr_low < 2 ^ 32 → length (line_of r) < 80
unfolding line_of
line_of-short r h =
    let state = length-state_text r.kind in
    let first = hexadecimal_short r.base_addr_low h in
    let last = hexadecimal_short ((r.base_addr_low + r.length_low) % 2 ^ 32) (omega arith) in
    simp length-append (omega (arith, state, first, last))

pub size_line-short : (memsz : ℕ) → length (size_line memsz) < 80
unfolding size_line
size_line-short memsz =
    let number = decimal_short ((memsz / 2 ^ 20 + 1) % 2 ^ 32) (omega arith) in
    simp length-append (omega (arith, number))

pub print_str_lem :
    (text : List ℕ) (s : Screen)
    → s.x + length text < 2 ^ 16
    → print_str text s ≡ record s {
      x = s.x + length text;
      cells = put_bytes s.cells (s.y * 80 + s.x) (map cell_of text);
    }
unfolding print_str put_bytes
print_str_lem [] s h = ground arith
print_str_lem (c ∷ cs) s h =
    let s' = record s { x = s.x + 1; cells = update s.cells (s.y * 80 + s.x) (cell_of c) } in
    let next : (s.x + 1) % 2 ^ 16 ≡ s.x + 1 = omega arith in
    rw next (print_str_lem cs s' (omega arith) ∙ ground arith)
