-- ===== src/Memos/Examples.antt =====
-- The theorems on numbers and on the memory map at concrete inputs.
use cs552operating_system.Base.{
  ℕ, ◌+◌, ◌%◌, ◌^◌, ◌≤◌, ◌<◌, ◌≡◌, refl, some, List, length, codes, ◌==◌, if◌then◌else◌, arith,
}
use cs552operating_system.Memos.Map.{Screen, read_range, init}
use cs552operating_system.Memos.Map.Lines.{line_of, size_line, text_of}
use cs552operating_system.Memos.Map.Walk.{place, ranges, available}
use cs552operating_system.Memos.Map.Rows.{Shows, init_lem}
use cs552operating_system.Memos.Number.{to_string, rev_digits, digit_char}
use cs552operating_system.Memos.Number.Value.{value, to_string_lem}

to_string_lem_example :
    ((text : List ℕ) × (to_string 1979 10 ≡ some text)
      × (value 10 text ≡ 1979)
      × (length text ≤ 10))
    × ((text : List ℕ) × (to_string 1979 16 ≡ some text)
        × (value 16 text ≡ 1979)
        × (length text ≤ 8))
to_string_lem_example = to_string_lem 1979 (omega arith)

-- Two available ranges, at address 4096.
abbrev two_ranges : ℕ → ℕ
two_ranges a =
    if a == 4096
    then 20
    else if a == 4108
    then 0x9fc00
    else if a == 4116
    then 1
    else if a == 4120
    then 20
    else if a == 4124
    then 0x100000
    else if a == 4132
    then 0x7ee0000
    else if a == 4140
    then 1
    else 0

abbrev dark : Screen
dark = record { x = 0; y = 0; cells = λ i. 0 }

second_line :
    line_of (read_range two_ranges 4120) ≡ codes "Address Range[100000:7fe0000] State: available"
unfolding line_of text_of to_string rev_digits digit_char
second_line = refl

init_lem_example :
    (s' : Screen) × (init 12 two_ranges 4096 48 dark ≡ some s')
    × Shows s' 2 (size_line (available (ranges 2 two_ranges 4096) % 2 ^ 32))
    × ((i : ℕ)
        → i < 2
        → Shows s' (4 + i) (line_of (read_range two_ranges (place i two_ranges 4096))))
unfolding place
init_lem_example =
    init_lem 12 2 two_ranges 4096 48 dark (λ x. ground arith) refl (omega arith) (omega arith)
      (omega arith)
