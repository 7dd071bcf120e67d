-- ===== src/Memos/Number/Wide.antt =====
-- memos-2/testToString.c: `intToString`, the copy of `toString` that the test runs, on numbers of the type
-- `unsigned long`, of 64 bits.
use cs552operating_system.Base.{
  ℕ, zero, suc, ◌+◌, ◌-◌, ◌/◌, ◌%◌, ◌^◌, Option, none, some, List, [], ◌∷◌, ltb, ◌==◌,
  if◌then◌else◌,
}
use mathlib.Core.List.{reverse}

-- One byte of `revstr`.
unfoldable pub int_digit_char : ℕ → ℕ → ℕ
int_digit_char unit temp =
    (if unit == 10 then temp + b'0' else if ltb temp 10 then temp + b'0' else temp - 10 + b'a')
    % 2 ^ 8

-- The loop, with the places left in `revstr`: none if it overflows, or divides by 0.
unfoldable pub int_rev_digits : ℕ → ℕ → ℕ → Option (List ℕ)
int_rev_digits zero data_left unit = if data_left == 0 then some [] else none
int_rev_digits (suc k) data_left unit =
    let rest = int_rev_digits k (data_left / unit) unit in
    if data_left == 0
    then some []
    else if unit == 0
    then none
    else elim rest [ none ↦ none | some ds ↦ some (int_digit_char unit (data_left % unit) ∷ ds) ]

-- The text without its final 0.
unfoldable pub int_to_string : ℕ → ℕ → Option (List ℕ)
unfolding int_rev_digits
int_to_string number unit =
    if number == 0
    then some (b'0' ∷ [])
    else elim (int_rev_digits 32 number unit) [ none ↦ none | some ds ↦ some (reverse ds) ]
