-- ===== src/Memos/Number.antt =====
-- memos-2/memos-2.c: `toString`, a number as text in base 10 or 16.
pub mod Value
pub mod Wide
use cs552operating_system.Base.{
  ℕ, zero, suc, ◌+◌, ◌-◌, ◌/◌, ◌%◌, Option, none, some, List, [], ◌∷◌, ltb, ◌==◌, if◌then◌else◌,
}
use mathlib.Core.List.{reverse}

-- The byte of one digit.
unfoldable pub digit_char : ℕ → ℕ → ℕ
digit_char unit temp =
    if unit == 10 then temp + b'0' else if ltb temp 10 then temp + b'0' else temp - 10 + b'a'

-- The loop that fills `revstr`, with the places left in it: none if it overflows. With a base of 0 the
-- division is undefined.
unfoldable pub rev_digits : ℕ → ℕ → ℕ → Option (List ℕ)
rev_digits zero number unit = if number == 0 then some [] else none
rev_digits (suc k) number unit =
    let rest = rev_digits k (number / unit) unit in
    if number == 0
    then some []
    else if unit == 0
    then none
    else elim rest [ none ↦ none | some ds ↦ some (digit_char unit (number % unit) ∷ ds) ]

-- The text without its final 0.
unfoldable pub to_string : ℕ → ℕ → Option (List ℕ)
to_string number unit =
    if number == 0
    then some (b'0' ∷ [])
    else elim (rev_digits 32 number unit) [ none ↦ none | some ds ↦ some (reverse ds) ]
