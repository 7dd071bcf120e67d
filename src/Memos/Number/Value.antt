-- ===== src/Memos/Number/Value.antt =====
-- The text of a number, read as a numeral, is the number.
use cs552operating_system.Base.{
  ℕ, zero, suc, ◌+◌, ◌-◌, ◌*◌, ◌/◌, ◌%◌, ◌^◌, ◌≤◌, ◌<◌, ◌≡◌, ◌≢◌, refl, sym, ap, ◌∙◌, inl, inr,
  false, some, List, [], ◌∷◌, arith, length, ltb, ◌==◌, if◌then◌else◌, Bool-cases, ==→eq,
}
use mathlib.Core.List.{reverse, reverse_aux, reverse-reverse}
use native.Mathlib.Nat.{pow-suc, pow-zero}
use cs552operating_system.Memos.Number.{digit_char, rev_digits, to_string}

-- The value of a digit, of digits from the lowest, and of a numeral.
unfoldable pub digit_value : ℕ → ℕ
digit_value c = if ltb c b'a' then c - b'0' else c - b'a' + 10

unfoldable pub rev_value : ℕ → List ℕ → ℕ
rev_value unit [] = 0
rev_value unit (c ∷ cs) = unit * rev_value unit cs + digit_value c

unfoldable pub value : ℕ → List ℕ → ℕ
value unit text = rev_value unit (reverse text)

-- What a base has to satisfy.
pub record IsBase (unit : ℕ) : Type 0 where
  positive : unit ≢ 0
  quotient : (n x : ℕ) → n < x * unit → n / unit < x
  whole : (n : ℕ) → unit * (n / unit) + n % unit ≡ n
  digit : (n : ℕ) → digit_value (digit_char unit (n % unit)) ≡ n % unit

pub ten : IsBase 10
unfolding digit_value digit_char
ten = record {
  positive = omega arith;
  quotient = λ n x h. omega arith;
  whole = λ n. omega arith;
  digit = λ n. ground arith;
}

pub sixteen : IsBase 16
unfolding digit_value digit_char
sixteen = record {
  positive = omega arith;
  quotient = λ n x h. omega arith;
  whole = λ n. omega arith;
  digit = λ n. ground arith;
}

record Digits (unit n k : ℕ) (ds : List ℕ) : Type 0 where
  exact : rev_value unit ds ≡ n
  short : length ds ≤ k

rev_digits-zero : (f unit : ℕ) → rev_digits f 0 unit ≡ some []
unfolding rev_digits
rev_digits-zero zero unit = refl
rev_digits-zero (suc f) unit = refl

length-reverse_aux : (xs ys : List ℕ) → length (reverse_aux xs ys) ≡ length xs + length ys
length-reverse_aux [] ys = omega arith
length-reverse_aux (x ∷ xs) ys = omega (arith, length-reverse_aux xs (x ∷ ys))

length-reverse : (xs : List ℕ) → length (reverse xs) ≡ length xs
length-reverse xs = omega (arith, length-reverse_aux xs [])

-- With `k` digits enough for the number, and at least `k` places.
rev_digits-Digits :
    {unit : ℕ}
    → IsBase unit
    → (k f n : ℕ) → n < unit ^ k
    → k ≤ f
    → (ds : List ℕ) × (rev_digits f n unit ≡ some ds) × Digits unit n k ds
unfolding rev_digits rev_value
rev_digits-Digits {unit} base zero f n h le =
    let none_left : n ≡ 0 = omega (arith, pow-zero unit) in
    (
      [],
      rw none_left (rev_digits-zero f unit),
      record { exact = sym none_left; short = omega arith },
    )
rev_digits-Digits base (suc k) zero n h le = absurd (omega arith)
rev_digits-Digits {unit} base (suc k) (suc f) n h le = elim (Bool-cases (n == 0)) [
  | inl nil ↦
      let e : n ≡ 0 = ==→eq n 0 nil in ([], rw nil, record { exact = sym e; short = omega arith })
  | inr more ↦
      let (ds, found, d) =
        rev_digits-Digits base k f (n / unit) (base.quotient n (unit ^ k) (rw pow-suc at h))
          (omega arith) in
      let proper : (unit == 0) ≡ false = ground (arith, base.positive) in
      let exact : unit * rev_value unit ds + digit_value (digit_char unit (n % unit)) ≡ n =
        rw (d.exact, base.digit n) (base.whole n) in
      (
        digit_char unit (n % unit) ∷ ds,
        rw (more, proper, found),
        record { exact = exact; short = omega (arith, d.short) },
      )
]

pub to_string-value :
    {unit : ℕ}
    → IsBase unit
    → (k n : ℕ) → n < unit ^ k
    → 1 ≤ k
    → k ≤ 32
    → (text : List ℕ) × (to_string n unit ≡ some text) × (value unit text ≡ n) × (length text ≤ k)
unfolding to_string value
to_string-value {unit} base k n h low few = elim (Bool-cases (n == 0)) [
  | inl nil ↦ let e : n ≡ 0 = ==→eq n 0 nil in (b'0' ∷ [], rw nil, zero_value unit ∙ sym e, low)
  | inr more ↦
      let (ds, found, d) = rev_digits-Digits base k 32 n h few in
      (
        reverse ds,
        rw (more, found),
        ap (rev_value unit) (reverse-reverse ds) ∙ d.exact,
        rw length-reverse d.short,
      )
]
  where
    zero_value : (unit : ℕ) → rev_value unit (b'0' ∷ []) ≡ 0
    zero_value unit = unfold rev_value digit_value in omega arith

-- `toString` of a 32-bit number in base 10 or 16 returns a text, within the 32 places of `revstr`; the
-- text read as a numeral of that base is the number, and it has at most 10 digits in base 10 and 8 in
-- base 16.
pub to_string_lem :
    (n : ℕ)
    → n < 2 ^ 32
    → ((text : List ℕ) × (to_string n 10 ≡ some text) × (value 10 text ≡ n) × (length text ≤ 10))
      × ((text : List ℕ) × (to_string n 16 ≡ some text) × (value 16 text ≡ n) × (length text ≤ 8))
to_string_lem n h = (
  to_string-value ten 10 n (omega arith) (omega arith) (omega arith),
  to_string-value sixteen 8 n (omega arith) (omega arith) (omega arith),
)
