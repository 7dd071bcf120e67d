-- ===== src/Ramdisk/User/PathName/Trim.antt =====
-- `check_pathname` of a path with spaces around it.
use cs552operating_system.Base.{
  ℕ, zero, suc, ◌≡◌, refl, sym, ap, ◌∙◌, true, false, some, List, [], ◌∷◌, ◌++◌, ◌==◌, arith, inl,
  inr, Bool-cases,
}
use mathlib.Core.List.{reverse, reverse-append, reverse-cons, reverse-reverse}
use cs552operating_system.Ramdisk.User.PathName.{
  skip_spaces, head_byte, is_name_byte, starts_well, trim_end, check_pathname,
}

abbrev pub spaces : ℕ → List ℕ
spaces zero = []
spaces (suc n) = b' ' ∷ spaces n

spaces_snoc : (n : ℕ) → spaces n ++ (b' ' ∷ []) ≡ b' ' ∷ spaces n
spaces_snoc zero = refl
spaces_snoc (suc n) = ap (λ t. b' ' ∷ t) (spaces_snoc n)

reverse-spaces : (n : ℕ) → reverse (spaces n) ≡ spaces n
reverse-spaces zero = refl
reverse-spaces (suc n) =
    reverse-cons (b' ') (spaces n) ∙ ap (λ t. t ++ (b' ' ∷ [])) (reverse-spaces n) ∙ spaces_snoc n

skip_spaces-spaces : (n : ℕ) (p : List ℕ) → skip_spaces (spaces n ++ p) ≡ skip_spaces p
unfolding skip_spaces
skip_spaces-spaces zero p = refl
skip_spaces-spaces (suc n) p = skip_spaces-spaces n p

starts_well-head : (p : List ℕ) → starts_well p ≡ true → is_name_byte (head_byte p) ≡ true
unfolding starts_well
starts_well-head p h = elim (Bool-cases (is_name_byte (head_byte p))) [
  | inl good ↦ good
  | inr bad ↦ absurd (let f : false ≡ true = sym (rw bad refl) ∙ h in cc)
]

skip_spaces-name : (p : List ℕ) → is_name_byte (head_byte p) ≡ true → skip_spaces p ≡ p
unfolding skip_spaces
skip_spaces-name [] h = refl
skip_spaces-name (c ∷ cs) h = elim (Bool-cases (c == b' ')) [
  | inl space ↦ ground arith
  | inr other ↦ rw other refl
]

starts_well-append : (p q : List ℕ) → starts_well p ≡ true → starts_well (p ++ q) ≡ true
unfolding starts_well
starts_well-append [] q h = cc
starts_well-append (c ∷ []) q h = ground arith
starts_well-append (c ∷ d ∷ []) q h = ground arith
starts_well-append (c ∷ d ∷ e ∷ p) q h = h

trim_end-spaces :
    (n c : ℕ) (front : List ℕ) → trim_end (spaces n ++ (c ∷ front)) [] ≡ trim_end (c ∷ front) []
unfolding trim_end
trim_end-spaces zero c front = refl
trim_end-spaces (suc zero) c front = refl
trim_end-spaces (suc (suc n)) c front = trim_end-spaces (suc n) c front

trim_end-name :
    (c : ℕ) (front : List ℕ)
    → is_name_byte c ≡ true
    → trim_end (c ∷ front) [] ≡ reverse front ++ (c ∷ [])
unfolding trim_end
trim_end-name c [] h = refl
trim_end-name c (d ∷ front) h = rw h refl

-- A path that starts well and ends in a name byte, with any number of spaces before and behind:
-- `check_pathname` takes the spaces away and nothing else.
pub check_pathname-spaces :
    (m n : ℕ) (front : List ℕ) (c : ℕ)
    → is_name_byte c ≡ true
    → starts_well (front ++ (c ∷ [])) ≡ true
    → check_pathname (spaces m ++ ((front ++ (c ∷ [])) ++ spaces n)) ≡ some (front ++ (c ∷ []))
unfolding check_pathname
check_pathname-spaces m n front c name good =
    let path = front ++ (c ∷ []) in
    let whole = starts_well-append path (spaces n) good in
    let skipped : skip_spaces (spaces m ++ (path ++ spaces n)) ≡ path ++ spaces n =
      skip_spaces-spaces m (path ++ spaces n)
      ∙ skip_spaces-name (path ++ spaces n) (starts_well-head (path ++ spaces n) whole) in
    let backwards : reverse (path ++ spaces n) ≡ spaces n ++ (c ∷ reverse front) =
      reverse-append path (spaces n)
      ∙ ap (λ t. t ++ reverse path) (reverse-spaces n)
      ∙ ap (λ t. spaces n ++ t) (reverse-append front (c ∷ [])) in
    let trimmed : trim_end (reverse (path ++ spaces n)) [] ≡ path =
      ap (λ t. trim_end t []) backwards
      ∙ trim_end-spaces n c (reverse front)
      ∙ trim_end-name c (reverse front) name
      ∙ ap (λ t. t ++ (c ∷ [])) (reverse-reverse front) in
    rw skipped (rw (whole, trimmed) refl)
