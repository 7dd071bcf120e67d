-- ===== src/Ramdisk/User/PathName.antt =====
-- test/user_interface.h: `check_pathname`, which trims a path in place. A path is the bytes in front of
-- its final 0.
pub mod Trim
use cs552operating_system.Base.{
  ℕ, ◌+◌, Bool, true, false, not, ◌&&◌, ◌||◌, Option, none, some, List, [], ◌∷◌, ◌++◌, ltb, ◌==◌,
  if◌then◌else◌,
}
use mathlib.Core.List.{reverse}

-- `for (p = pathname; *p == ' '; p++);`
unfoldable pub skip_spaces : List ℕ → List ℕ
skip_spaces [] = []
skip_spaces (c ∷ cs) = let rest = skip_spaces cs in if c == b' ' then rest else c ∷ cs

-- `*p`, 0 at the end.
abbrev pub head_byte : List ℕ → ℕ
head_byte [] = 0
head_byte (c ∷ cs) = c

abbrev pub tail_bytes : List ℕ → List ℕ
tail_bytes [] = []
tail_bytes (c ∷ cs) = cs

-- `.`, `/`, a digit or a letter.
abbrev pub is_name_byte : ℕ → Bool
is_name_byte c = (ltb 45 c && ltb c 58) || (ltb 64 c && ltb c 91) || (ltb 96 c && ltb c 123)

-- The tests on the first bytes: `./` or `../`, if the first is a `.`.
unfoldable pub starts_well : List ℕ → Bool
starts_well p =
    let second = head_byte (tail_bytes p) in
    let third = head_byte (tail_bytes (tail_bytes p)) in
    is_name_byte (head_byte p)
    && (not (head_byte p == b'.')
        || (((second == b'.') || (second == b'/')) && (not (second == b'.') || (third == b'/'))))

-- The loop from the end of the text: the bytes before `p`, read backwards, and the text from there on.
-- It stops at the first byte of the text.
unfoldable pub trim_end : List ℕ → List ℕ → List ℕ
trim_end [] kept = kept
trim_end (c ∷ []) kept = c ∷ kept
trim_end (c ∷ d ∷ front) kept =
    let on = trim_end (d ∷ front) (if c == b' ' then [] else c ∷ kept) in
    if is_name_byte c then reverse (d ∷ front) ++ (c ∷ kept) else on

-- The trimmed path, if it is let through.
unfoldable pub check_pathname : List ℕ → Option (List ℕ)
unfolding starts_well
check_pathname pathname =
    let p = skip_spaces pathname in if starts_well p then some (trim_end (reverse p) []) else none
