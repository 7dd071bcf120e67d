-- ===== src/Memos/Map/Walk.antt =====
-- The whole walk of `init` over a memory map.
use cs552operating_system.Base.{
  ℕ, zero, suc, ◌+◌, ◌*◌, ◌%◌, ◌^◌, ◌≤◌, ◌<◌, ◌≡◌, refl, ap, ◌∙◌, inl, inr, true, false, some, List,
  [], ◌∷◌, ltb, ◌==◌, if◌then◌else◌, arith, Bool-cases,
}
use cs552operating_system.Memos.Map.{Screen, print_str, Range, read_range, add_size, walk_map}
use cs552operating_system.Memos.Map.Lines.{line_of, new_line, print_range_lem}

-- The address behind `n` ranges from `a` on, and these ranges.
unfoldable pub place : ℕ → (ℕ → ℕ) → ℕ → ℕ
place zero word a = a
place (suc n) word a = place n word (a + word a + 4)

unfoldable pub ranges : ℕ → (ℕ → ℕ) → ℕ → List Range
ranges zero word a = []
ranges (suc n) word a = read_range word a ∷ ranges n word (a + word a + 4)

-- The bytes of the available ranges, from the low words of their lengths.
unfoldable pub available : List Range → ℕ
available [] = 0
available (r ∷ rs) = (if r.kind == 1 then r.length_low else 0) + available rs

unfoldable pub print_lines : List Range → Screen → Screen
print_lines [] s = s
print_lines (r ∷ rs) s = print_lines rs (new_line (print_str (line_of r) s))

pub place_ge : (n : ℕ) (word : ℕ → ℕ) (a : ℕ) → a + 4 * n ≤ place n word a
unfolding place
place_ge zero word a = omega arith
place_ge (suc n) word a = omega (arith, place_ge n word (a + word a + 4))

walk_map-end :
    (fuel : ℕ) (word : ℕ → ℕ) (a memsz : ℕ) (s : Screen)
    → walk_map fuel word a a memsz s ≡ some (memsz, s)
unfolding walk_map
walk_map-end zero word a memsz s = let over : ltb a a ≡ false = ground arith in rw over refl
walk_map-end (suc fuel) word a memsz s = let over : ltb a a ≡ false = ground arith in rw over refl

add_size_lem :
    (r : Range) (memsz rest : ℕ)
    → memsz < 2 ^ 32
    → ((add_size r memsz + rest) % 2 ^ 32
        ≡ (memsz + ((if r.kind == 1 then r.length_low else 0) + rest)) % 2 ^ 32)
      × (add_size r memsz < 2 ^ 32)
unfolding add_size
add_size_lem r memsz rest low = elim (Bool-cases (r.kind == 1)) [
  | inl same ↦ rw same (omega arith, omega arith)
  | inr other ↦ rw other (omega arith, low)
]

pub walk_map_lem :
    (n fuel : ℕ) (word : ℕ → ℕ) (limit a memsz : ℕ) (s : Screen)
    → ((x : ℕ) → word x < 2 ^ 32)
    → place n word a ≡ limit
    → limit < 2 ^ 32
    → n ≤ fuel
    → memsz < 2 ^ 32
    → walk_map fuel word limit a memsz s
      ≡ some ((memsz + available (ranges n word a)) % 2 ^ 32, print_lines (ranges n word a) s)
unfolding walk_map available ranges print_lines place
walk_map_lem zero fuel word limit a memsz s words at small enough low =
    let whole : (memsz + 0) % 2 ^ 32 ≡ memsz = omega arith in
    rw whole (rw at (walk_map-end fuel word limit memsz s))
walk_map_lem (suc n) zero word limit a memsz s words at small enough low = absurd (omega arith)
walk_map_lem (suc n) (suc k) word limit a memsz s words at small enough low =
    let r = read_range word a in
    let behind = place_ge n word (a + word a + 4) in
    let more : ltb a limit ≡ true = ground (arith, behind, at) in
    let next : (a + word a + 4) % 2 ^ 32 ≡ a + word a + 4 = omega (arith, behind, at) in
    let (sum, less) = add_size_lem r memsz (available (ranges n word (a + word a + 4))) low in
    let s' = new_line (print_str (line_of r) s) in
    rw more (
      rw (print_range_lem r s (words (a + 4))) (
        rw (next) (
          walk_map_lem n k word limit (a + word a + 4) (add_size r memsz) s' words at small
            (omega arith) less
          ∙ ap (λ m. some (m, print_lines (ranges n word (a + word a + 4)) s')) sum)))
