-- ===== src/Memos/Map.antt =====
-- memos-2/memos-2.c: `printStr`, and `init`, which walks the memory map that the boot loader leaves and
-- prints a line for each range, and the size of the memory. A text is the bytes in front of its final
-- 0, fewer than 65536 of them; the words of the map are read by their address.
pub mod Lines
pub mod Walk
pub mod Rows
use cs552operating_system.Base.{
  ℕ, zero, suc, ◌+◌, ◌*◌, ◌/◌, ◌%◌, ◌^◌, bit_or, Option, none, some, List, [], ◌∷◌, ltb, ◌==◌,
  if◌then◌else◌, update, codes,
}
use cs552operating_system.Memos.Number.{to_string}

-- What is undefined stays so.
infixl 5 ◌>>=◌
abbrev ◌>>=◌ {ℓ} : {A B : Type ℓ} → Option A → (A → Option B) → Option B
none >>= k = none
some a >>= k = k a

-- `x`, `y`, and the words of 16 bits from 0xB8000.
pub record Screen : Type 0 where
  pub x : ℕ
  pub y : ℕ
  pub cells : ℕ → ℕ

-- A `char` is signed. The color is white on black.
unfoldable pub cell_of : ℕ → ℕ
cell_of c =
    let color = bit_or (0 * 2 ^ 4) 15 in
    bit_or (if ltb c 128 then c else 0xff00 + c) (color * 2 ^ 8) % 2 ^ 16

-- The loop of `printStr`.
unfoldable pub print_str : List ℕ → Screen → Screen
print_str [] s = s
print_str (c ∷ cs) s =
    print_str cs
      (record s { x = (s.x + 1) % 2 ^ 16; cells = update s.cells (s.y * 80 + s.x) (cell_of c) })

-- `memory_map_t`
pub record Range : Type 0 where
  pub size : ℕ
  pub base_addr_low : ℕ
  pub base_addr_high : ℕ
  pub length_low : ℕ
  pub length_high : ℕ
  pub kind : ℕ

abbrev pub read_range : (ℕ → ℕ) → ℕ → Range
read_range word a = record {
  size = word a;
  base_addr_low = word (a + 4);
  base_addr_high = word (a + 8);
  length_low = word (a + 12);
  length_high = word (a + 16);
  kind = word (a + 20);
}

-- `printStr` of what `toString` has written: none where that is undefined.
unfoldable pub print_number : ℕ → ℕ → Screen → Option Screen
print_number number unit s = elim (to_string number unit) [
  | none ↦ none
  | some text ↦ some (print_str text s)
]

abbrev pub state_text : ℕ → List ℕ
state_text kind = if kind == 1 then codes "available" else codes "reserved"

-- One round of the loop of `init`, behind the sum.
unfoldable pub print_range : Range → Screen → Option Screen
print_range r s = do
  let s1 = print_str (codes "Address Range[") s
  s2 ← print_number r.base_addr_low 16 s1
  let s3 = print_str (codes ":") s2
  s4 ← print_number ((r.base_addr_low + r.length_low) % 2 ^ 32) 16 s3
  let s5 = print_str (state_text r.kind) (print_str (codes "] State: ") s4)
  some (record s5 { y = (s5.y + 1) % 2 ^ 16; x = 0 })

unfoldable pub add_size : Range → ℕ → ℕ
add_size r memsz = if r.kind == 1 then (memsz + r.length_low) % 2 ^ 32 else memsz

-- The loop of `init` from the address `mmap`, with the rounds left; none if they do not suffice.
unfoldable pub walk_map : ℕ → (ℕ → ℕ) → ℕ → ℕ → ℕ → Screen → Option (ℕ × Screen)
walk_map zero word limit mmap memsz s = if ltb mmap limit then none else some (memsz, s)
walk_map (suc k) word limit mmap memsz s =
    let r = read_range word mmap in
    if ltb mmap limit
    then (print_range r s >>= λ s'.
        walk_map k word limit ((mmap + r.size + 4) % 2 ^ 32) (add_size r memsz) s')
    else some (memsz, s)

unfoldable pub print_size : ℕ → Screen → Option Screen
print_size memsz s = do
  let s1 = print_str (codes "MemOS: Welcome MemOS_2 System memory is: ") (record s { y = 2; x = 0 })
  s2 ← print_number ((memsz / 2 ^ 20 + 1) % 2 ^ 32) 10 s1
  some (print_str (codes "MB") s2)

-- `init`, with the address and the length of the map; `fuel` bounds the rounds of its loop.
unfoldable pub init : ℕ → (ℕ → ℕ) → ℕ → ℕ → Screen → Option Screen
init fuel word mmap_addr mmap_length s = do
  (memsz, s') ←
      walk_map fuel word ((mmap_addr + mmap_length) % 2 ^ 32) mmap_addr 0
        (record s { x = 0; y = 4 })
  print_size memsz s'
