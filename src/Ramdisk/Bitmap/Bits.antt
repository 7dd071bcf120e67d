-- ===== src/Ramdisk/Bitmap/Bits.antt =====
-- The bits of one byte under the masks of `allocate_bitmap` and `free_bitmap`.
use cs552operating_system.Base.{
  ℕ, ◌-◌, ◌/◌, ◌%◌, ◌^◌, ◌≤◌, ◌<◌, ◌≡◌, refl, true, arith, leb, leb→le, ◌==◌, ==→eq, if◌then◌else◌,
  bit_or, all_below, all_below→,
}
use cs552operating_system.Ramdisk.Bitmap.{free_mask}

-- Bit `k` of a byte, counted from the highest.
abbrev pub bit_at : ℕ → ℕ → ℕ
bit_at byte k = byte / 2 ^ (7 - k) % 2

set_table :
    all_below 8 (λ k. all_below 8 (λ l.
      all_below 256
        (λ x. bit_at (bit_or x (0x80 / 2 ^ k)) l == (if l == k then 1 else bit_at x l))))
    ≡ true
unfolding all_below
set_table = refl

free_table :
    all_below 8 (λ k.
      all_below 8 (λ l. all_below 256 (λ x. leb (bit_at x l) (bit_at (bit_or x (free_mask k)) l))))
    ≡ true
unfolding all_below
free_table = refl

byte_table : all_below 8 (λ k. all_below 256 (λ x. leb (bit_or x (0x80 / 2 ^ k)) 255)) ≡ true
unfolding all_below
byte_table = refl

pub bit_at-set :
    (x k l : ℕ)
    → x < 256
    → k < 8
    → l < 8
    → bit_at (bit_or x (0x80 / 2 ^ k)) l ≡ (if l == k then 1 else bit_at x l)
bit_at-set x k l hx hk hl =
    ==→eq _ _ (all_below→ 256 _ x (all_below→ 8 _ l (all_below→ 8 _ k set_table hk) hl) hx)

pub bit_at-free :
    (x k l : ℕ) → x < 256 → k < 8 → l < 8 → bit_at x l ≤ bit_at (bit_or x (free_mask k)) l
bit_at-free x k l hx hk hl =
    leb→le _ _ (all_below→ 256 _ x (all_below→ 8 _ l (all_below→ 8 _ k free_table hk) hl) hx)

pub bit_or-lt : (x k : ℕ) → x < 256 → k < 8 → bit_or x (0x80 / 2 ^ k) < 256
bit_or-lt x k hx hk =
    let le : bit_or x (0x80 / 2 ^ k) ≤ 255 =
      leb→le _ _ (all_below→ 256 _ x (all_below→ 8 _ k byte_table hk) hx) in
    omega arith

nonzero_table : all_below 8 (λ k. all_below 256 (λ x. leb 1 (bit_or x (0x80 / 2 ^ k)))) ≡ true
unfolding all_below
nonzero_table = refl

pub bit_or-pos : (x k : ℕ) → x < 256 → k < 8 → 0 < bit_or x (0x80 / 2 ^ k)
bit_or-pos x k hx hk = leb→le _ _ (all_below→ 256 _ x (all_below→ 8 _ k nonzero_table hk) hx)

free_byte_table : all_below 8 (λ k. all_below 256 (λ x. leb (bit_or x (free_mask k)) 255)) ≡ true
unfolding all_below
free_byte_table = refl

pub bit_or_free-lt : (x k : ℕ) → x < 256 → k < 8 → bit_or x (free_mask k) < 256
bit_or_free-lt x k hx hk =
    let le : bit_or x (free_mask k) ≤ 255 =
      leb→le _ _ (all_below→ 256 _ x (all_below→ 8 _ k free_byte_table hk) hx) in
    omega arith
