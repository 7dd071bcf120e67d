-- ===== src/Ramdisk/Init/Layout.antt =====
-- The regions of the ramdisk, and what holds of its first state.
use cs552operating_system.Base.{
  ℕ, zero, suc, ◌+◌, ◌*◌, ◌≤◌, ◌<◌, ◌≡◌, ◌≢◌, ◌↔◌, ◌/◌, ◌%◌, refl, sym, true, all_below, all_below→,
  Bool-cases, ==→eq, inl, inr, some, arith, ◌==◌, if◌then◌else◌,
}
use cs552operating_system.Ramdisk.Store.{
  Fs, Ptr, done, block_size, ramdisk_size, allocatable_space_size,
}
use cs552operating_system.Ramdisk.Bitmap.Allocate.{IsBytes, marked}
use cs552operating_system.Ramdisk.Bitmap.Bits.{bit_at}
use cs552operating_system.Ramdisk.Inodes.Invariant.{IsCounted, free_below}
use cs552operating_system.Ramdisk.Init.{inode_ptr, bitmap_ptr, initial, init_datastructure}

-- The size of `my_inode`: 4 of `type`, 4, 40 of `location`, three of 2 and 2 of padding, 4, 4, 8 of
-- `unused`, 4 and 4.
abbrev pub sizeof_inode : ℕ
sizeof_inode = 80

free_below-initial :
    (s : Fs) (ramdisk : Ptr) (n : ℕ) → free_below (initial ramdisk s).inode (suc n) ≡ n
unfolding free_below initial
free_below-initial s ramdisk zero = refl
free_below-initial s ramdisk (suc n) = ground (arith, free_below-initial s ramdisk n)

first_bits : all_below 8 (λ l. bit_at 0x80 l == (if l == 0 then 1 else 0)) ≡ true
unfolding all_below
first_bits = refl

zero_bits : all_below 8 (λ l. bit_at 0 l == 0) ≡ true
unfolding all_below
zero_bits = refl

first_marked :
    (s : Fs) (ramdisk : Ptr) (b : ℕ) → marked (initial ramdisk s) b ≡ (if b == 0 then 1 else 0)
unfolding initial
first_marked s ramdisk b = elim (Bool-cases (b / 8 == 0)) [
  | inl low ↦ rw (low, ==→eq _ _ (all_below→ 8 _ (b % 8) first_bits (omega arith))) (ground arith)
  | inr high ↦ rw (high, ==→eq _ _ (all_below→ 8 _ (b % 8) zero_bits (omega arith))) (ground arith)
]

pub initial-IsCounted : (ramdisk : Ptr) (s : Fs) → IsCounted (initial ramdisk s)
unfolding initial
initial-IsCounted ramdisk s = record {
  bound = omega arith;
  lowest = λ i p. ground arith;
  free = λ p. refl;
  count = sym (free_below-initial s ramdisk 1023);
}

pub initial-IsBytes : (ramdisk : Ptr) (s : Fs) → IsBytes (initial ramdisk s).bitmap
unfolding initial
initial-IsBytes ramdisk s b = ground arith

-- `init_datastructure` lays the four regions out one behind the other, so that the blocks of the
-- space end where the ramdisk ends; it leaves counters that agree with the inode list, bytes in the
-- bitmap, and exactly the block of the root folder marked.
pub init_datastructure_lem :
    (ramdisk : Ptr) (s : Fs)
    → ramdisk ≢ 0
    → (s' : Fs) × (init_datastructure ramdisk s ≡ done (some 0) s')
      × (s'.space_ptr + allocatable_space_size * block_size ≡ ramdisk + ramdisk_size)
      × IsCounted s'
      × IsBytes s'.bitmap
      × ((b : ℕ) → marked s' b ≡ (if b == 0 then 1 else 0))
unfolding init_datastructure
init_datastructure_lem ramdisk s h = (
  initial ramdisk s,
  ground arith,
  omega arith,
  initial-IsCounted ramdisk s,
  initial-IsBytes ramdisk s,
  λ b. first_marked s ramdisk b,
)

-- The inodes whose records lie in front of the bitmap; the others of the 1024 lie over it or the blocks.
abbrev pub separate_inodes : ℕ
separate_inodes = 819

inode_fits :
    (ramdisk : Ptr) (i : ℕ)
    → (inode_ptr ramdisk + sizeof_inode * (i + 1) ≤ bitmap_ptr ramdisk) ↔ (i < separate_inodes)
unfolding inode_ptr bitmap_ptr
inode_fits ramdisk i = (λ h. omega arith, λ h. omega arith)
