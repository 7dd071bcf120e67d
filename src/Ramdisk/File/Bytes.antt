-- ===== src/Ramdisk/File/Bytes.antt =====
-- Runs of bytes in the space, written and read back.
use cs552operating_system.Base.{
  bytes_at, put_bytes, update, ℕ, zero, suc, ◌+◌, ◌*◌, ◌^◌, ◌≤◌, ◌<◌, ◌≡◌, refl, ◌∙◌, false, List,
  [], ◌∷◌, arith, ◌==◌, length, pos, +ℤ-pos,
}
use cs552operating_system.Ramdisk.Store.{Fs, Ptr, done, add_ptr, block_size, allocatable_space_size}
use cs552operating_system.Ramdisk.Store.Laws.{store8_lem, load8_lem}
use cs552operating_system.Ramdisk.File.{write_bytes}
use cs552operating_system.Ramdisk.Calls.Data.{load_bytes}

-- The addresses from `p`, `n` of them, lie in the space and in 32 bits.
pub record Room (s : Fs) (p : Ptr) (n : ℕ) : Type 0 where
  pub above : s.space_ptr ≤ p
  pub below : p + n ≤ s.space_ptr + allocatable_space_size * block_size
  pub small : p + n < 2 ^ 32

-- The loop of `write_file` inside of one block writes every byte.
pub write_bytes-put_bytes :
    (i : ℕ) (bs : List ℕ) (p : Ptr) (off position n : ℕ) (s : Fs)
    → off + length bs ≤ block_size
    → Room s p (length bs)
    → write_bytes i bs p (pos off) (pos position) n s
      ≡ done
          (n + length bs, pos (position + length bs))
          (record s { space = put_bytes s.space p bs })
unfolding write_bytes put_bytes
write_bytes-put_bytes i [] p off position n s h r = ground arith
write_bytes-put_bytes i (b ∷ bs) p off position n s h r =
    let inside : (off == block_size) ≡ false = ground arith in
    let s1 = record s { space = update s.space p b } in
    let count : n + 1 + length bs ≡ n + suc (length bs) = omega arith in
    let moved : position + 1 + length bs ≡ position + suc (length bs) = omega arith in
    let next =
      write_bytes-put_bytes i bs (p + 1) (off + 1) (position + 1) (n + 1) s1 (omega arith) (record {
        above = omega (arith, r.above);
        below = omega (arith, r.below);
        small = omega (arith, r.small);
      }) in
    let step : add_ptr p (pos 1) ≡ p + 1 = omega (arith, r.small) in
    rw (inside, store8_lem s b (record { above = r.above; below = omega (arith, r.below) }))
      (rw step (
        (λ j. write_bytes i bs (p + 1) (+ℤ-pos off 1 j) (+ℤ-pos position 1 j) (n + 1) s1)
        ∙ next
        ∙ (λ j.
            done (count j, pos (moved j)) (record s1 { space = put_bytes s1.space (p + 1) bs }))))

pub load_bytes-bytes_at :
    (n : ℕ) (p : Ptr) (s : Fs) → Room s p n → load_bytes n p s ≡ done (bytes_at s.space p n) s
unfolding load_bytes bytes_at
load_bytes-bytes_at zero p s r = refl
load_bytes-bytes_at (suc n) p s r =
    let rest = load_bytes-bytes_at n (p + 1) s (record {
      above = omega (arith, r.above);
      below = omega (arith, r.below);
      small = omega (arith, r.small);
    }) in
    rw (load8_lem s (record { above = r.above; below = omega (arith, r.below) }), rest)
