-- ===== src/Ramdisk/File/Gap.antt =====
-- module/support_function.h: `write_file` at the end of a block that is exactly full.
use cs552operating_system.Base.{
  put_bytes, update, update_self, ℕ, zero, suc, ◌+◌, ◌*◌, ◌/◌, ◌%◌, ◌^◌, ◌≤◌, ◌<◌, ◌≡◌, ◌≢◌, refl,
  ap, ◌∙◌, true, false, none, some, List, [], arith, lt→ltb, ltb, ◌==◌, length, pos, ◌+ℤ◌, +ℤ-pos,
}
use native.Mathlib.Nat.{zero-add}
use cs552operating_system.Ramdisk.Store.{
  Inode, is_dir, null, Fs, Ptr, done, block_size, inode_list_num, allocatable_space_size,
}
use cs552operating_system.Ramdisk.Store.Laws.{get_inode_lem}
use cs552operating_system.Ramdisk.Address.{switch_address, get_blockpointer}
use cs552operating_system.Ramdisk.Bitmap.{mark_block}
use cs552operating_system.Ramdisk.Blocks.{refuses}
use cs552operating_system.Ramdisk.Blocks.Allocate.{
  block_address, extended, extended-location, allocate_block-extended,
}
use cs552operating_system.Ramdisk.File.{grown, write_file}
use cs552operating_system.Ramdisk.File.Bytes.{Room, write_bytes-put_bytes}
use cs552operating_system.Ramdisk.File.RoundTrip.{grow_lem}
use cs552operating_system.Ramdisk.Calls.Data.{read_loop}

-- File `i` has `m` full blocks, as `write_file` leaves it: block `m` is counted as its last one, and
-- has no pointer yet; and there is room for one more.
pub record IsFull (s : Fs) (i m : ℕ) : Type 0 where
  pub bound : i < inode_list_num
  pub first : (s.inode i).location 0 ≢ null
  pub last : (s.inode i).block_number ≡ pos m
  pub next : (s.inode i).location m ≡ null
  pub direct : m + 1 < 8
  pub room : refuses (pos (m + 1)) s.superblock.free_block_number ≡ false
  pub inside : s.superblock.first_free_block < allocatable_space_size
  pub words : s.space_ptr + allocatable_space_size * block_size < 2 ^ 32
  pub place : 0 < s.space_ptr

module _ (i m : ℕ) (s : Fs) (full : IsFull s i m) where
  -- The state in which the new block is block `m + 1`.
  abbrev skipped : Fs
  skipped = extended i (m + 1) s

  abbrev block : Ptr
  block = block_address s s.superblock.first_free_block

  abbrev after : List ℕ → Fs
  after bs = record skipped {
    space = put_bytes skipped.space block bs;
    inode = update skipped.inode i (grown (skipped.inode i) (length bs));
  }

  switch_address-missing : switch_address (s.inode i) (pos m) (pos 0) s ≡ done null s
  unfolding switch_address
  switch_address-missing =
      let low : ltb m 8 ≡ true = lt→ltb m 8 (omega (arith, full.direct)) in rw (low, full.next) refl

  write_file-skipped :
      (bs : List ℕ)
      → is_dir (s.inode i).kind ≡ false
      → length bs ≤ block_size
      → write_file i (pos (block_size * m)) bs b'w' s
        ≡ done (some (length bs), pos (block_size * m + length bs)) (after bs)
  unfolding write_file
  write_file-skipped bs file few =
      let has : ((s.inode i).location 0 == null) ≡ false = ground (arith, full.first) in
      let quotient : block_size * m / block_size ≡ m = omega arith in
      let rest : block_size * m % block_size ≡ 0 = omega arith in
      let counted : (s.inode i).block_number +ℤ pos 1 ≡ pos (m + 1) =
        ap (λ b. b +ℤ pos 1) full.last ∙ +ℤ-pos m 1 in
      let made =
        allocate_block-extended i (m + 1) s full.bound counted full.room full.inside full.words
          full.direct in
      let room : Room skipped block (length bs) =
        unfold mark_block in
        (record {
          above = omega arith;
          below = omega (arith, full.inside);
          small = omega (arith, full.inside, full.words);
        }) in
      rw (get_inode_lem s full.bound, file, has)
        (rw (has, get_inode_lem s full.bound, quotient, rest, switch_address-missing)
          (rw (made) (
            rw
              (
                write_bytes-put_bytes i bs block 0 (block_size * m) 0 skipped (omega arith) room,
                zero-add,
                grow_lem i (length bs) _ full.bound,
              )
              refl)))

  after-location :
      (bs : List ℕ) → ((after bs).inode i).location ≡ update (s.inode i).location (m + 1) block
  unfolding grown
  after-location bs =
      ap (λ n. n.location) (update_self skipped.inode i (grown (skipped.inode i) (length bs)))
      ∙ extended-location i (m + 1) s

  still_missing : (bs : List ℕ) → ((after bs).inode i).location m ≡ null
  still_missing bs = ap (λ f. f m) (after-location bs) ∙ ground (arith, full.next)

  get_blockpointer-missing :
      (object : Inode) (t : Fs)
      → object.location m ≡ null
      → get_blockpointer (pos (block_size * m)) object t ≡ done null t
  unfolding get_blockpointer
  get_blockpointer-missing object t none_there =
      let quotient : block_size * m / block_size ≡ m = omega arith in
      let low : ltb m 8 ≡ true = lt→ltb m 8 (omega (arith, full.direct)) in
      let missing : (object.location m == null) ≡ true = ground (arith, none_there) in
      rw (quotient, low, missing) refl

  read_loop-missing :
      (k n : ℕ) (out : List ℕ) (object : Inode) (t : Fs)
      → 0 < n
      → object.location m ≡ null
      → 0 < k
      → read_loop k object (block_size * m) n out t ≡ done none t
  unfolding read_loop
  read_loop-missing zero n out object t some_byte none_there some_round = absurd (omega arith)
  read_loop-missing (suc k) n out object t some_byte none_there some_round =
      let more : (n == 0) ≡ false = ground arith in
      rw (more, get_blockpointer-missing object t none_there) refl

-- `write_file` at the end of a file whose blocks, seven at most, are exactly full, of some bytes that
-- fit in one block, returns that it has written all of them; but it has put them into the block behind
-- the next one: the next block is still missing, and the loop of `rd_read` at the position of the bytes
-- fails.
pub read-write_file_full :
    (i m : ℕ) (bs : List ℕ) (s : Fs)
    → IsFull s i m
    → is_dir (s.inode i).kind ≡ false
    → 0 < length bs
    → length bs ≤ block_size
    → (s' : Fs) × (write_file i (pos (block_size * m)) bs b'w' s
        ≡ done (some (length bs), pos (block_size * m + length bs)) s')
      × ((s'.inode i).location m ≡ null)
      × ((s'.inode i).location (m + 1) ≡ block_address s s.superblock.first_free_block)
      × (read_loop (length bs) (s'.inode i) (block_size * m) (length bs) [] s' ≡ done none s')
read-write_file_full i m bs s full file some_byte few =
    let t = after i m s full bs in
    (
      t,
      write_file-skipped i m s full bs file few,
      still_missing i m s full bs,
      ap (λ f. f (m + 1)) (after-location i m s full bs) ∙ ground arith,
      read_loop-missing i m s full (length bs) (length bs) [] (t.inode i) t some_byte
          (still_missing i m s full bs) some_byte,
    )
