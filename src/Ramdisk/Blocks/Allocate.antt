-- ===== src/Ramdisk/Blocks/Allocate.antt =====
-- module/support_function.h: the blocks that `allocate_block` takes, with `switchAddress`.
use cs552operating_system.Base.{
  update, update_self, ℕ, ◌+◌, ◌*◌, ◌/◌, ◌%◌, ◌^◌, ◌<◌, ◌≡◌, ap, ◌∙◌, false, arith, lt→ltb, ◌==◌,
  if◌then◌else◌, pos, ◌+ℤ◌,
}
use cs552operating_system.Ramdisk.Store.{
  Inode, Fs, Ptr, done, block_size, inode_list_num, allocatable_space_size, bitmap_sublock,
}
use cs552operating_system.Ramdisk.Store.Laws.{get_inode_lem, put_inode_lem}
use cs552operating_system.Ramdisk.Address.{switch_address}
use cs552operating_system.Ramdisk.Bitmap.{mark_block, allocate_bitmap}
use cs552operating_system.Ramdisk.Bitmap.Allocate.{
  IsBytes, marked, marked-mark_block, first_free-mark_block,
}
use cs552operating_system.Ramdisk.Blocks.{
  take_block, set_location, extend, refuses, set_last_block, allocate_block,
}

abbrev pub block_address : Fs → ℕ → Ptr
block_address s b = s.space_ptr + b * block_size

pub take_block_lem :
    (s : Fs)
    → s.superblock.first_free_block < allocatable_space_size
    → take_block s
      ≡ done
          (block_address s s.superblock.first_free_block)
          (mark_block s.superblock.first_free_block s)
unfolding take_block allocate_bitmap
take_block_lem s h = rw (lt→ltb (s.superblock.first_free_block / 8) bitmap_sublock (omega arith))

-- Two blocks taken one after the other are the same block, the first free one, where that is a block
-- of the space and a multiple of 8 and the bitmap holds bytes.
take_block_again :
    (s : Fs)
    → IsBytes s.bitmap
    → s.superblock.first_free_block < allocatable_space_size
    → s.superblock.first_free_block % 8 ≡ 0
    → (s' : Fs) × (s'' : Fs) × (take_block s
        ≡ done (block_address s s.superblock.first_free_block) s')
      × (take_block s' ≡ done (block_address s s.superblock.first_free_block) s'')
unfolding mark_block
take_block_again s bytes h eight =
    let b = s.superblock.first_free_block in
    let s' = mark_block b s in
    let again : s'.superblock.first_free_block ≡ b =
      omega (arith, first_free-mark_block b s bytes h) in
    (
      s',
      mark_block b s',
      take_block_lem s h,
      take_block_lem s' (omega (arith, again))
          ∙ (λ j. done (s.space_ptr + again j * block_size) (mark_block (again j) s')),
    )

abbrev counted : Inode → ℕ → Inode
counted object k = record object { block_number = pos k; last_block_offset = pos 0 }

abbrev located : Inode → ℕ → Ptr → Inode
located object k p = record object { location = update object.location k p }

abbrev put : ℕ → Inode → Fs → Fs
put i object s = record s { inode = update s.inode i object }

set_last_block_lem :
    (i k : ℕ) (s : Fs)
    → i < inode_list_num
    → set_last_block i (pos k) s ≡ done tt (put i (counted (s.inode i) k) s)
unfolding set_last_block
set_last_block_lem i k s hi = rw (get_inode_lem s hi) (put_inode_lem (counted (s.inode i) k) s hi)

set_location_lem :
    (i k : ℕ) (p : Ptr) (s : Fs)
    → i < inode_list_num
    → set_location i k p s ≡ done tt (put i (located (s.inode i) k p) s)
unfolding set_location
set_location_lem i k p s hi = rw (get_inode_lem s hi) (put_inode_lem (located (s.inode i) k p) s hi)

-- The state in which the pointer of the new block `k` of file `i` is put in its place, and the state
-- after that.
abbrev pub ready : ℕ → ℕ → Fs → Fs
ready i k s =
    let taken = mark_block s.superblock.first_free_block s in
    put i (counted (taken.inode i) k) taken

abbrev pub extended : ℕ → ℕ → Fs → Fs
extended i k s =
    put i (located ((ready i k s).inode i) k (block_address s s.superblock.first_free_block))
      (ready i k s)

pub extended-location :
    (i k : ℕ) (s : Fs)
    → ((extended i k s).inode i).location
      ≡ update (s.inode i).location k (block_address s s.superblock.first_free_block)
unfolding mark_block
extended-location i k s =
    let p = block_address s s.superblock.first_free_block in
    ap (λ n. n.location) (update_self (ready i k s).inode i (located ((ready i k s).inode i) k p))
    ∙ ap (λ n. update n.location k p) (update_self s.inode i (counted (s.inode i) k))

module _ (i k : ℕ) (s : Fs) (hi : i < inode_list_num)
    (next : (s.inode i).block_number +ℤ pos 1 ≡ pos k)
    (room : refuses (pos k) s.superblock.free_block_number ≡ false)
    (inside : s.superblock.first_free_block < allocatable_space_size)
    (words : s.space_ptr + allocatable_space_size * block_size < 2 ^ 32) where
  abbrev taken : Fs
  taken = mark_block s.superblock.first_free_block s

  abbrev block : Ptr
  block = block_address s s.superblock.first_free_block

  allocate_block-extend : allocate_block i s ≡ extend i (pos k) block (ready i k s)
  unfolding allocate_block
  allocate_block-extend =
      rw (get_inode_lem s hi, next, room, take_block_lem s inside)
        (rw (set_last_block_lem i k taken hi))

  block_small : block < 2 ^ 32
  block_small = omega arith

  switch_address-located :
      (object : Inode) (t : Fs)
      → k < 8
      → switch_address (located object k block) (pos k) (pos 0) t ≡ done block t
  unfolding switch_address
  switch_address-located object t low =
      let exact : (block + 0) % 2 ^ 32 ≡ block = omega (arith, block_small) in
      rw (lt→ltb k 8 low, update_self object.location k block, exact)

  extend-direct : k < 8 → extend i (pos k) block (ready i k s) ≡ done block (extended i k s)
  unfolding extend
  extend-direct low = rw (lt→ltb k 8 low, set_location_lem i k block (ready i k s) hi)

  pub allocate_block-extended : k < 8 → allocate_block i s ≡ done block (extended i k s)
  allocate_block-extended low = allocate_block-extend ∙ extend-direct low

  -- A new direct block of a file: `allocate_block` returns the block that was first free, counts it,
  -- `switchAddress` at the block that the inode now counts last leads to it, and in the bitmap, where it
  -- holds bytes, the bit of that block is set and no other changes.
  pub switch-allocate_block :
      k < 8
      → IsBytes s.bitmap
      → (s' : Fs) × (allocate_block i s ≡ done block s')
        × ((s'.inode i).block_number ≡ pos k)
        × (switch_address (s'.inode i) (pos k) (pos 0) s' ≡ done block s')
        × ((b : ℕ) → marked s' b ≡ (if b == s.superblock.first_free_block then 1 else marked s b))
  switch-allocate_block low bytes =
      let object = located ((ready i k s).inode i) k block in
      let same : update (ready i k s).inode i object i ≡ object =
        update_self (ready i k s).inode i object in
      let counts = update_self taken.inode i (counted (taken.inode i) k) in
      (
        extended i k s,
        allocate_block-extended low,
        rw same (rw counts),
        rw same (switch_address-located ((ready i k s).inode i) (extended i k s) low),
        λ b. marked-mark_block s.superblock.first_free_block b s bytes,
      )
