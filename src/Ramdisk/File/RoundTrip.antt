-- ===== src/Ramdisk/File/RoundTrip.antt =====
-- `write_file` into a block that a file has, and the loop of `rd_read` over what it wrote.
use cs552operating_system.Base.{
  bytes_at, bytes_at-put_bytes, put_bytes, update, update_self, ℕ, zero, suc, ◌+◌, ◌-◌, ◌/◌, ◌%◌,
  ◌^◌, ◌≤◌, ◌<◌, ◌≡◌, ◌≢◌, refl, ◌∙◌, false, ◌&&◌, some, List, [], arith, lt→ltb, ◌==◌, length, pos,
  min,
}
use native.Mathlib.Nat.{zero-add}
use cs552operating_system.Ramdisk.Store.{
  Inode, is_dir, null, Fs, Ptr, done, block_size, inode_list_num,
}
use cs552operating_system.Ramdisk.Store.Laws.{get_inode_lem, put_inode_lem}
use cs552operating_system.Ramdisk.Address.{switch_address, get_blockpointer}
use cs552operating_system.Ramdisk.File.{grown, grow, write_file}
use cs552operating_system.Ramdisk.File.Bytes.{Room, write_bytes-put_bytes, load_bytes-bytes_at}
use cs552operating_system.Ramdisk.Calls.Data.{read_loop}

-- Position `q` of the object lies in one of its direct blocks, with `n` bytes of the block and of
-- the space behind it.
pub record InDirect (s : Fs) (object : Inode) (q n : ℕ) : Type 0 where
  pub direct : q / block_size < 8
  pub block : object.location (q / block_size) ≢ null
  pub fits : q % block_size + n ≤ block_size
  pub room : Room s (object.location (q / block_size) + q % block_size) n

-- The address of position `q`.
abbrev pub address : Inode → ℕ → Ptr
address object q = object.location (q / block_size) + q % block_size

module _ {s : Fs} {object : Inode} {q n : ℕ} (d : InDirect s object q n) where
  pub switch_address-direct :
      (t : Fs)
      → switch_address object (pos (q / block_size)) (pos (q % block_size)) t
        ≡ done (address object q) t
  unfolding switch_address
  switch_address-direct t =
      let exact : address object q % 2 ^ 32 ≡ address object q = omega (arith, d.room.small) in
      rw (lt→ltb (q / block_size) 8 d.direct, exact)

  pub get_blockpointer-direct :
      (t : Fs) → get_blockpointer (pos q) object t ≡ done (address object q) t
  unfolding get_blockpointer
  get_blockpointer-direct t =
      let exact : address object q % 2 ^ 32 ≡ address object q = omega (arith, d.room.small) in
      let there : (object.location (q / block_size) == null) ≡ false = ground (arith, d.block) in
      rw (lt→ltb (q / block_size) 8 d.direct, there, exact)

pub grow_lem :
    (i n : ℕ) (s : Fs)
    → i < inode_list_num
    → grow i n s ≡ done tt (record s { inode = update s.inode i (grown (s.inode i) n) })
unfolding grow
grow_lem i n s h = rw (get_inode_lem s h) (put_inode_lem (grown (s.inode i) n) s h)

-- The state after `write_file` writes `bs` at position `q`.
abbrev pub written : ℕ → ℕ → List ℕ → Fs → Fs
written i q bs s = record s {
  space = put_bytes s.space (address (s.inode i) q) bs;
  inode = update s.inode i (grown (s.inode i) (length bs));
}

pub write_file-written :
    (i q type : ℕ) (bs : List ℕ) (s : Fs)
    → i < inode_list_num
    → (type == b'w' && is_dir (s.inode i).kind) ≡ false
    → (s.inode i).location 0 ≢ null
    → InDirect s (s.inode i) q (length bs)
    → write_file i (pos q) bs type s
      ≡ done (some (length bs), pos (q + length bs)) (written i q bs s)
unfolding write_file
write_file-written i q type bs s hi file first d =
    let has : ((s.inode i).location 0 == null) ≡ false = ground arith in
    let there : (address (s.inode i) q == null) ≡ false = ground (arith, d.block) in
    rw (get_inode_lem s hi, file, has)
      (rw (has, get_inode_lem s hi, switch_address-direct d s, there)
        (rw (
          write_bytes-put_bytes i bs (address (s.inode i) q) (q % block_size) q 0 s d.fits d.room,
          zero-add,
          grow_lem i (length bs) _ hi,
        )))

read_loop-nothing :
    (k : ℕ) (object : Inode) (q : ℕ) (out : List ℕ) (s : Fs)
    → read_loop k object q 0 out s ≡ done (some out) s
unfolding read_loop
read_loop-nothing zero object q out s = refl
read_loop-nothing (suc k) object q out s = refl

-- The loop of `rd_read` inside of one block returns the bytes there.
pub read_loop-bytes_at :
    {s : Fs} {object : Inode} {q n : ℕ}
    → InDirect s object q n
    → read_loop n object q n [] s ≡ done (some (bytes_at s.space (address object q) n)) s
unfolding read_loop bytes_at
read_loop-bytes_at {n = zero} d = refl
read_loop-bytes_at {s} {object} {q} {n = suc n} d =
    let there : (address object q == null) ≡ false = ground (arith, d.block) in
    let more : (suc n == 0) ≡ false = ground arith in
    let whole : min (suc n) (block_size - q % block_size) ≡ suc n = omega (arith, d.fits) in
    let none_left : suc n - suc n ≡ 0 = omega arith in
    rw
      (
        more,
        get_blockpointer-direct d s,
        there,
        whole,
        load_bytes-bytes_at (suc n) (address object q) s d.room,
      )
      (rw (none_left) (read_loop-nothing n object _ _ s))

-- `write_file`, given bytes for a position in a direct block that the file has, with room for them
-- before the end of that block, writes all of them and moves the position behind them; the file then
-- counts as longer by that many bytes; and the loop of `rd_read` over that position returns exactly
-- those bytes and changes nothing.
pub read-write_file :
    (i q : ℕ) (bs : List ℕ) (s : Fs)
    → i < inode_list_num
    → is_dir (s.inode i).kind ≡ false
    → (s.inode i).location 0 ≢ null
    → InDirect s (s.inode i) q (length bs)
    → (s' : Fs) × (write_file i (pos q) bs b'w' s ≡ done (some (length bs), pos (q + length bs)) s')
      × ((s'.inode i).size ≡ ((s.inode i).size + length bs) % 2 ^ 32)
      × (read_loop (length bs) (s'.inode i) q (length bs) [] s' ≡ done (some bs) s')
unfolding grown
read-write_file i q bs s hi file first d =
    let n = length bs in
    let same : update s.inode i (grown (s.inode i) n) i ≡ grown (s.inode i) n =
      update_self s.inode i (grown (s.inode i) n) in
    let d' : InDirect (written i q bs s) (grown (s.inode i) n) q n = record {
      direct = d.direct;
      block = d.block;
      fits = d.fits;
      room = record { above = d.room.above; below = d.room.below; small = d.room.small };
    } in
    (
      written i q bs s,
      write_file-written i q b'w' bs s hi file first d,
      rw same,
      rw same (
          read_loop-bytes_at d' ∙ (λ j.
            done (some (bytes_at-put_bytes s.space (address (s.inode i) q) bs j))
              (written i q bs s))),
    )
