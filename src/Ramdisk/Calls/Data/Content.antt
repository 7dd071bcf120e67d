-- ===== src/Ramdisk/Calls/Data/Content.antt =====
-- module/module_interface.h: the loop of `rd_read` over several blocks returns the bytes of the file in
-- their order.
use cs552operating_system.Base.{
  bytes_at, bytes_at-append, ℕ, zero, suc, ◌+◌, ◌-◌, ◌/◌, ◌%◌, ◌^◌, ◌≤◌, ◌<◌, ◌≡◌, ◌≢◌, refl, ap,
  sym, ◌∙◌, false, some, List, [], ◌∷◌, ◌++◌, arith, ltb, leb, ◌==◌, if◌then◌else◌, inl, inr,
  Bool-cases, min, pos,
}
use mathlib.Core.List.{append-nil, append_assoc}
use cs552operating_system.Ramdisk.Store.{
  Inode, null, Fs, Fdt, FileObject, Env, done, block_size, inode_list_num,
}
use cs552operating_system.Ramdisk.Store.Laws.{get_inode_lem}
use cs552operating_system.Ramdisk.Calls.Walk.{current_fdt_lem, load_fdt_lem}
use cs552operating_system.Ramdisk.Calls.Data.Opened.{Opened, file_at_lem}
use cs552operating_system.Ramdisk.File.Bytes.{Room, load_bytes-bytes_at}
use cs552operating_system.Ramdisk.File.RoundTrip.{InDirect, address, get_blockpointer-direct}
use cs552operating_system.Ramdisk.Calls.Data.{read_loop, read_start, read_count, read_at, rd_read}

-- The byte of a file at each position, where the inode places it.
abbrev pub content : Fs → Inode → ℕ → ℕ
content s object q = s.space (address object q)

-- Each of the positions lies in a direct block that the file has.
abbrev pub Covered : Fs → Inode → ℕ → ℕ → Type 0
Covered s object q n = (j : ℕ) → q ≤ j → j < q + n → InDirect s object j 1

-- Inside of a block the addresses follow one another.
address_in_block :
    (object : Inode) (q i : ℕ)
    → q % block_size + i < block_size
    → address object (q + i) ≡ address object q + i
address_in_block object q i h =
    let same : (q + i) / block_size ≡ q / block_size = omega arith in rw same (omega arith)

bytes_at-content :
    (s : Fs) (object : Inode) (q n : ℕ)
    → q % block_size + n ≤ block_size
    → bytes_at s.space (address object q) n ≡ bytes_at (content s object) q n
unfolding bytes_at
bytes_at-content s object q zero h = refl
bytes_at-content s object q (suc zero) h = refl
bytes_at-content s object q (suc (suc n)) h =
    let next = address_in_block object q 1 (omega arith) in
    ap (λ l. s.space (address object q) ∷ l)
      (ap (λ p. bytes_at s.space p (suc n)) (sym next)
        ∙ bytes_at-content s object (q + 1) (suc n) (omega arith))

Covered-Room :
    (s : Fs) (object : Inode) (q n : ℕ)
    → Covered s object q (suc n)
    → q % block_size + suc n ≤ block_size
    → Room s (address object q) (suc n)
Covered-Room s object q n c h =
    let first = (c q (omega arith) (omega arith)).room in
    let last = (c (q + n) (omega arith) (omega arith)).room in
    let there = address_in_block object q n (omega arith) in
    record {
      above = first.above;
      below = omega (arith, last.below, there);
      small = omega (arith, last.small, there);
    }

nothing :
    (s : Fs) (object : Inode) (q : ℕ) (out : List ℕ) → out ++ bytes_at (content s object) q 0 ≡ out
unfolding bytes_at
nothing s object q out = append-nil out

-- One round reads up to the end of the block.
read_loop-round :
    (k : ℕ) (object : Inode) (q n m : ℕ) (out : List ℕ) (s : Fs)
    → Covered s object q (suc n)
    → min (suc n) (block_size - q % block_size) ≡ suc m
    → read_loop (suc k) object q (suc n) out s
      ≡ read_loop k object
          (q + (block_size - q % block_size))
          (suc n - suc m)
          (out ++ bytes_at (content s object) q (suc m))
          s
unfolding read_loop
read_loop-round k object q n m out s c count =
    let d = c q (omega arith) (omega arith) in
    let more : (suc n == 0) ≡ false = ground arith in
    let there : (address object q == null) ≡ false = ground (arith, d.block) in
    let room =
      Covered-Room s object q m (λ j l h. c j l (omega (arith, count))) (omega (arith, count)) in
    rw
      (
        more,
        get_blockpointer-direct d s,
        there,
        count,
        load_bytes-bytes_at (suc m) (address object q) s room,
        bytes_at-content s object q (suc m) (omega (arith, count)),
      )
      refl

-- The loop of `rd_read`, where every position lies in a direct block that the file has, with as many
-- rounds as bytes: what it returns behind the output so far is the content of the file.
pub read_loop-content :
    (k : ℕ) (object : Inode) (q n : ℕ) (out : List ℕ) (s : Fs)
    → n ≤ k
    → Covered s object q n
    → read_loop k object q n out s ≡ done (some (out ++ bytes_at (content s object) q n)) s
unfolding read_loop
read_loop-content zero object q zero out s few c =
    ap (λ o. done (some o) s) (sym (nothing s object q out))
read_loop-content zero object q (suc n) out s few c = absurd (omega arith)
read_loop-content (suc k) object q zero out s few c =
    ap (λ o. done (some o) s) (sym (nothing s object q out))
read_loop-content (suc k) object q (suc n) out s few c =
    let remain = block_size - q % block_size in
    let f = content s object in
    elim (Bool-cases (leb (suc n) remain)) [
      | inl last ↦
          let ended : suc n - suc n ≡ 0 = omega arith in
          read_loop-round k object q n n out s c (ground arith)
          ∙ rw ended (
              read_loop-content k object (q + remain) 0 (out ++ bytes_at f q (suc n)) s
                (omega arith) (λ j l h. absurd (omega arith))
              ∙ ap (λ o. done (some o) s)
                  (nothing s object (q + remain) (out ++ bytes_at f q (suc n))))
      | inr full ↦
          let m = remain - 1 in
          let left = suc n - suc m in
          let whole : suc m ≡ remain = omega arith in
          let parts : suc m + left ≡ suc n = ground arith in
          read_loop-round k object q n m out s c (ground arith)
          ∙ read_loop-content k object (q + remain) left (out ++ bytes_at f q (suc m)) s
              (omega arith) (λ j l h. c j (omega arith) (omega arith))
          ∙ ap (λ o. done (some o) s)
              (append_assoc out (bytes_at f q (suc m)) (bytes_at f (q + remain) left)
                ∙ ap (λ l. out ++ l)
                    (ap (λ p. bytes_at f q (suc m) ++ bytes_at f (q + p) left) (sym whole)
                      ∙ sym (bytes_at-append f q (suc m) left)
                      ∙ ap (bytes_at f q) parts))
    ]

-- Where a read starts: at the position of the object, or at 0 if that is no position of the file.
abbrev pub start_of : ℕ → ℕ → ℕ
start_of q size = if ltb q size then q else 0

read_start-start_of :
    (q size : ℕ) → q < 2 ^ 31 → size < 2 ^ 31 → read_start (pos q) size ≡ start_of q size
unfolding read_start
read_start-start_of q size hq hs = ground arith

read_count-min :
    (size start n : ℕ)
    → size < 2 ^ 31
    → n < 2 ^ 31
    → read_count size start (pos n) ≡ min n (size - start)
unfolding read_count
read_count-min size start n hs hn = ground arith

-- `rd_read` of `n` bytes through a descriptor of the process, of a file that is not empty, whose object
-- stands at position `q`, with sizes and positions below 2^31: it starts at `q`, or at the beginning if
-- the file ends there; it returns as many bytes as asked for, or as are left of the file from there on,
-- and they are the content of the file in its order, across all blocks, where these are direct blocks
-- that the file has; and it changes nothing.
pub rd_read-content :
    (env : Env) (s : Fs) (t : ℕ) (fdt : Fdt) (fd : ℕ) (f : FileObject) (q n : ℕ)
    → Opened env s t fdt fd f
    → f.position ≡ pos q
    → f.inode_index < inode_list_num
    → (s.inode f.inode_index).location 0 ≢ null
    → 0 < (s.inode f.inode_index).size
    → (s.inode f.inode_index).size < 2 ^ 31
    → q < 2 ^ 31
    → n < 2 ^ 31
    → let object = s.inode f.inode_index in
      let start = start_of q object.size in
      let count = min n (object.size - start) in
      Covered s object start count
      → rd_read env (pos fd) (pos n) s
        ≡ done (some count, bytes_at (content s object) start count) s
unfolding rd_read read_at
rd_read-content env s t fdt fd f q n o e hi first some_byte small hq hn c =
    let object = s.inode f.inode_index in
    let start : read_start f.position object.size ≡ start_of q object.size =
      rw e (read_start-start_of q object.size hq small) in
    let count = read_count-min object.size (start_of q object.size) n small hn in
    let some_size : (object.size == 0) ≡ false = ground arith in
    let has : (object.location 0 == null) ≡ false = ground arith in
    let read =
      read_loop-content (min n (object.size - start_of q object.size)) object
        (start_of q object.size) (min n (object.size - start_of q object.size)) [] s (omega arith)
        c in
    rw (current_fdt_lem env s t o.own, load_fdt_lem s t fdt o.table)
      (rw (file_at_lem fd fdt.files f o.positive o.object) (
        rw (get_inode_lem s hi)
          (rw (some_size, has, start, count) (rw read (rw (start, count) refl)))))
