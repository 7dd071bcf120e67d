-- ===== src/Ramdisk/Store/Laws.antt =====
-- When the accesses of the store succeed, and what they read back.
use cs552operating_system.Base.{update, ℕ, ◌+◌, ◌*◌, ◌^◌, ◌≤◌, ◌<◌, ◌≡◌, ◌⊎◌, true, arith, lt→ltb}
use cs552operating_system.Ramdisk.Store.{
  Inode, Fs, Ptr, done, get_inode, put_inode, load8, store8, word_at, put_word, load32, store32,
  in_space, block_size, inode_list_num, allocatable_space_size,
}

pub get_inode_lem : {i : ℕ} (s : Fs) → i < inode_list_num → get_inode i s ≡ done (s.inode i) s
unfolding get_inode
get_inode_lem {i} s h = rw (lt→ltb i inode_list_num h)

pub put_inode_lem :
    {i : ℕ} (n : Inode) (s : Fs)
    → i < inode_list_num
    → put_inode i n s ≡ done tt (record s { inode = update s.inode i n })
unfolding put_inode
put_inode_lem {i} n s h = rw (lt→ltb i inode_list_num h)

-- An address of the allocatable space.
pub record InSpace (s : Fs) (a : Ptr) : Type 0 where
  pub above : s.space_ptr ≤ a
  pub below : a < s.space_ptr + allocatable_space_size * block_size

pub in_space_lem : {s : Fs} {a : Ptr} → InSpace s a → in_space s a ≡ true
in_space_lem h = ground arith

pub load8_lem : (s : Fs) {a : Ptr} → InSpace s a → load8 a s ≡ done (s.space a) s
unfolding load8
load8_lem s h = rw (in_space_lem h)

pub store8_lem :
    (s : Fs) {a : Ptr} (v : ℕ)
    → InSpace s a
    → store8 a v s ≡ done tt (record s { space = update s.space a v })
unfolding store8
store8_lem s v h = rw (in_space_lem h)

pub load32_lem :
    (s : Fs) {a : Ptr} → InSpace s a → InSpace s (a + 3) → load32 a s ≡ done (word_at s.space a) s
unfolding load32
load32_lem s h k = rw (in_space_lem h, in_space_lem k)

pub store32_lem :
    (s : Fs) {a : Ptr} (v : ℕ)
    → InSpace s a
    → InSpace s (a + 3)
    → store32 a v s ≡ done tt (record s { space = put_word s.space a v })
unfolding store32
store32_lem s v h k = rw (in_space_lem h, in_space_lem k)

-- A word of 32 bits is read back from where it was written.
pub word_at-put_word : (m : ℕ → ℕ) (a : Ptr) (v : ℕ) → v < 2 ^ 32 → word_at (put_word m a v) a ≡ v
unfolding word_at put_word
word_at-put_word m a v h = ground arith

pub word_at-put_word_ne :
    (m : ℕ → ℕ) (a b : Ptr) (v : ℕ)
    → b + 4 ≤ a ⊎ a + 4 ≤ b
    → word_at (put_word m a v) b ≡ word_at m b
unfolding word_at put_word
word_at-put_word_ne m a b v apart = ground arith
