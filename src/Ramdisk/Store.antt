-- ===== src/Ramdisk/Store.antt =====
-- module/data_structure.h: the structures of the ramdisk as records, the globals of
-- module/initial_module.c as a state, and commands over that state.
pub mod Laws
use cs552operating_system.Base.{
  update, ℕ, suc, ◌+◌, ◌-◌, ◌*◌, ◌/◌, ◌%◌, ◌^◌, Bool, ◌&&◌, Option, List, ltb, leb, ◌==◌,
  if◌then◌else◌, ℤ, pos, negsuc,
}

abbrev pub block_size : ℕ
block_size = 256

abbrev pub superblock_size : ℕ
superblock_size = 1

abbrev pub inode_list_size : ℕ
inode_list_size = 256

abbrev pub inode_list_num : ℕ
inode_list_num = 1024

abbrev pub bitmap_size : ℕ
bitmap_size = 4

abbrev pub bitmap_sublock : ℕ
bitmap_sublock = 1024

abbrev pub allocatable_space_size : ℕ
allocatable_space_size = 7931

abbrev pub max_file_size : ℕ
max_file_size = 1067008

abbrev pub ramdisk_size : ℕ
ramdisk_size = 2097152

-- `superblock`, four `uint16_t`.
pub record Superblock : Type 0 where
  pub free_block_number : ℕ
  pub free_inode_number : ℕ
  pub first_free_block : ℕ
  pub first_free_inode : ℕ

-- The texts that `type[4]` takes: the empty one of a zeroed inode, and the three macros.
pub data Kind : Type 0 where
  blank dir reg nul : Kind

abbrev pub is_dir : Kind → Bool
is_dir dir = Bool.true
is_dir _ = Bool.false

-- A `void *`: a 32-bit address, 0 for `NULL`.
abbrev pub Ptr : Type 0
Ptr = ℕ

abbrev pub null : Ptr
null = 0

-- `my_inode`, less `unused` and `flag`, which no code reads.
pub record Inode : Type 0 where
  pub kind : Kind
  pub size : ℕ
  pub location : ℕ → Ptr
  pub protection : ℕ
  pub operation : ℕ
  pub parent_index : ℕ
  pub block_number : ℤ
  pub last_block_offset : ℤ
  pub mode : ℤ

-- `file_object`; `next` is the order of a list.
pub record FileObject : Type 0 where
  pub inode_index : ℕ
  pub position : ℤ

-- `FDT`; the lists of file objects are never shared, since a child's is copied.
pub record Fdt : Type 0 where
  pub pid : ℕ
  pub files : List FileObject
  pub cur_path : List ℕ

-- The globals. `space` holds the bytes of the allocatable space by address.
pub record Fs : Type 0 where
  pub superblock : Superblock
  pub inode : ℕ → Inode
  pub bitmap : ℕ → ℕ
  pub space : ℕ → ℕ
  pub space_ptr : Ptr
  pub fdts : List Fdt

-- What the kernel decides for one call: the calling process and its parent, whether `vmalloc`
-- serves the requests of the call, and what stands in memory that it returns.
pub record Env : Type 0 where
  pub pid : ℕ
  pub ppid : ℕ
  pub vmalloc : Bool
  pub fresh : ℕ → ℕ

-- `fault` is an access that C leaves undefined: through `NULL`, or outside of a region.
pub data Run (A : Type 0) : Type 0 where
  done : A → Fs → Run A
  fault : Run A

abbrev pub M : Type 0 → Type 0
M A = Fs → Run A

-- An `int` that is an index or a count, or `ERROR` (`none`).
abbrev pub Ret : Type 0
Ret = Option ℕ

abbrev pub pure : {A : Type 0} → A → M A
pure a s = done a s

abbrev pub crash : {A : Type 0} → M A
crash s = fault

module _ {A B : Type 0} where
  abbrev pub and_then : Run A → (A → M B) → Run B
  and_then (done a s) k = k a s
  and_then fault k = fault

  infixl 5 ◌>>=◌ ◌>>◌
  abbrev pub ◌>>=◌ : M A → (A → M B) → M B
  ◌>>=◌ m k s = and_then (m s) k

  abbrev pub ◌>>◌ : M A → M B → M B
  m >> k = m >>= λ _. k

abbrev pub get : M Fs
get s = done s s

abbrev pub modify : (Fs → Fs) → M (Unit {0})
modify f s = done tt (f s)

-- `&inode_ptr[i]`, read and written.
unfoldable pub get_inode : ℕ → M Inode
get_inode i s = if ltb i inode_list_num then done (s.inode i) s else fault

unfoldable pub put_inode : ℕ → Inode → M (Unit {0})
put_inode i n s =
    if ltb i inode_list_num then done tt (record s { inode = update s.inode i n }) else fault

abbrev pub in_space : Fs → Ptr → Bool
in_space s a = leb s.space_ptr a && ltb a (s.space_ptr + allocatable_space_size * block_size)

-- A pointer moved by an `int`, in 32 bits.
abbrev pub add_ptr : Ptr → ℤ → Ptr
add_ptr p (pos n) = (p + n) % 2 ^ 32
add_ptr p (negsuc n) = (p + (2 ^ 32 - suc n)) % 2 ^ 32

unfoldable pub load8 : Ptr → M ℕ
load8 a s = if in_space s a then done (s.space a) s else fault

unfoldable pub store8 : Ptr → ℕ → M (Unit {0})
store8 a v s = if in_space s a then done tt (record s { space = update s.space a v }) else fault

-- A `uint32_t` or a pointer in memory, least byte first.
unfoldable pub word_at : (ℕ → ℕ) → Ptr → ℕ
word_at m a = m a + 256 * m (a + 1) + 65536 * m (a + 2) + 16777216 * m (a + 3)

unfoldable pub put_word : (ℕ → ℕ) → Ptr → ℕ → ℕ → ℕ
put_word m a v =
    update
      (update (update (update m a (v % 256)) (a + 1) (v / 256 % 256)) (a + 2) (v / 65536 % 256))
      (a + 3) (v / 16777216 % 256)

unfoldable pub load32 : Ptr → M ℕ
load32 a s = if in_space s a && in_space s (a + 3) then done (word_at s.space a) s else fault

unfoldable pub store32 : Ptr → ℕ → M (Unit {0})
store32 a v s =
    if in_space s a && in_space s (a + 3)
    then done tt (record s { space = put_word s.space a v })
    else fault

-- `memset(p, 0, n)`
unfoldable pub clear : Ptr → ℕ → M (Unit {0})
clear p n s =
    if in_space s p && in_space s (p + n - 1)
    then done tt (record s { space = λ a. if leb p a && ltb a (p + n) then 0 else s.space a })
    else fault
