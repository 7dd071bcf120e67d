-- ===== src/Ramdisk/Directory.antt =====
-- module/support_function.h: `isExist`, `search`, `free_parent_directory_entry` and `free_inode`, over
-- the entries of 16 bytes (14 of name, 2 of inode index) in the blocks of a directory.
pub mod Listing
pub mod Exist
pub mod Small
use cs552operating_system.Base.{
  ℕ, zero, suc, ◌+◌, ◌-◌, ◌*◌, ◌/◌, ◌^◌, ◌%◌, Bool, false, none, some, List, [], ◌∷◌, ltb, ◌==◌,
  if◌then◌else◌, length, ℤ, pos, negsuc, ◌+ℤ◌, ◌-ℤ◌, ◌==ℤ◌, c_div, c_mod, mul_ℕ,
}
use cs552operating_system.Ramdisk.Store.{
  Ptr, null, M, ◌>>=◌, ◌>>◌, Ret, pure, crash, get_inode, put_inode, load8, store8, load32,
}
use cs552operating_system.Ramdisk.Address.{switch_address}
use cs552operating_system.Ramdisk.Blocks.{free_block}
use cs552operating_system.Ramdisk.Inodes.{release_inode}

-- `strcmp(p, name) == 0`, for the text at an address.
unfoldable pub text_is : List ℕ → Ptr → M Bool
text_is [] p = do b ← load8 p; pure (b == 0)
text_is (c ∷ cs) p = do b ← load8 p; if b == c then text_is cs (p + 1) else pure false

-- `entry->inode_index`
unfoldable pub entry_inode : Ptr → M ℕ
entry_inode p = do low ← load8 (p + 14); high ← load8 (p + 15); pure (low + 256 * high)

-- What a search returns, with the values of `*times` and `*directory_index` behind it.
pub record Search : Type 0 where
  pub answer : Ret
  pub times : ℕ
  pub index : ℤ

-- The entries of one block from entry `j`, with the rounds left.
unfoldable pub search_block : ℕ → Ptr → ℕ → List ℕ → ℕ → ℤ → M Search
unfolding text_is entry_inode
search_block zero block j filename times index =
    pure (record { answer = none; times = times; index = index })
search_block (suc k) block j filename times index =
    if times == 0 then pure (record { answer = none; times = times; index = index }) else (do
      same ← text_is filename (block + 16 * j)
      if same
          then (do
            found ← entry_inode (block + 16 * j)
            pure (record { answer = some found; times = times; index = index +ℤ pos 1 }))
          else search_block k block (j + 1) filename (times - 1) (index +ℤ pos 1))

-- `search`: the blocks of `location[]` from slot `i`, with the rounds left.
unfoldable pub search : ℕ → (ℕ → M Ptr) → ℕ → List ℕ → ℕ → ℤ → M Search
search zero location i filename times index =
    pure (record { answer = none; times = times; index = index })
search (suc k) location i filename times index =
    if times == 0 then pure (record { answer = none; times = times; index = index }) else (do
      block ← location i
      if block == null then pure (record { answer = none; times = times; index = index }) else (do
        r ← search_block 16 block 0 filename times index
        elim r.answer [
          | some found ↦ pure r
          | none ↦ search k location (i + 1) filename r.times r.index
        ]))

abbrev pub slots : Ptr → ℕ → M Ptr
slots block i = load32 (block + 4 * i)

-- The single-indirect blocks behind the double-indirect pointer, from slot `i`.
unfoldable pub search_double : ℕ → Ptr → ℕ → List ℕ → ℕ → ℤ → M Search
search_double zero double i filename times index =
    pure (record { answer = none; times = times; index = index })
search_double (suc k) double i filename times index = do
  single ← load32 (double + 4 * i)
  if single == null then pure (record { answer = none; times = times; index = index }) else (do
    r ← search 64 (slots single) 0 filename times index
    elim r.answer [
      | some found ↦ pure r
      | none ↦
          if r.times == 0 then pure r else search_double k double (i + 1) filename r.times r.index
    ])

-- `parent_size / 16`, where the size is read as an `int`.
unfoldable pub child_count : ℕ → ℕ
child_count size = if ltb size (2 ^ 31) then size / 16 else 0

-- `isExist` at the double-indirect pointer, after a search that found nothing.
unfoldable pub exist_double : Search → List ℕ → Ptr → M (Ret × ℤ)
exist_double r filename double =
    if r.times == 0
    then pure (none, r.index)
    else if double == null
    then pure (none, r.index)
    else (do r' ← search_double 64 double 0 filename r.times r.index; pure (r'.answer, r'.index))

-- `isExist` at the single-indirect pointer.
unfoldable pub exist_single : Search → List ℕ → Ptr → Ptr → M (Ret × ℤ)
exist_single r filename single double =
    if r.times == 0
    then pure (none, r.index)
    else if single == null
    then pure (none, r.index)
    else (do
      r' ← search 64 (slots single) 0 filename r.times r.index
      elim r'.answer [
        | some found ↦ pure (r'.answer, r'.index)
        | none ↦ exist_double r' filename double
      ])

-- `isExist`, with the value of `*directory_index` behind it.
unfoldable pub is_exist : List ℕ → ℕ → ℤ → M (Ret × ℤ)
is_exist filename parent_index index = if ltb 13 (length filename) then pure (none, index) else (do
  parent ← get_inode parent_index
  if child_count parent.size == 0 then pure (none, index) else (do
    direct ← search 8 (λ i. pure (parent.location i)) 0 filename (child_count parent.size) index
    elim direct.answer [
      | some found ↦ pure (direct.answer, direct.index)
      | none ↦ exist_single direct filename (parent.location 8) (parent.location 9)
    ]))

-- `strcpy` between two names of 14 bytes, with the bytes left; a name with no end runs out of its
-- array.
unfoldable pub copy_name : ℕ → Ptr → Ptr → M (Unit {0})
copy_name zero to from = crash
copy_name (suc k) to from = do
  b ← load8 from
  store8 to b
  if b == 0 then pure tt else copy_name k (to + 1) (from + 1)

-- The last entry takes the place of the one that goes.
unfoldable pub move_entry : Ptr → Ptr → M (Unit {0})
unfolding copy_name entry_inode
move_entry entry last = do
  copy_name 14 entry last
  low ← load8 (last + 14)
  high ← load8 (last + 15)
  store8 (entry + 14) low
  store8 (entry + 15) high

unfoldable pub free_parent_directory_entry : List ℕ → ℕ → M Ret
free_parent_directory_entry filename parent_inode_index = do
  (answer, index) ← is_exist filename parent_inode_index (negsuc 0)
  parent ← get_inode parent_inode_index
  let last_offset = parent.last_block_offset -ℤ pos 16
  elim answer [
    | none ↦ pure none
    | some _ ↦ do
      if last_offset ==ℤ pos 0 then pure tt else (do
        entry ← switch_address parent (c_div index 16) (mul_ℕ (c_mod index 16) 16)
        last ← switch_address parent parent.block_number last_offset
        move_entry entry last)
      parent ← get_inode parent_inode_index
      put_inode parent_inode_index (record parent {
        last_block_offset = last_offset;
        size = (parent.size + 2 ^ 32 - 16) % 2 ^ 32;
      })
      pure (some 0)
  ]

unfoldable pub free_inode : List ℕ → ℕ → M Ret
unfolding free_block free_parent_directory_entry release_inode
free_inode filename inode_index = do
  free_block inode_index
  object ← get_inode inode_index
  free_parent_directory_entry filename object.parent_index
  release_inode inode_index
