-- ===== src/Ramdisk/Calls/Data.antt =====
-- module/module_interface.h: `rd_read`, `rd_write` and `rd_lseek`, the calls on open files.
pub mod Opened
pub mod Content
pub mod Refused
use cs552operating_system.Base.{
  ℕ, zero, suc, ◌+◌, ◌-◌, ◌%◌, min, Option, none, some, List, [], ◌∷◌, ◌++◌, ltb, leb, ◌==◌,
  if◌then◌else◌, get_elem?, set, ℤ, pos, negsuc, ltb_ℤ, to_u32, to_int,
}
use cs552operating_system.Ramdisk.Store.{
  Inode, Ptr, null, FileObject, Env, M, ◌>>=◌, ◌>>◌, Ret, pure, crash, get_inode, load8, block_size,
}
use cs552operating_system.Ramdisk.Address.{get_blockpointer}
use cs552operating_system.Ramdisk.Process.{current_fdt, load_fdt, store_fdt}
use cs552operating_system.Ramdisk.File.{write_file}

-- The place of the file object that a descriptor stands for: none for 0 and past the list, and the
-- first one for a descriptor below 0.
unfoldable pub file_at : ℤ → List FileObject → Option (ℕ × FileObject)
file_at (pos zero) files = none
file_at (pos (suc fd)) files = elim (get_elem? files (suc fd)) [
  | none ↦ none
  | some f ↦ some (suc fd, f)
]
file_at (negsuc n) files = elim (get_elem? files 0) [ none ↦ none | some f ↦ some (0, f) ]

-- `memcpy` out of the space.
unfoldable pub load_bytes : ℕ → Ptr → M (List ℕ)
load_bytes zero p = pure []
load_bytes (suc n) p = do b ← load8 p; bs ← load_bytes n (p + 1); pure (b ∷ bs)

-- The loop of `rd_read`, with the rounds left and the output so far; none where a block is missing.
unfoldable pub read_loop : ℕ → Inode → ℕ → ℕ → List ℕ → M (Option (List ℕ))
read_loop zero object position read_bytes output =
    if read_bytes == 0 then pure (some output) else crash
read_loop (suc k) object position read_bytes output =
    if read_bytes == 0 then pure (some output) else (do
      p ← get_blockpointer (pos position) object
      if p == null then pure none else (do
        let remain = block_size - position % block_size
        let count = min read_bytes remain
        bs ← load_bytes count p
        read_loop k object (position + remain) (read_bytes - count) (output ++ bs)))

-- The comparisons with the size are unsigned.
unfoldable pub read_start : ℤ → ℕ → ℕ
read_start position size = if leb size (to_u32 position) then 0 else to_u32 position

unfoldable pub read_count : ℕ → ℕ → ℤ → ℕ
read_count size start num_bytes =
    if ltb (size - start) (to_u32 num_bytes) then size - start else to_u32 num_bytes

-- `rd_read` of the object that the descriptor stands for: the result, and the bytes of `output`, none
-- with `ERROR`, where the C code may have copied some, and without the 0 that it sets behind them. The
-- position of the file object stays.
unfoldable pub read_at : ℤ → Option (ℕ × FileObject) → M (Ret × List ℕ)
read_at num_bytes none = pure (none, [])
read_at num_bytes (some (_, f)) = do
  object ← get_inode f.inode_index
  if object.size == 0
      then pure (none, [])
      else if object.location 0 == null
      then pure (none, [])
      else (do
        let start = read_start f.position object.size
        let count = read_count object.size start num_bytes
        out ← read_loop count object start count []
        elim out [ none ↦ pure (none, []) | some bytes ↦ pure (some count, bytes) ])

unfoldable pub rd_read : Env → ℤ → ℤ → M (Ret × List ℕ)
rd_read env fd num_bytes = do
  i ← current_fdt env
  fdt ← load_fdt i
  read_at num_bytes (file_at fd fdt.files)

unfoldable pub set_position : ℕ → ℕ → FileObject → ℤ → M (Unit {0})
set_position i at f position = do
  fdt ← load_fdt i
  store_fdt i (record fdt { files = set fdt.files at (record f { position = position }) })

-- `rd_write` to the object that the descriptor stands for.
unfoldable pub write_at : ℕ → List ℕ → Option (ℕ × FileObject) → M Ret
write_at i input none = pure none
write_at i input (some (at, f)) = do
  (ret, position) ← write_file f.inode_index f.position input b'w'
  set_position i at f position
  pure ret

unfoldable pub rd_write : Env → ℤ → List ℕ → M Ret
rd_write env fd input = do
  i ← current_fdt env
  fdt ← load_fdt i
  write_at i input (file_at fd fdt.files)

-- `rd_lseek` of the object that the descriptor stands for.
unfoldable pub seek_at : ℕ → ℤ → Option (ℕ × FileObject) → M Ret
seek_at i position none = pure none
seek_at i position (some (at, f)) = do
  object ← get_inode f.inode_index
  let size = to_int object.size
  set_position i at f (if ltb_ℤ size position then size else position)
  pure (some 0)

unfoldable pub rd_lseek : Env → ℤ → ℤ → M Ret
rd_lseek env fd position = do
  i ← current_fdt env
  fdt ← load_fdt i
  seek_at i position (file_at fd fdt.files)
