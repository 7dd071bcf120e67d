-- ===== src/Ramdisk/Reach/Marked.antt =====
-- The bitmap and the first free block, after any sequence of commands.
use cs552operating_system.Base.{
  ℕ, ◌+◌, ◌≤◌, ◌<◌, ◌≡◌, ◌⊎◌, refl, arith, ltb, inl, inr, Bool-cases, ℤ,
}
use cs552operating_system.Ramdisk.Store.{
  Kind, Ptr, Fs, done, get_inode, put_inode, inode_list_num, allocatable_space_size, block_size,
}
use cs552operating_system.Ramdisk.Init.{initial, space_start}
use cs552operating_system.Ramdisk.Init.Layout.{initial-IsBytes}
use cs552operating_system.Ramdisk.Bitmap.{mark_block, unmark_block}
use cs552operating_system.Ramdisk.Bitmap.Allocate.{
  marked, IsBytes, marked-mark_block, mark_block-IsBytes, first_free-mark_block,
  marked-unmark_block-le, unmark_block-IsBytes,
}
use cs552operating_system.Ramdisk.Blocks.{take_block}
use cs552operating_system.Ramdisk.Blocks.Allocate.{take_block_lem, block_address}
use cs552operating_system.Ramdisk.Inodes.{allocate_inode, take_inode, release_inode, give_inode}
use cs552operating_system.Ramdisk.Keeps.{Ends, ended, broke, Keeps, IsStable, Unit-IsStable}
use cs552operating_system.Ramdisk.Reach.{Any, Reach, Reach-anything, Reach-keeps}

-- From state `s`: no block has become free, and the first free block is no later.
pub record IsWorn (s t : Fs) : Type 0 where
  pub bytes : IsBytes t.bitmap
  pub stays : (b : ℕ) → marked s b ≤ marked t b
  pub first : t.superblock.first_free_block ≤ s.superblock.first_free_block
  pub place : t.space_ptr ≡ s.space_ptr

marked-le : (s : Fs) (b : ℕ) → marked s b ≤ 1
marked-le s b = omega arith

first_free-unmark_block :
    (b : ℕ) (s : Fs)
    → (unmark_block b s).superblock.first_free_block ≤ s.superblock.first_free_block
unfolding unmark_block
first_free-unmark_block b s = ground arith

module _ (s : Fs) (inside : s.superblock.first_free_block < allocatable_space_size) where
  mark-IsWorn : (t : Fs) → IsWorn s t → IsWorn s (mark_block t.superblock.first_free_block t)
  mark-IsWorn t w =
      let b = t.superblock.first_free_block in
      record {
        bytes = mark_block-IsBytes b t w.bytes;
        stays = λ c. ground (arith, marked-mark_block b c t w.bytes, w.stays c, marked-le s c);
        first = omega (arith, first_free-mark_block b t w.bytes (omega (arith, w.first)), w.first);
        place = unfold mark_block in w.place;
      }

  unmark-IsWorn : (t : Fs) (b : ℕ) → IsWorn s t → IsWorn s (unmark_block b t)
  unmark-IsWorn t b w = record {
    bytes = unmark_block-IsBytes b t w.bytes;
    stays = λ c. omega (arith, marked-unmark_block-le b c t w.bytes, w.stays c);
    first = omega (arith, first_free-unmark_block b t, w.first);
    place = unfold unmark_block in w.place;
  }

  IsWorn-IsStable : IsStable (IsWorn s)
  IsWorn-IsStable = record {
    space = λ t m w. record { bytes = w.bytes; stays = w.stays; first = w.first; place = w.place };
    fdts = λ t l w. record { bytes = w.bytes; stays = w.stays; first = w.first; place = w.place };
    inode =
        λ t i n e w. record { bytes = w.bytes; stays = w.stays; first = w.first; place = w.place };
    mark = λ t h w. mark-IsWorn t w;
    unmark = λ t b h w. unmark-IsWorn t b w;
  }

  allocate_inode-IsWorn :
      (parent : ℕ) (mode : ℤ) (kind : Kind) → Keeps (IsWorn s) (allocate_inode parent mode kind)
  unfolding allocate_inode take_inode get_inode put_inode
  allocate_inode-IsWorn parent mode kind = record {
    at = λ t w. elim (Bool-cases (ltb t.superblock.first_free_inode inode_list_num)) [
      | inl e ↦
          rw (e, e)
            (ended _ _
              (record { bytes = w.bytes; stays = w.stays; first = w.first; place = w.place }))
      | inr e ↦ rw e broke
    ];
  }

  release_inode-IsWorn :
      (j : ℕ) (t : Fs) → IsWorn s t → Unit {0} → Ends (IsWorn s) (release_inode j t)
  unfolding release_inode give_inode get_inode put_inode
  release_inode-IsWorn j t w u = elim (Bool-cases (ltb j inode_list_num)) [
    | inl e ↦
        rw (e, e)
          (ended _ _
            (record { bytes = w.bytes; stays = w.stays; first = w.first; place = w.place }))
    | inr e ↦ rw e broke
  ]

-- After any sequence of commands of any processes, none of which faults, as a write in front of the space
-- does in the state, where in memory it changes the bitmap: from a state with bytes in the bitmap and a first
-- free block in the space, every block that was in use is still in use, the first free block is no
-- later than it was, the bitmap holds bytes, and the space lies where it lay.
pub Reach-IsWorn :
    (s t : Fs)
    → IsBytes s.bitmap
    → s.superblock.first_free_block < allocatable_space_size
    → Reach Any s t
    → IsWorn s t
Reach-IsWorn s t bytes inside r =
    Reach-keeps (IsWorn-IsStable s inside) (allocate_inode-IsWorn s inside) (λ j. Unit-IsStable)
      (release_inode-IsWorn s inside)
      (record { bytes = bytes; stays = λ b. omega arith; first = omega arith; place = refl })
      (Reach-anything r)

-- After any sequence of commands of any processes that starts from a new ramdisk, the next block that
-- is taken, for whatever file, is one of the first two blocks of the space.
pub take_block-Reach :
    (ramdisk : Ptr) (before t : Fs)
    → Reach Any (initial ramdisk before) t
    → (p : Ptr) × (t' : Fs) × (take_block t ≡ done p t')
      × ((p ≡ space_start ramdisk) ⊎ (p ≡ space_start ramdisk + block_size))
unfolding initial
take_block-Reach ramdisk before t r =
    let w =
      Reach-IsWorn (initial ramdisk before) t (initial-IsBytes ramdisk before) (omega arith) r in
    let b = t.superblock.first_free_block in
    (
      block_address t b,
      mark_block b t,
      take_block_lem t (omega (arith, w.first)),
      ground (arith, w.first, w.place),
    )
