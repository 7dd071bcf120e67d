-- ===== src/Ramdisk/Reach/Counted.antt =====
-- The counters of the inodes, after any sequence of commands.
use cs552operating_system.Base.{
  update, ℕ, zero, suc, ◌<◌, ◌≡◌, ◌≢◌, refl, ◌∙◌, sym, arith, ltb, inl, inr, Bool-cases, ℤ,
}
use cs552operating_system.Ramdisk.Store.{Inode, Kind, Ptr, Fs, get_inode, inode_list_num}
use cs552operating_system.Ramdisk.Init.{initial}
use cs552operating_system.Ramdisk.Init.Layout.{initial-IsCounted}
use cs552operating_system.Ramdisk.Bitmap.{mark_block, unmark_block}
use cs552operating_system.Ramdisk.Inodes.{allocate_inode, release_inode}
use cs552operating_system.Ramdisk.Inodes.Invariant.{
  free_below, IsCounted, allocate_inode-allocated, allocated-IsCounted, release_inode-released,
  released-IsCounted,
}
use cs552operating_system.Ramdisk.Keeps.{Ends, ended, broke, Keeps, IsStable}
use cs552operating_system.Ramdisk.Reach.{Reach, UnlinksOnly, Reach-keeps}

-- The operation of an inode stays.
same_operation :
    (inodes : ℕ → Inode) (i : ℕ) (n : Inode) (j : ℕ)
    → n.operation ≡ (inodes i).operation
    → (update inodes i n j).operation ≡ (inodes j).operation
same_operation inodes i n j e = ground arith

free_below-same :
    (inodes : ℕ → Inode) (i : ℕ) (n : Inode) (k : ℕ)
    → n.operation ≡ (inodes i).operation
    → free_below (update inodes i n) k ≡ free_below inodes k
unfolding free_below
free_below-same inodes i n zero e = refl
free_below-same inodes i n (suc k) e =
    ground (arith, free_below-same inodes i n k e, same_operation inodes i n k e)

-- Counters and operations are all that `IsCounted` is about.
IsCounted-IsStable : IsStable IsCounted
unfolding mark_block unmark_block
IsCounted-IsStable = record {
  space = λ s m c. record { bound = c.bound; lowest = c.lowest; free = c.free; count = c.count };
  fdts = λ s l c. record { bound = c.bound; lowest = c.lowest; free = c.free; count = c.count };
  inode = λ s i n e c. record {
    bound = c.bound;
    lowest = λ j h. ground (arith, c.lowest j h, same_operation s.inode i n j e);
    free =
        λ h. ground (arith, c.free h, same_operation s.inode i n s.superblock.first_free_inode e);
    count = c.count ∙ sym (free_below-same s.inode i n inode_list_num e);
  };
  mark = λ s h c. record { bound = c.bound; lowest = c.lowest; free = c.free; count = c.count };
  unmark = λ s b h c. record { bound = c.bound; lowest = c.lowest; free = c.free; count = c.count };
}

-- Inode `j` is in use.
abbrev pub InUse : ℕ → Fs → Type 0
InUse j s = (s.inode j).operation ≢ 0

InUse-IsStable : (j : ℕ) → IsStable (InUse j)
unfolding mark_block unmark_block
InUse-IsStable j = record {
  space = λ s m u. u;
  fdts = λ s l u. u;
  inode = λ s i n e u. ground (arith, same_operation s.inode i n j e);
  mark = λ s h u. u;
  unmark = λ s b h u. u;
}

allocate_inode-Keeps :
    (parent : ℕ) (mode : ℤ) (kind : Kind) → Keeps IsCounted (allocate_inode parent mode kind)
allocate_inode-Keeps parent mode kind = record {
  at = λ s c. elim (Bool-cases (ltb s.superblock.first_free_inode inode_list_num)) [
    | inl e ↦
        let h : s.superblock.first_free_inode < inode_list_num = ground arith in
        rw (allocate_inode-allocated parent mode kind s h)
          (ended _ _ (allocated-IsCounted parent mode kind s c h))
    | inr e ↦ unfold allocate_inode in unfold get_inode in rw e broke
  ];
}

release_inode-Ends : (j : ℕ) (s : Fs) → IsCounted s → InUse j s → Ends IsCounted (release_inode j s)
release_inode-Ends j s c u = elim (Bool-cases (ltb j inode_list_num)) [
  | inl e ↦
      let h : j < inode_list_num = ground arith in
      rw (release_inode-released j s h) (ended _ _ (released-IsCounted j s c h u))
  | inr e ↦ unfold release_inode in unfold get_inode in rw e broke
]

-- After any sequence of commands of any processes that starts from a new ramdisk, none of which faults,
-- the counters of the superblock are exact, if each `unlink` that finds an inode finds one in use: with
-- the inodes apart from the blocks, as they are in the state, though not in memory from the 819th on.
pub Reach-IsCounted :
    (ramdisk : Ptr) (before s : Fs)
    → Reach (UnlinksOnly InUse) (initial ramdisk before) s
    → IsCounted s
Reach-IsCounted ramdisk before s =
    Reach-keeps IsCounted-IsStable allocate_inode-Keeps InUse-IsStable release_inode-Ends
      (initial-IsCounted ramdisk before)
