-- ===== src/Ramdisk/Inodes/Theorems.antt =====
-- The calls `allocate_inode` and `free_inode`'s release against the invariant of the counters.
use cs552operating_system.Base.{
  ℕ, ◌+◌, ◌<◌, ◌≡◌, ◌≢◌, refl, some, arith, ltb, ◌==◌, if◌then◌else◌, ℤ,
}
use cs552operating_system.Ramdisk.Store.{Kind, Fs, done, ◌>>◌, inode_list_num}
use cs552operating_system.Ramdisk.Inodes.{allocate_inode, release_inode, new_inode}
use cs552operating_system.Ramdisk.Inodes.Invariant.{
  IsCounted, allocated, allocate_inode-allocated, allocated-IsCounted, released,
  release_inode-released, released-IsCounted, few_free, some_free, first_free-lt,
}

-- `allocate_inode`, with a free inode left, succeeds and keeps the counters exact; the new inode is
-- the one that was first free, its fields are those of an empty file of the given type, mode and
-- parent, and every other inode is unchanged.
pub allocate_inode-IsCounted :
    (parent : ℕ) (mode : ℤ) (kind : Kind) (s : Fs)
    → IsCounted s
    → s.superblock.first_free_inode < inode_list_num
    → (s' : Fs) × (allocate_inode parent mode kind s ≡ done (some 0) s')
      × IsCounted s'
      × ((i : ℕ)
          → s'.inode i ≡ (
              if i == s.superblock.first_free_inode
              then new_inode (s.inode s.superblock.first_free_inode) parent mode kind
              else s.inode i))
allocate_inode-IsCounted parent mode kind s c h = (
  allocated parent mode kind s,
  allocate_inode-allocated parent mode kind s h,
  allocated-IsCounted parent mode kind s c h,
  λ i. unfold allocated in refl,
)

-- The release at the end of `free_inode`, of an inode in use, succeeds and keeps the counters exact:
-- one more free inode, and the first free one is the smaller of the old one and the released one.
pub release_inode-IsCounted :
    (i : ℕ) (s : Fs)
    → IsCounted s
    → i < inode_list_num
    → (s.inode i).operation ≢ 0
    → (s' : Fs) × (release_inode i s ≡ done (some 0) s')
      × IsCounted s'
      × (s'.superblock.free_inode_number ≡ s.superblock.free_inode_number + 1)
      × (s'.superblock.first_free_inode
          ≡ (if ltb i s.superblock.first_free_inode then i else s.superblock.first_free_inode))
release_inode-IsCounted i s c h used = (
  released i s,
  release_inode-released i s h,
  released-IsCounted i s c h used,
  unfold released in omega (arith, few_free c),
  unfold released in ground (arith, c.bound),
)

-- Releasing the inode that `allocate_inode` has just taken gives back the superblock as it was.
release-allocate_inode :
    (parent : ℕ) (mode : ℤ) (kind : Kind) (s : Fs)
    → IsCounted s
    → s.superblock.first_free_inode < inode_list_num
    → (s' : Fs) × ((allocate_inode parent mode kind >> release_inode s.superblock.first_free_inode)
          s
        ≡ done (some 0) s')
      × (s'.superblock ≡ s.superblock)
release-allocate_inode parent mode kind s c h =
    let i = s.superblock.first_free_inode in
    let s' = allocated parent mode kind s in
    (
      released i s',
      rw (allocate_inode-allocated parent mode kind s h) (release_inode-released i s' h),
      unfold allocated released in
          ground (arith, first_free-lt parent mode kind s h, few_free c, some_free c h),
    )
