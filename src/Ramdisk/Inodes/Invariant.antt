-- ===== src/Ramdisk/Inodes/Invariant.antt =====
-- The counters of the superblock agree with the inode list, before and after each change.
use cs552operating_system.Base.{
  update, ℕ, zero, suc, ◌+◌, ◌-◌, ◌%◌, ◌^◌, ◌≤◌, ◌<◌, ◌≡◌, ◌≢◌, refl, false, some, arith, ltb, ◌==◌,
  if◌then◌else◌, inl, inr, Bool-cases, ==→eq, ℤ,
}
use cs552operating_system.Ramdisk.Store.{Inode, Kind, Fs, done, inode_list_num}
use cs552operating_system.Ramdisk.Store.Laws.{get_inode_lem, put_inode_lem}
use cs552operating_system.Ramdisk.Inodes.{
  next_free, new_inode, take_inode, allocate_inode, reset_inode, give_inode, release_inode,
}

-- How many of the inodes below `n` have no operation, which makes them free.
unfoldable pub free_below : (ℕ → Inode) → ℕ → ℕ
free_below inodes zero = 0
free_below inodes (suc n) = free_below inodes n + (if (inodes n).operation == 0 then 1 else 0)

pub record IsCounted (s : Fs) : Type 0 where
  pub bound : s.superblock.first_free_inode ≤ inode_list_num
  pub lowest : (i : ℕ) → i < s.superblock.first_free_inode → (s.inode i).operation ≢ 0
  pub free :
      s.superblock.first_free_inode < inode_list_num
      → (s.inode s.superblock.first_free_inode).operation ≡ 0
  pub count : s.superblock.free_inode_number ≡ free_below s.inode inode_list_num

record Next (inodes : ℕ → Inode) (k i r : ℕ) : Type 0 where
  above : i ≤ r
  below : r ≤ i + k
  skipped : (j : ℕ) → i ≤ j → j < r → (inodes j).operation ≢ 0
  found : r < i + k → (inodes r).operation ≡ 0

next_free-Next : (k : ℕ) (inodes : ℕ → Inode) (i : ℕ) → Next inodes k i (next_free k inodes i)
unfolding next_free
next_free-Next zero inodes i = record {
  above = omega arith;
  below = omega arith;
  skipped = λ j p q. absurd (omega arith);
  found = λ h. absurd (omega arith);
}
next_free-Next (suc k) inodes i = elim (Bool-cases ((inodes i).operation == 0)) [
  | inl hit ↦ rw hit (record {
    above = omega arith;
    below = omega arith;
    skipped = λ j p q. absurd (omega arith);
    found = λ h. ==→eq _ _ hit;
  })
  | inr miss ↦ rw miss (later miss (next_free-Next k inodes (i + 1)))
]
  where
    later :
        ((inodes i).operation == 0) ≡ false
        → Next inodes k (i + 1) (next_free k inodes (i + 1))
        → Next inodes (suc k) i (next_free k inodes (i + 1))
    later miss n = record {
      above = omega (arith, n.above);
      below = omega (arith, n.below);
      skipped = λ j p q. elim (Bool-cases (j == i)) [
        | inl same ↦ rw (==→eq j i same) (ground arith)
        | inr other ↦ n.skipped j (ground arith) q
      ];
      found = λ h. n.found (omega arith);
    }

-- Changing one inode changes the count by that inode alone.
free_below-update :
    (inodes : ℕ → Inode) (i : ℕ) (x : Inode) (n : ℕ)
    → free_below (update inodes i x) n
        + (if ltb i n then (if (inodes i).operation == 0 then 1 else 0) else 0)
      ≡ free_below inodes n + (if ltb i n then (if x.operation == 0 then 1 else 0) else 0)
unfolding free_below
free_below-update inodes i x zero = ground arith
free_below-update inodes i x (suc n) = ground (arith, free_below-update inodes i x n)

module _ (inodes : ℕ → Inode) {i : ℕ} (x : Inode) (n : ℕ) (inside : i < n) where
  free_below-take :
      (inodes i).operation ≡ 0
      → x.operation ≢ 0
      → free_below (update inodes i x) n + 1 ≡ free_below inodes n
  free_below-take old new = ground (arith, free_below-update inodes i x n)

  free_below-give :
      (inodes i).operation ≢ 0
      → x.operation ≡ 0
      → free_below (update inodes i x) n ≡ free_below inodes n + 1
  free_below-give old new = ground (arith, free_below-update inodes i x n)

free_below-le : (inodes : ℕ → Inode) (n : ℕ) → free_below inodes n ≤ n
unfolding free_below
free_below-le inodes zero = omega arith
free_below-le inodes (suc n) = ground (arith, free_below-le inodes n)

-- The state behind a successful `allocate_inode`.
unfoldable pub allocated : ℕ → ℤ → Kind → Fs → Fs
unfolding new_inode take_inode
allocated parent mode kind s =
    let i = s.superblock.first_free_inode in
    take_inode (record s { inode = update s.inode i (new_inode (s.inode i) parent mode kind) })

pub allocate_inode-allocated :
    (parent : ℕ) (mode : ℤ) (kind : Kind) (s : Fs)
    → s.superblock.first_free_inode < inode_list_num
    → allocate_inode parent mode kind s ≡ done (some 0) (allocated parent mode kind s)
unfolding allocate_inode allocated
allocate_inode-allocated parent mode kind s h = rw (get_inode_lem s h) (rw (put_inode_lem _ s h))

pub allocated-IsCounted :
    (parent : ℕ) (mode : ℤ) (kind : Kind) (s : Fs)
    → IsCounted s
    → s.superblock.first_free_inode < inode_list_num
    → IsCounted (allocated parent mode kind s)
unfolding allocated
allocated-IsCounted parent mode kind s c h =
    let i = s.superblock.first_free_inode in
    let x = new_inode (s.inode i) parent mode kind in
    let next = next_free (inode_list_num - (i + 1)) (update s.inode i x) (i + 1) in
    let r = next_free-Next (inode_list_num - (i + 1)) (update s.inode i x) (i + 1) in
    let small = free_below-le s.inode inode_list_num in
    let moved = free_below-take s.inode x inode_list_num h (c.free h) (omega arith) in
    let exact : next % 2 ^ 16 ≡ next = omega (arith, r.below) in
    record {
      bound = omega (arith, r.below);
      lowest = λ j p. elim (Bool-cases (ltb i j)) [
        | inl above ↦ r.skipped j (ground arith) (ground (arith, r.below))
        | inr below ↦ ground (arith, c.lowest j)
      ];
      free = λ p. rw exact (r.found (omega arith));
      count = omega (arith, moved, small, c.count);
    }

-- The state behind a successful `release_inode`.
unfoldable pub released : ℕ → Fs → Fs
unfolding reset_inode give_inode
released i s = give_inode i (record s { inode = update s.inode i (reset_inode (s.inode i)) })

pub release_inode-released :
    (i : ℕ) (s : Fs) → i < inode_list_num → release_inode i s ≡ done (some 0) (released i s)
unfolding release_inode released
release_inode-released i s h = rw (get_inode_lem s h) (rw (put_inode_lem _ s h))

pub released-IsCounted :
    (i : ℕ) (s : Fs)
    → IsCounted s
    → i < inode_list_num
    → (s.inode i).operation ≢ 0
    → IsCounted (released i s)
unfolding released
released-IsCounted i s c h used =
    let x = reset_inode (s.inode i) in
    let moved = free_below-give s.inode x inode_list_num h used refl in
    let small = free_below-le (update s.inode i x) inode_list_num in
    record {
      bound = ground (arith, c.bound);
      lowest = λ j p. ground (arith, c.lowest j);
      free = λ p. ground (arith, c.free);
      count = omega (arith, moved, small, c.count);
    }

pub few_free : {s : Fs} → IsCounted s → s.superblock.free_inode_number ≤ inode_list_num
few_free {s} c = omega (arith, c.count, free_below-le s.inode inode_list_num)

pub some_free :
    {s : Fs}
    → IsCounted s
    → s.superblock.first_free_inode < inode_list_num
    → 0 < s.superblock.free_inode_number
some_free {s} c h =
    let x = reset_inode (s.inode 0) in
    omega (
      arith,
      c.count,
      free_below-take s.inode (new_inode x 0 (ℤ.pos 0) (x.kind)) inode_list_num h (c.free h)
          (unfold new_inode in omega arith),
    )

pub first_free-lt :
    (parent : ℕ) (mode : ℤ) (kind : Kind) (s : Fs)
    → s.superblock.first_free_inode < inode_list_num
    → s.superblock.first_free_inode < (allocated parent mode kind s).superblock.first_free_inode
unfolding allocated
first_free-lt parent mode kind s h =
    let i = s.superblock.first_free_inode in
    let x = new_inode (s.inode i) parent mode kind in
    let r = next_free-Next (inode_list_num - (i + 1)) (update s.inode i x) (i + 1) in
    omega (arith, r.above, r.below)
