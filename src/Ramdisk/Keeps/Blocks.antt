-- ===== src/Ramdisk/Keeps/Blocks.antt =====
-- module/support_function.h: the accesses to the store, `allocate_block` and `free_block` keep every
-- stable predicate.
use cs552operating_system.Base.{
  ℕ, zero, suc, ◌+◌, ◌-◌, ◌/◌, ◌≡◌, refl, Bool-cases, ltb, inl, inr, ℤ, pos, negsuc, arith, ◌&&◌,
  not,
}
use cs552operating_system.Ramdisk.Store.{
  Inode, Fs, Ptr, get_inode, put_inode, load8, store8, load32, store32, clear, inode_list_num,
  in_space, bitmap_sublock, block_size, ◌>>=◌, ◌>>◌, pure,
}
use cs552operating_system.Ramdisk.Bitmap.{allocate_bitmap, free_bitmap}
use cs552operating_system.Ramdisk.Blocks.{
  take_block, set_location, extend_single, extend_double, extend, set_last_block, allocate_block,
  drop_block, free_direct, free_slots, free_double, free_block,
}
use cs552operating_system.Ramdisk.Keeps.{
  Ends, ended, broke, Ends-if, Keeps, Keeps-pure, Keeps-crash, Keeps-bind, IsStable, keeps_rules,
}

module _ {P : Fs → Type 0} where
  pub get_inode-Keeps : (i : ℕ) → Keeps P (get_inode i)
  unfolding get_inode
  get_inode-Keeps i = record {
    at = λ s h. Ends-if (ltb i inode_list_num) (λ _. ended _ s h) (λ _. broke);
  }

  pub load8-Keeps : (a : Ptr) → Keeps P (load8 a)
  unfolding load8
  load8-Keeps a = record { at = λ s h. Ends-if (in_space s a) (λ _. ended _ s h) (λ _. broke) }

  pub load32-Keeps : (a : Ptr) → Keeps P (load32 a)
  unfolding load32
  load32-Keeps a = record {
    at = λ s h. Ends-if (in_space s a && in_space s (a + 3)) (λ _. ended _ s h) (λ _. broke);
  }

pub ruleset read_rules = (keeps_rules, get_inode-Keeps, load8-Keeps, load32-Keeps)

module _ {P : Fs → Type 0} (stable : IsStable P) where
  pub store8-Keeps : (a : Ptr) (v : ℕ) → Keeps P (store8 a v)
  unfolding store8
  store8-Keeps a v = record {
    at = λ s h. Ends-if (in_space s a) (λ _. ended tt _ (stable.space s _ h)) (λ _. broke);
  }

  pub store32-Keeps : (a : Ptr) (v : ℕ) → Keeps P (store32 a v)
  unfolding store32
  store32-Keeps a v = record {
    at = λ s h.
        Ends-if (in_space s a && in_space s (a + 3)) (λ _. ended tt _ (stable.space s _ h))
          (λ _. broke);
  }

  pub clear-Keeps : (p : Ptr) (n : ℕ) → Keeps P (clear p n)
  unfolding clear
  clear-Keeps p n = record {
    at = λ s h.
        Ends-if (in_space s p && in_space s (p + n - 1)) (λ _. ended tt _ (stable.space s _ h))
          (λ _. broke);
  }

  free_bitmap-Keeps : (p : Ptr) → Keeps P (free_bitmap p)
  unfolding free_bitmap
  free_bitmap-Keeps p = record {
    at = λ s h.
        let b = (p - s.space_ptr) / block_size in
        Ends-if (not (ltb p s.space_ptr) && ltb (b / 8) bitmap_sublock)
          (λ e. ended _ _ (stable.unmark s b (ground (arith, e)) h)) (λ _. broke);
  }

  -- An inode read and written back with the same operation.
  pub change_then-Keeps :
      {A : Type 0} (i : ℕ) (f : Inode → Inode) (r : A)
      → ((n : Inode) → (f n).operation ≡ n.operation)
      → Keeps P (get_inode i >>= λ n. put_inode i (f n) >> pure r)
  unfolding get_inode put_inode
  change_then-Keeps i f r same = record {
    at = λ s h. elim (Bool-cases (ltb i inode_list_num)) [
      | inl e ↦ rw (e, e) (ended r _ (stable.inode s i (f (s.inode i)) (same (s.inode i)) h))
      | inr e ↦ rw e broke
    ];
  }

  pub change-Keeps :
      (i : ℕ) (f : Inode → Inode)
      → ((n : Inode) → (f n).operation ≡ n.operation)
      → Keeps P (get_inode i >>= λ n. put_inode i (f n))
  unfolding get_inode put_inode
  change-Keeps i f same = record {
    at = λ s h. elim (Bool-cases (ltb i inode_list_num)) [
      | inl e ↦ rw (e, e) (ended tt _ (stable.inode s i (f (s.inode i)) (same (s.inode i)) h))
      | inr e ↦ rw e broke
    ];
  }

  take_block-Keeps : Keeps P take_block
  unfolding take_block allocate_bitmap
  take_block-Keeps = record {
    at = λ s h. elim (Bool-cases (ltb (s.superblock.first_free_block / 8) bitmap_sublock)) [
      | inl e ↦ rw e (ended _ _ (stable.mark s (ground (arith, e)) h))
      | inr e ↦ rw e broke
    ];
  }

  set_location-Keeps : (i k : ℕ) (p : Ptr) → Keeps P (set_location i k p)
  unfolding set_location
  set_location-Keeps i k p = change-Keeps i _ (λ n. refl)

  set_last_block-Keeps : (i : ℕ) (k : ℤ) → Keeps P (set_last_block i k)
  unfolding set_last_block
  set_last_block-Keeps i k = change-Keeps i _ (λ n. refl)

  extend_single-Keeps : (i k : ℕ) (p : Ptr) → Keeps P (extend_single i k p)
  unfolding extend_single
  extend_single-Keeps i k p =
      search (read_rules, set_location-Keeps, take_block-Keeps, store32-Keeps) depth 12

  extend_double-Keeps : (i k : ℕ) (p : Ptr) → Keeps P (extend_double i k p)
  unfolding extend_double
  extend_double-Keeps i k p =
      search (read_rules, set_location-Keeps, take_block-Keeps, store32-Keeps) depth 12

  extend-Keeps : (i : ℕ) (k : ℤ) (p : Ptr) → Keeps P (extend i k p)
  unfolding extend
  extend-Keeps i (negsuc k) p = Keeps-crash
  extend-Keeps i (pos k) p =
      search (read_rules, set_location-Keeps, extend_single-Keeps, extend_double-Keeps)

  pub allocate_block-Keeps : (i : ℕ) → Keeps P (allocate_block i)
  unfolding allocate_block
  allocate_block-Keeps i =
      search (read_rules, take_block-Keeps, set_last_block-Keeps, extend-Keeps) depth 12

  drop_block-Keeps : (p : Ptr) → Keeps P (drop_block p)
  unfolding drop_block
  drop_block-Keeps p = search (read_rules, clear-Keeps, free_bitmap-Keeps) depth 12

  free_direct-Keeps : (k : ℕ) (location : ℕ → Ptr) (i : ℕ) → Keeps P (free_direct k location i)
  unfolding free_direct
  free_direct-Keeps zero location i = Keeps-pure tt
  free_direct-Keeps (suc k) location i =
      search (read_rules, drop_block-Keeps, free_direct-Keeps k) depth 12

  free_slots-Keeps : (k : ℕ) (single : Ptr) (i : ℕ) → Keeps P (free_slots k single i)
  unfolding free_slots
  free_slots-Keeps zero single i = Keeps-pure tt
  free_slots-Keeps (suc k) single i =
      search (read_rules, drop_block-Keeps, free_slots-Keeps k) depth 12

  free_double-Keeps : (k : ℕ) (double : Ptr) (i : ℕ) → Keeps P (free_double k double i)
  unfolding free_double
  free_double-Keeps zero double i = Keeps-pure tt
  free_double-Keeps (suc k) double i =
      search (read_rules, free_slots-Keeps, free_double-Keeps k) depth 12

  pub free_block-Keeps : (i : ℕ) → Keeps P (free_block i)
  unfolding free_block
  free_block-Keeps i =
      search (read_rules, free_direct-Keeps, free_slots-Keeps, free_double-Keeps) depth 16
