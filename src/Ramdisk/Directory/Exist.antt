-- ===== src/Ramdisk/Directory/Exist.antt =====
-- module/support_function.h: `isExist` finds exactly the entries of the folder.
use cs552operating_system.Base.{
  ℕ, zero, suc, ◌+◌, ◌*◌, ◌^◌, ◌≤◌, ◌<◌, ◌≡◌, refl, ap, ◌∙◌, false, ◌⊎◌, none, List, [], ◌∷◌,
  length, length-append, arith, ltb, ◌==◌, inl, inr, Bool-cases, Option-cases, ==→eq, ℤ,
}
use cs552operating_system.Ramdisk.Store.{Fs, Ptr, null, pure, done, inode_list_num}
use cs552operating_system.Ramdisk.Store.Laws.{get_inode_lem}
use cs552operating_system.Ramdisk.Directory.{search, child_count, exist_single, is_exist}
use cs552operating_system.Ramdisk.Directory.Listing.{
  NoZero, Entry, BlocksAt, lookup, place, left_over, all_entries, outcome, search_block-lookup,
  outcome-found, outcome-missed,
}

search-lookup :
    (k i : ℕ) (bs : List (List Entry)) (location : ℕ → Ptr) (name : List ℕ) (index : ℤ) (s : Fs)
    → NoZero name
    → BlocksAt s location i bs
    → length bs ≤ k
    → search k (λ b. pure (location b)) i name (length (all_entries bs)) index s
      ≡ done (outcome name (all_entries bs) 0 index) s
unfolding search all_entries lookup place left_over
search-lookup zero i [] location name index s n a few = refl
search-lookup zero i (b ∷ bs) location name index s n a few = absurd (omega arith)
search-lookup (suc k) i [] location name index s n a few = refl
search-lookup (suc k) i (b ∷ bs) location name index s n a few =
    let r = all_entries bs in
    let (there, entries, some_entry, at_most, full, others) = a in
    let more : (length b + length r == 0) ≡ false = ground arith in
    let block : (location i == null) ≡ false = ground arith in
    let behind : (length b ≡ 16) ⊎ (length r ≡ 0) = elim full [
      | inl whole ↦ inl whole
      | inr last ↦ inr (rw last refl)
    ] in
    let found =
      search_block-lookup 16 0 b (length r) (location i) name index s n entries at_most behind in
    elim (Option-cases (lookup name b)) [
      | inl h ↦
          let (same, over) = outcome-missed b r name index h in
          let left : left_over name b + length r ≡ length r = omega (arith, over) in
          rw (length-append b r, more, block, found)
            (rw (h, left)
              (search-lookup k (i + 1) bs location name (place name b index) s n others
                (omega arith)))
          ∙ ap (λ o. done o s) same
      | inr (x, h) ↦
          rw (length-append b r, more, block, found) (rw h refl)
          ∙ ap (λ o. done o s) (outcome-found b r name index x h)
    ]

all_entries_few :
    (s : Fs) (location : ℕ → Ptr) (i : ℕ) (bs : List (List Entry)) (k : ℕ)
    → BlocksAt s location i bs
    → length bs ≤ k
    → length (all_entries bs) ≤ 16 * k
unfolding all_entries
all_entries_few s location i [] k a few = omega arith
all_entries_few s location i (b ∷ bs) zero a few = absurd (omega arith)
all_entries_few s location i (b ∷ bs) (suc k) a few =
    let others = all_entries_few s location (i + 1) bs k a.5 (omega arith) in
    omega (arith, others, a.3, length-append b (all_entries bs))

child_count_lem : (size n : ℕ) → size ≡ 16 * n → n < 2 ^ 27 → child_count size ≡ n
unfolding child_count
child_count_lem size n e h = ground arith

lookup_nothing :
    (name : List ℕ) (es : List Entry) (index : ℤ)
    → length es ≡ 0
    → (lookup name es ≡ none) × (place name es index ≡ index)
unfolding lookup place
lookup_nothing name [] index h = (refl, refl)
lookup_nothing name (e ∷ es) index h = absurd (omega arith)

exist_single-ended :
    (name : List ℕ) (index : ℤ) (single double : Ptr) (s : Fs)
    → exist_single (record { answer = none; times = 0; index = index }) name single double s
      ≡ done (none, index) s
unfolding exist_single
exist_single-ended name index single double s = refl

-- `isExist`, for a name of at most 13 bytes and a folder whose entries lie in its direct blocks, block
-- by block, each block but the last full, returns the inode of the first entry with that name, and
-- `ERROR` if there is none; `*directory_index` has moved to the place of that entry, or past all of
-- them, and the state is unchanged.
pub is_exist-lookup :
    (parent : ℕ) (bs : List (List Entry)) (name : List ℕ) (index : ℤ) (s : Fs)
    → parent < inode_list_num
    → (s.inode parent).size ≡ 16 * length (all_entries bs)
    → BlocksAt s (s.inode parent).location 0 bs
    → length bs ≤ 8
    → NoZero name
    → length name ≤ 13
    → is_exist name parent index s
      ≡ done (lookup name (all_entries bs), place name (all_entries bs) index) s
unfolding is_exist
is_exist-lookup parent bs name index s hp size a few n short =
    let es = all_entries bs in
    let small : ltb 13 (length name) ≡ false = ground arith in
    let bound : length es ≤ 128 = all_entries_few s (s.inode parent).location 0 bs 8 a few in
    let count : child_count (s.inode parent).size ≡ length es =
      child_count_lem (s.inode parent).size (length es) size (omega (arith, bound)) in
    let direct = search-lookup 8 0 bs (s.inode parent).location name index s n a few in
    elim (Bool-cases (length es == 0)) [
      | inl empty ↦
          let (no_entry, stays) = lookup_nothing name es index (==→eq _ _ empty) in
          rw (small, get_inode_lem s hp, count) (rw (empty, no_entry, stays) refl)
      | inr some_entry ↦
          rw (small, get_inode_lem s hp, count)
            (rw (some_entry, direct)
              (elim (Option-cases (lookup name es)) [
                | inl h ↦
                    let over : left_over name es + 0 ≡ 0 =
                      omega (arith, (outcome-missed es [] name index h).1) in
                    rw (h, over) (exist_single-ended name (place name es index) _ _ s)
                | inr (x, h) ↦ rw h refl
              ]))
    ]
