-- ===== src/Ramdisk/Calls/Made.antt =====
-- module/module_interface.h: what `create` makes, in a folder whose entries lie in its first block.
use cs552operating_system.Base.{
  put_bytes, put_bytes_outside, update_self, ℕ, suc, ◌+◌, ◌-◌, ◌*◌, ◌/◌, ◌%◌, ◌≤◌, ◌<◌, ◌≡◌, ◌≢◌,
  refl, ap, ◌∙◌, Bool, true, false, some, inl, List, [], ◌∷◌, ◌++◌, length, length-append, arith,
  ◌==◌, if◌then◌else◌, ℤ, pos, to_int,
}
use cs552operating_system.Ramdisk.Store.{
  Kind, dir, reg, is_dir, Fs, Env, M, done, crash, block_size, inode_list_num,
}
use cs552operating_system.Ramdisk.Store.Laws.{get_inode_lem}
use cs552operating_system.Ramdisk.Inodes.{new_inode, take_inode}
use cs552operating_system.Ramdisk.Inodes.Invariant.{allocated, allocate_inode-allocated}
use cs552operating_system.Ramdisk.File.{grown}
use cs552operating_system.Ramdisk.File.RoundTrip.{InDirect, address, written, write_file-written}
use cs552operating_system.Ramdisk.Directory.Listing.{NoZero, Entry, EntryAt}
use cs552operating_system.Ramdisk.Directory.Small.{
  AllShort-append, IsSmall, SameBelow, EntriesAt-same, EntryAt-put_bytes,
}
use cs552operating_system.Ramdisk.Calls.{garbage, entry_bytes, add_entry}

garbage-length : (env : Env) (i n : ℕ) → length (garbage env i n) ≡ n
unfolding garbage
garbage-length env i ℕ.zero = refl
garbage-length env i (suc n) = ap suc (garbage-length env (i + 1) n)

entry_bytes-length :
    (env : Env) (name : List ℕ) (index : ℕ)
    → length name ≤ 13
    → length (entry_bytes env name index) ≡ 16
unfolding entry_bytes
entry_bytes-length env name index short =
    let ends = index % 256 ∷ index / 256 ∷ [] in
    let rest = garbage env (length name + 1) (13 - length name) in
    omega (
      arith,
      length-append name (0 ∷ (rest ++ ends)),
      length-append rest ends,
      garbage-length env (length name + 1) (13 - length name),
    )

taken_branch :
    {A : Type 0} (b : Bool) (m n : M A) (s : Fs) → b ≡ true → (if b then m else n) s ≡ m s
taken_branch true m n s h = refl
taken_branch false m n s h = cc

module _ (env : Env) (f : ℕ) (child : List ℕ) (mode : ℤ) (type : Kind) (s : Fs) (es : List Entry)
    (small : IsSmall s f es) (room : length es < 16) (short : length child ≤ 13) where
  abbrev pub new : ℕ
  new = s.superblock.first_free_inode

  abbrev pub position : ℕ
  position = 16 * length es

  abbrev pub bytes : List ℕ
  bytes = entry_bytes env child new

  abbrev pub kind : Kind
  kind = if is_dir type then dir else reg

  -- The state behind a successful `create`.
  abbrev pub made : Fs
  made = allocated f mode kind (written f position bytes s)

  here : address (s.inode f) position ≡ (s.inode f).location 0 + position
  here =
      let block : position / block_size ≡ 0 = omega (arith, room) in
      let rest : position % block_size ≡ position = omega (arith, room) in rw (block, rest) refl

  fits : InDirect s (s.inode f) position (length bytes)
  fits =
      let block : position / block_size ≡ 0 = omega (arith, room) in
      let long = entry_bytes-length env child new short in
      record {
        direct = omega (arith, room);
        block = rw block small.first;
        fits = omega (arith, room, long);
        room = record {
          above = omega (arith, here, small.room.above);
          below = omega (arith, here, long, room, small.room.below);
          small = omega (arith, here, long, room, small.room.small);
        };
      }

  pub add_entry-made :
      env.vmalloc ≡ true
      → new < inode_list_num
      → add_entry env f child mode type s ≡ done (some 0) made
  unfolding add_entry
  add_entry-made serves free =
      let size : to_int (s.inode f).size ≡ pos position = ground (arith, small.size, room) in
      let wrote = write_file-written f position b'c' bytes s small.bound refl small.first fits in
      rw (get_inode_lem s small.bound) (
        taken_branch env.vmalloc _ crash s serves
        ∙ rw (size, wrote) (allocate_inode-allocated f mode kind (written f position bytes s) free))

  abbrev pub entry : Entry
  entry = record { filename = child; inode_index = new }

  made-folder : new ≢ f → made.inode f ≡ grown (s.inode f) 16
  unfolding allocated take_inode
  made-folder other =
      let elsewhere : (f == new) ≡ false = ground arith in
      rw elsewhere (
        update_self s.inode f (grown (s.inode f) (length bytes))
        ∙ ap (grown (s.inode f)) (entry_bytes-length env child new short))

  made-space : made.space ≡ put_bytes s.space ((s.inode f).location 0 + position) bytes
  unfolding allocated take_inode
  made-space = ap (λ p. put_bytes s.space p bytes) here

  made-place : made.space_ptr ≡ s.space_ptr
  unfolding allocated take_inode
  made-place = refl

  entries_below : SameBelow s made ((s.inode f).location 0 + position)
  entries_below = record {
    place = made-place;
    bytes = λ a h. ap (λ m. m a) made-space ∙ put_bytes_outside s.space _ bytes a (inl h);
  }

  entry_there : NoZero child → EntryAt made ((s.inode f).location 0 + position) entry
  entry_there n =
      EntryAt-put_bytes made s.space ((s.inode f).location 0 + position) child
        (garbage env (length child + 1) (13 - length child)) new (unfold entry_bytes in made-space)
        (omega (arith, garbage-length env (length child + 1) (13 - length child))) n
        (λ a l u. record {
          above = omega (arith, small.room.above, made-place);
          below = omega (arith, small.room.below, made-place, room);
        })

  made-size : new ≢ f → (made.inode f).size ≡ 16 * length (es ++ (entry ∷ []))
  unfolding grown
  made-size other =
      ap (λ x. x.size) (made-folder other)
      ∙ omega (arith, small.size, room, length-append es (entry ∷ []))

  pub made-IsSmall : NoZero child → new ≢ f → IsSmall made f (es ++ (entry ∷ []))
  made-IsSmall n other =
      let first : (made.inode f).location 0 ≡ (s.inode f).location 0 =
        ap (λ x. x.location 0) (made-folder other) ∙ (unfold grown in refl) in
      let zero : 0 + length es ≡ length es = omega arith in
      record {
        bound = small.bound;
        size = made-size other;
        first = rw first small.first;
        room = record {
          above = omega (arith, first, made-place, small.room.above);
          below = omega (arith, first, made-place, small.room.below);
          small = omega (arith, first, small.room.small);
        };
        entries = rw first (
            EntriesAt-same entries_below ((s.inode f).location 0) 0 es entry (omega arith)
              small.short small.entries (rw zero (entry_there n)));
        few = omega (arith, length-append es (entry ∷ []));
        short = AllShort-append es entry small.short short;
      }

  pub made-inodes :
      (i : ℕ)
      → new ≢ f
      → i ≢ f
      → made.inode i ≡ (if i == new then new_inode (s.inode new) f mode kind else s.inode i)
  unfolding allocated take_inode
  made-inodes i other apart =
      let inodes = (written f position bytes s).inode in
      let at_new : inodes new ≡ s.inode new = ground arith in
      let at_i : inodes i ≡ s.inode i = ground arith in rw (at_new, at_i) refl
