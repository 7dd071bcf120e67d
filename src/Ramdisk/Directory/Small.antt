-- ===== src/Ramdisk/Directory/Small.antt =====
-- A folder whose entries lie in its first block, and one entry more behind them.
use cs552operating_system.Base.{
  bytes_at, bytes_at-put_bytes, put_bytes, put_bytes-append, ℕ, suc, ◌+◌, ◌*◌, ◌/◌, ◌%◌, ◌≤◌, ◌<◌,
  ◌≡◌, ◌≢◌, refl, ap, sym, ◌∙◌, true, false, none, some, same_text, same_text→eq, Bool-cases, inl,
  inr, List, [], ◌∷◌, ◌++◌, length, length-append, arith, if◌then◌else◌,
}
use mathlib.Core.Path.{subst}
use mathlib.Core.List.{append-nil, append_assoc}
use cs552operating_system.Ramdisk.Store.{Fs, Ptr, null, block_size, inode_list_num}
use cs552operating_system.Ramdisk.Store.Laws.{InSpace}
use cs552operating_system.Ramdisk.File.Bytes.{Room}
use cs552operating_system.Ramdisk.Directory.Listing.{
  TextAt, NoZero, Entry, EntryAt, EntriesAt, BlocksAt, lookup, all_entries,
}

-- Names that leave room for the inode in their entry.
abbrev pub AllShort : List Entry → Type 0
AllShort [] = Unit
AllShort (e ∷ es) = (length e.filename ≤ 13) × AllShort es

pub record IsSmall (s : Fs) (i : ℕ) (es : List Entry) : Type 0 where
  pub bound : i < inode_list_num
  pub size : (s.inode i).size ≡ 16 * length es
  pub first : (s.inode i).location 0 ≢ null
  pub room : Room s ((s.inode i).location 0) block_size
  pub entries : EntriesAt s ((s.inode i).location 0) 0 es
  pub few : length es ≤ 16
  pub short : AllShort es

-- The blocks of such a folder.
abbrev pub blocks : List Entry → List (List Entry)
blocks [] = []
blocks (e ∷ es) = (e ∷ es) ∷ []

pub blocks_few : (es : List Entry) → length (blocks es) ≤ 8
blocks_few [] = omega arith
blocks_few (e ∷ es) = omega arith

pub all_entries-blocks : (es : List Entry) → all_entries (blocks es) ≡ es
unfolding all_entries
all_entries-blocks [] = refl
all_entries-blocks (e ∷ es) = append-nil (e ∷ es)

pub IsSmall-BlocksAt :
    {s : Fs} {i : ℕ} (es : List Entry)
    → IsSmall s i es
    → BlocksAt s (s.inode i).location 0 (blocks es)
IsSmall-BlocksAt [] h = tt
IsSmall-BlocksAt (e ∷ es) h = (h.first, h.entries, omega arith, h.few, inr refl, tt)

-- A state with the same bytes below `hi`.
pub record SameBelow (s t : Fs) (hi : Ptr) : Type 0 where
  pub place : t.space_ptr ≡ s.space_ptr
  pub bytes : (a : Ptr) → a < hi → t.space a ≡ s.space a

module _ {s t : Fs} {hi : Ptr} (same : SameBelow s t hi) where
  InSpace-same : {a : Ptr} → InSpace s a → InSpace t a
  InSpace-same h = record {
    above = omega (arith, h.above, same.place);
    below = omega (arith, h.below, same.place);
  }

  TextAt-same : (p : Ptr) (text : List ℕ) → p + length text < hi → TextAt s p text → TextAt t p text
  TextAt-same p [] below h = (InSpace-same h.0, same.bytes p (omega arith) ∙ h.1)
  TextAt-same p (c ∷ cs) below h = (
    InSpace-same h.0,
    same.bytes p (omega arith) ∙ h.1,
    h.2,
    TextAt-same (p + 1) cs (omega arith) h.3,
  )

  EntryAt-same :
      (p : Ptr) (e : Entry) → p + 16 ≤ hi → length e.filename ≤ 13 → EntryAt s p e → EntryAt t p e
  EntryAt-same p e below short h = record {
    text = TextAt-same p e.filename (omega arith) h.text;
    low = InSpace-same h.low;
    high = InSpace-same h.high;
    index = rw (same.bytes (p + 14) (omega arith), same.bytes (p + 15) (omega arith)) h.index;
  }

  -- The entries, with one more behind them.
  pub EntriesAt-same :
      (block : Ptr) (j : ℕ) (es : List Entry) (e : Entry)
      → block + 16 * (j + length es) ≤ hi
      → AllShort es
      → EntriesAt s block j es
      → EntryAt t (block + 16 * (j + length es)) e
      → EntriesAt t block j (es ++ (e ∷ []))
  EntriesAt-same block j [] e below short h last =
      let here : j + 0 ≡ j = omega arith in
      (subst (λ k. EntryAt t (block + 16 * k) e) here last, tt)
  EntriesAt-same block j (x ∷ es) e below short h last =
      let behind : j + suc (length es) ≡ j + 1 + length es = omega arith in
      (
        EntryAt-same (block + 16 * j) x (omega arith) short.0 h.0,
        EntriesAt-same block (j + 1) es e (omega arith) short.1 h.1
            (subst (λ k. EntryAt t (block + 16 * k) e) behind last),
      )

-- Bytes that read as a text with its end.
TextAt-bytes_at :
    (t : Fs) (p : Ptr) (text rest : List ℕ)
    → bytes_at t.space p (length (text ++ (0 ∷ rest))) ≡ text ++ (0 ∷ rest)
    → NoZero text
    → ((a : Ptr) → p ≤ a → a ≤ p + length text → InSpace t a)
    → TextAt t p text
unfolding bytes_at
TextAt-bytes_at t p [] rest h n inside = (inside p (omega arith) (omega arith), ground (arith, h))
TextAt-bytes_at t p (c ∷ cs) rest h n inside = (
  inside p (omega arith) (omega arith),
  ground (arith, h),
  n.0,
  TextAt-bytes_at t (p + 1) cs rest (ground (arith, h)) n.1
      (λ a l u. inside a (omega arith) (omega arith)),
)

-- The 16 bytes of an entry, written to a block: the name with its end, and the inode behind it.
pub EntryAt-put_bytes :
    (t : Fs) (m : ℕ → ℕ) (p : Ptr) (name rest : List ℕ) (index : ℕ)
    → t.space ≡ put_bytes m p (name ++ (0 ∷ (rest ++ (index % 256 ∷ index / 256 ∷ []))))
    → length name + length rest ≡ 13
    → NoZero name
    → ((a : Ptr) → p ≤ a → a < p + 16 → InSpace t a)
    → EntryAt t p (record { filename = name; inode_index = index })
EntryAt-put_bytes t m p name rest index e long n inside =
    let ends = index % 256 ∷ index / 256 ∷ [] in
    let bytes = name ++ (0 ∷ (rest ++ ends)) in
    let front = name ++ (0 ∷ rest) in
    let at_end : length front ≡ 14 = omega (arith, length-append name (0 ∷ rest)) in
    let split : t.space ≡ put_bytes (put_bytes m p front) (p + 14) ends =
      e
      ∙ ap (put_bytes m p) (sym (append_assoc name (0 ∷ rest) ends))
      ∙ put_bytes-append m p front ends
      ∙ ap (λ k. put_bytes (put_bytes m p front) (p + k) ends) at_end in
    record {
      text =
          TextAt-bytes_at t p name (rest ++ ends) (rw e (bytes_at-put_bytes m p bytes)) n
            (λ a l u. inside a l (omega (arith, long)));
      low = inside (p + 14) (omega arith) (omega arith);
      high = inside (p + 15) (omega arith) (omega arith);
      index = unfold put_bytes in rw split (ground arith);
    }

pub AllShort-append :
    (es : List Entry) (e : Entry) → AllShort es → length e.filename ≤ 13 → AllShort (es ++ (e ∷ []))
AllShort-append [] e h last = (last, tt)
AllShort-append (x ∷ es) e h last = (h.0, AllShort-append es e h.1 last)

lookup_other :
    (name : List ℕ) (es : List Entry) (e : Entry)
    → same_text e.filename name ≡ false
    → lookup name (es ++ (e ∷ [])) ≡ lookup name es
unfolding lookup
lookup_other name [] e h = rw h refl
lookup_other name (x ∷ es) e h = ground (arith, lookup_other name es e h)

lookup_last :
    (name : List ℕ) (es : List Entry) (e : Entry)
    → same_text e.filename name ≡ true
    → lookup name es ≡ none
    → lookup name (es ++ (e ∷ [])) ≡ some e.inode_index
unfolding lookup
lookup_last name [] e h missed = rw h refl
lookup_last name (x ∷ es) e h missed = ground (arith, lookup_last name es e h)

-- A name that was missing is found behind the entries, and every other name as before.
pub lookup-append :
    (name : List ℕ) (es : List Entry) (e : Entry)
    → lookup e.filename es ≡ none
    → lookup name (es ++ (e ∷ []))
      ≡ (if same_text e.filename name then some e.inode_index else lookup name es)
lookup-append name es e missed = elim (Bool-cases (same_text e.filename name)) [
  | inl same ↦
      let here : lookup name es ≡ none =
        ap (λ n. lookup n es) (sym (same_text→eq e.filename name same)) ∙ missed in
      rw same (lookup_last name es e same here)
  | inr other ↦ rw other (lookup_other name es e other)
]
