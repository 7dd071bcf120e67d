-- ===== src/Ramdisk/Directory/Listing.antt =====
-- module/support_function.h: `search` and `isExist` against the list of entries of a folder.
use cs552operating_system.Base.{
  ℕ, zero, suc, ◌+◌, ◌-◌, ◌*◌, ◌≤◌, ◌<◌, ◌≡◌, ◌≢◌, refl, false, ◌⊎◌, Option, none, some, List, [],
  ◌∷◌, ◌++◌, length, length-append, arith, ◌==◌, if◌then◌else◌, same_text, inl, inr, Bool-cases, ℤ,
  pos, ◌+ℤ◌,
}
use cs552operating_system.Ramdisk.Store.{Fs, Ptr, null, done}
use cs552operating_system.Ramdisk.Store.Laws.{InSpace, load8_lem}
use cs552operating_system.Ramdisk.Directory.{text_is, entry_inode, Search, search_block}

-- A text at an address: its bytes, none of them 0, and a 0 behind them.
abbrev pub TextAt : Fs → Ptr → List ℕ → Type 0
TextAt s p [] = InSpace s p × (s.space p ≡ 0)
TextAt s p (c ∷ cs) = InSpace s p × (s.space p ≡ c) × (c ≢ 0) × TextAt s (p + 1) cs

abbrev pub NoZero : List ℕ → Type 0
NoZero [] = Unit
NoZero (c ∷ cs) = (c ≢ 0) × NoZero cs

-- An entry of a folder: its name and its inode.
pub record Entry : Type 0 where
  pub filename : List ℕ
  pub inode_index : ℕ

pub record EntryAt (s : Fs) (p : Ptr) (e : Entry) : Type 0 where
  pub text : TextAt s p e.filename
  pub low : InSpace s (p + 14)
  pub high : InSpace s (p + 15)
  pub index : s.space (p + 14) + 256 * s.space (p + 15) ≡ e.inode_index

-- The entries of a block from entry `j` on.
abbrev pub EntriesAt : Fs → Ptr → ℕ → List Entry → Type 0
EntriesAt s block j [] = Unit
EntriesAt s block j (e ∷ es) = EntryAt s (block + 16 * j) e × EntriesAt s block (j + 1) es

-- The inode of the first entry with a name.
unfoldable pub lookup : List ℕ → List Entry → Option ℕ
lookup name [] = none
lookup name (e ∷ es) = if same_text e.filename name then some e.inode_index else lookup name es

-- The place of that entry, or of the last one, where the one before the first has place `index`.
unfoldable pub place : List ℕ → List Entry → ℤ → ℤ
place name [] index = index
place name (e ∷ es) index =
    if same_text e.filename name then index +ℤ pos 1 else place name es (index +ℤ pos 1)

text_is-same_text :
    (name filename : List ℕ) (p : Ptr) (s : Fs)
    → NoZero name
    → TextAt s p filename
    → text_is name p s ≡ done (same_text filename name) s
unfolding text_is
text_is-same_text [] [] p s n t = rw (load8_lem s t.0, t.1)
text_is-same_text [] (c ∷ filename) p s n t =
    let other : (c == 0) ≡ false = ground (arith, t.2) in rw (load8_lem s t.0, t.1, other)
text_is-same_text (d ∷ name) [] p s n t =
    let other : (0 == d) ≡ false = ground (arith, n.0) in rw (load8_lem s t.0, t.1, other)
text_is-same_text (d ∷ name) (c ∷ filename) p s n t = elim (Bool-cases (c == d)) [
  | inl same ↦ rw (load8_lem s t.0, t.1, same, text_is-same_text name filename (p + 1) s n.1 t.3)
  | inr other ↦ rw (load8_lem s t.0, t.1, other)
]

entry_inode_lem :
    {s : Fs} {p : Ptr} {e : Entry} → EntryAt s p e → entry_inode p s ≡ done e.inode_index s
unfolding entry_inode
entry_inode_lem {s} h = rw (load8_lem s h.low, load8_lem s h.high, h.index)

-- What is left of the count when the search ends.
unfoldable pub left_over : List ℕ → List Entry → ℕ
left_over name [] = 0
left_over name (e ∷ es) = if same_text e.filename name then suc (length es) else left_over name es

-- The result of a search of `es` with `extra` more to look at behind them.
abbrev pub outcome : List ℕ → List Entry → ℕ → ℤ → Search
outcome name es extra index = record {
  answer = lookup name es;
  times = left_over name es + extra;
  index = place name es index;
}

pub search_block-lookup :
    (k j : ℕ) (es : List Entry) (extra : ℕ) (block : Ptr) (name : List ℕ) (index : ℤ) (s : Fs)
    → NoZero name
    → EntriesAt s block j es
    → length es ≤ k
    → (length es ≡ k) ⊎ (extra ≡ 0)
    → search_block k block j name (length es + extra) index s ≡ done (outcome name es extra index) s
unfolding search_block lookup place left_over
search_block-lookup zero j [] extra block name index s n a few full = refl
search_block-lookup zero j (e ∷ es) extra block name index s n a few full = absurd (omega arith)
search_block-lookup (suc k) j [] extra block name index s n a few full =
    let ended : extra ≡ 0 = ground (arith, full) in rw ended
search_block-lookup (suc k) j (e ∷ es) extra block name index s n a few full =
    let more : (suc (length es) + extra == 0) ≡ false = ground arith in
    let rest : suc (length es) + extra - 1 ≡ length es + extra = omega arith in
    elim (Bool-cases (same_text e.filename name)) [
      | inl same ↦ rw (
        more,
        text_is-same_text name e.filename (block + 16 * j) s n a.0.text,
        same,
        entry_inode_lem a.0,
      )
      | inr other ↦
          rw (more, text_is-same_text name e.filename (block + 16 * j) s n a.0.text, other, rest)
            (search_block-lookup k (j + 1) es extra block name (index +ℤ pos 1) s n a.1
              (omega arith) (ground (arith, full)))
    ]

-- The entries of a folder, block by block: all blocks but the last are full.
abbrev pub BlocksAt : Fs → (ℕ → Ptr) → ℕ → List (List Entry) → Type 0
BlocksAt s location i [] = Unit
BlocksAt s location i (b ∷ bs) =
    (location i ≢ null)
    × EntriesAt s (location i) 0 b
    × (0 < length b)
    × (length b ≤ 16)
    × ((length b ≡ 16) ⊎ (bs ≡ []))
    × BlocksAt s location (i + 1) bs

unfoldable pub all_entries : List (List Entry) → List Entry
all_entries [] = []
all_entries (b ∷ bs) = b ++ all_entries bs

pub outcome-found :
    (b r : List Entry) (name : List ℕ) (index : ℤ) (x : ℕ)
    → lookup name b ≡ some x
    → outcome name b (length r) index ≡ outcome name (b ++ r) 0 index
unfolding lookup place left_over
outcome-found [] r name index x h = cc
outcome-found (e ∷ b) r name index x h = elim (Bool-cases (same_text e.filename name)) [
  | inl same ↦ rw same (ground (arith, length-append b r))
  | inr other ↦ rw other (outcome-found b r name (index +ℤ pos 1) x (ground arith))
]

pub outcome-missed :
    (b r : List Entry) (name : List ℕ) (index : ℤ)
    → lookup name b ≡ none
    → (outcome name r 0 (place name b index) ≡ outcome name (b ++ r) 0 index)
      × (left_over name b ≡ 0)
unfolding lookup place left_over
outcome-missed [] r name index h = (refl, refl)
outcome-missed (e ∷ b) r name index h = elim (Bool-cases (same_text e.filename name)) [
  | inl same ↦ absurd (ground arith)
  | inr other ↦ rw other (outcome-missed b r name (index +ℤ pos 1) (ground arith))
]
