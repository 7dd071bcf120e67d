-- ===== src/Ramdisk/PathName/Theorems.antt =====
-- `read_pathname` against the text of a path: folders, each with a `/` behind it, and a last name.
use cs552operating_system.Base.{
  ℕ, ◌≤◌, ◌≡◌, ◌≢◌, refl, sym, ap, ◌∙◌, true, false, Option, some, List, [], ◌∷◌, ◌++◌, arith, ◌==◌,
  length, Bool-cases, ==→eq, inl, inr,
}
use mathlib.Core.List.{append-nil, append_assoc}
use cs552operating_system.Ramdisk.Store.{FileObject, Fdt, Fs, done, M}
use cs552operating_system.Ramdisk.PathName.{
  strip_back, strip_dot, strip_root, partition, parse_from, Parsed, read_pathname,
}

abbrev pub NoSlash : List ℕ → Type 0
NoSlash [] = Unit
NoSlash (c ∷ cs) = (c ≢ b'/') × NoSlash cs

abbrev pub AllNoSlash : List (List ℕ) → Type 0
AllNoSlash [] = Unit
AllNoSlash (p ∷ ps) = NoSlash p × AllNoSlash ps

unfoldable pub join : List (List ℕ) → List ℕ → List ℕ
join [] child = child
join (p ∷ ps) child = p ++ (b'/' ∷ join ps child)

NoSlash-append_end : (xs : List ℕ) (c : ℕ) → NoSlash xs → c ≢ b'/' → NoSlash (xs ++ (c ∷ []))
NoSlash-append_end [] c n h = (h, tt)
NoSlash-append_end (x ∷ xs) c n h = (n.0, NoSlash-append_end xs c n.1 h)

record Parts (text : List ℕ) (r : List (List ℕ) × List ℕ) : Type 0 where
  whole : join r.0 r.1 ≡ text
  folders : AllNoSlash r.0
  last : NoSlash r.1

partition-Parts : (cs part : List ℕ) → NoSlash part → Parts (part ++ cs) (partition cs part)
unfolding partition join
partition-Parts [] part n = record { whole = sym (append-nil part); folders = tt; last = n }
partition-Parts (c ∷ cs) part n = elim (Bool-cases (c == b'/')) [
  | inl slash ↦
      let rest = partition-Parts cs [] tt in
      rw slash (record {
        whole = rw (rest.whole, ==→eq c b'/' slash);
        folders = (n, rest.folders);
        last = rest.last;
      })
  | inr other ↦
      let rest =
        partition-Parts cs (part ++ (c ∷ [])) (NoSlash-append_end part c n (ground arith)) in
      rw other (record {
        whole = rest.whole ∙ append_assoc part (c ∷ []) cs;
        folders = rest.folders;
        last = rest.last;
      })
]

-- The partition of a path into folders and a name loses nothing: joined by `/` they are the path
-- again, and no part has a `/` in it.
join-partition :
    (cs : List ℕ)
    → (join (partition cs []).0 (partition cs []).1 ≡ cs)
      × AllNoSlash (partition cs []).0
      × NoSlash (partition cs []).1
join-partition cs = let p = partition-Parts cs [] tt in (p.whole, p.folders, p.last)

partition_name :
    (name part cs : List ℕ)
    → NoSlash name
    → partition (name ++ cs) part ≡ partition cs (part ++ name)
unfolding partition
partition_name [] part cs n = rw append-nil
partition_name (c ∷ name) part cs n =
    let miss : (c == b'/') ≡ false = ground arith in
    rw miss (
      partition_name name (part ++ (c ∷ [])) cs n.1
      ∙ ap (partition cs) (append_assoc part (c ∷ []) name))

-- Folders and a name without `/`, joined, are what the partition finds again.
partition-join :
    (ps : List (List ℕ)) (child : List ℕ)
    → AllNoSlash ps
    → NoSlash child
    → partition (join ps child) [] ≡ (ps, child)
unfolding join partition
partition-join [] child a n =
    ap (λ t. partition t []) (sym (append-nil child)) ∙ partition_name child [] [] n
partition-join (p ∷ ps) child a n =
    partition_name p [] (b'/' ∷ join ps child) a.0 ∙ rw (partition-join ps child a.1 n)

strip_back-slash : (cs : List ℕ) → strip_back (b'/' ∷ cs) ≡ (0, b'/' ∷ cs)
unfolding strip_back
strip_back-slash [] = refl
strip_back-slash (x ∷ []) = refl
strip_back-slash (x ∷ y ∷ cs) = refl

strip_dot-slash : (cs : List ℕ) → strip_dot (b'/' ∷ cs) ≡ b'/' ∷ cs
unfolding strip_dot
strip_dot-slash [] = refl
strip_dot-slash (x ∷ cs) = refl

strip_root_lem : (cs : List ℕ) → strip_root (b'/' ∷ cs) ≡ (true, cs)
unfolding strip_root
strip_root_lem cs = refl

-- The start of a path taken off, and the rest as it is.
abbrev parse : List ℕ → Fdt → M (Option Parsed)
parse pathname fdt =
    let (back, pn) = strip_back pathname in
    let (rooted, rest) = strip_root (strip_dot pn) in
    parse_from fdt.files fdt.cur_path back rooted (partition rest [])

read_pathname-parse :
    (pathname : List ℕ) (fdt : Fdt) → read_pathname pathname fdt ≡ parse pathname fdt
unfolding read_pathname
read_pathname-parse pathname fdt = refl

parse_from-few :
    (files : List FileObject) (cur_path : List ℕ) (ps : List (List ℕ)) (child : List ℕ) (s : Fs)
    → files ≢ []
    → length ps ≤ 20
    → parse_from files cur_path 0 true (ps, child) s
      ≡ done (some (record { des_index = 0; parents = ps; child = child })) s
unfolding parse_from
parse_from-few files cur_path ps child s h few = ground arith

-- `read_pathname` on an absolute path of at most 20 folders, for a process with a current folder,
-- returns the root, the folders in order and the name, and changes nothing.
pub read_pathname-absolute :
    (ps : List (List ℕ)) (child : List ℕ) (fdt : Fdt) (s : Fs)
    → AllNoSlash ps
    → NoSlash child
    → fdt.files ≢ []
    → length ps ≤ 20
    → read_pathname (b'/' ∷ join ps child) fdt s
      ≡ done (some (record { des_index = 0; parents = ps; child = child })) s
read_pathname-absolute ps child fdt s a n h few =
    rw
      (
        read_pathname-parse,
        strip_back-slash (join ps child),
        strip_dot-slash (join ps child),
        strip_root_lem,
        partition-join ps child a n,
      )
      (parse_from-few fdt.files fdt.cur_path ps child s h few)
