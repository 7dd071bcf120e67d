-- ===== src/Ramdisk/Calls/CurPath.antt =====
-- The text of `cur_path` over an `rd_open` of a folder and the `rd_close` of it.
use cs552operating_system.Base.{
  ℕ, zero, suc, ◌+◌, ◌<◌, ◌≡◌, ◌≢◌, refl, sym, ap, ◌∙◌, true, false, ◌&&◌, none, some, List, [],
  ◌∷◌, ◌++◌, ltb, lt→ltb, ◌==◌, length, get_elem?, take, length-append, arith, inl, inr, Bool-cases,
  Option-cases, ==→eq,
}
use mathlib.Core.List.{append_assoc}
use cs552operating_system.Ramdisk.PathName.{strip_back, strip_dot, strip_root}
use cs552operating_system.Ramdisk.PathName.Theorems.{NoSlash}
use cs552operating_system.Ramdisk.Calls.Open.{
  back_up, path_prefix, open_tail, open_path, last_slash, close_path,
}

strip_back_lem : (name : List ℕ) → NoSlash name → strip_back name ≡ (0, name)
unfolding strip_back
strip_back_lem [] n = refl
strip_back_lem (a ∷ []) n = refl
strip_back_lem (a ∷ b ∷ []) n = refl
strip_back_lem (a ∷ b ∷ c ∷ name) n = ground arith

open_tail_lem : (name : List ℕ) → NoSlash name → open_tail name ≡ (false, name)
unfolding open_tail strip_root strip_dot
open_tail_lem [] n = refl
open_tail_lem (a ∷ []) n = ground arith
open_tail_lem (a ∷ b ∷ name) n = ground arith

path_prefix_lem : (cur : List ℕ) → (base : List ℕ) × (path_prefix cur ≡ base ++ (b'/' ∷ []))
unfolding path_prefix
path_prefix_lem [] = ([], refl)
path_prefix_lem (c ∷ []) = elim (Bool-cases (c == b'/')) [
  | inl slash ↦ ([], rw slash (ap (λ c. c ∷ []) (==→eq c (b'/') slash)))
  | inr other ↦ (c ∷ [], rw other refl)
]
path_prefix_lem (c ∷ d ∷ cur) =
    let long : (c == b'/') && false ≡ false = ground arith in (c ∷ d ∷ cur, rw long refl)

get_elem?-base :
    (base rest : List ℕ) (c i : ℕ)
    → get_elem? (base ++ (c ∷ rest)) (length base + i) ≡ get_elem? (c ∷ rest) i
get_elem?-base [] rest c i = let e : 0 + i ≡ i = omega arith in rw e refl
get_elem?-base (b ∷ base) rest c i =
    let e : suc (length base) + i ≡ suc (length base + i) = omega arith in
    rw e (get_elem?-base base rest c i)

some_eq : (a b : ℕ) → some a ≡ some b → a ≡ b
some_eq a b e = ap (λ o. elim o [ none ↦ a | some x ↦ x ]) e

get_elem?-NoSlash : (name : List ℕ) (i : ℕ) → NoSlash name → get_elem? name i ≢ some (b'/')
get_elem?-NoSlash [] i n = cc
get_elem?-NoSlash (c ∷ name) zero n = λ e. n.0 (some_eq c (b'/') e)
get_elem?-NoSlash (c ∷ name) (suc i) n = get_elem?-NoSlash name i n.1

take-base :
    (base rest : List ℕ) (c : ℕ) → take (length base + 1) (base ++ (c ∷ rest)) ≡ base ++ (c ∷ [])
take-base [] rest c = refl
take-base (b ∷ base) rest c =
    let e : suc (length base) + 1 ≡ suc (length base + 1) = omega arith in
    rw e (ap (λ t. b ∷ t) (take-base base rest c))

last_slash_hit :
    (i : ℕ) (path : List ℕ) → get_elem? path (suc i) ≡ some (b'/') → last_slash (suc i) path ≡ suc i
unfolding last_slash
last_slash_hit i path h = rw (last_slash, h) refl

last_slash_miss :
    (i : ℕ) (path : List ℕ)
    → get_elem? path (suc i) ≢ some (b'/')
    → last_slash (suc i) path ≡ last_slash i path
unfolding last_slash
last_slash_miss i path h = elim (Option-cases (get_elem? path (suc i))) [
  | inl nothing ↦ rw (last_slash, nothing) refl
  | inr (c, found) ↦
      let other : (c == b'/') ≡ false = elim (Bool-cases (c == b'/')) [
        | inl slash ↦ absurd (h (found ∙ ap some (==→eq c (b'/') slash)))
        | inr other ↦ other
      ] in
      rw (last_slash, found) (rw other refl)
]

-- The search from the end of a folder's name, or behind it, stops at the slash in front of the name.
last_slash-base :
    (base name : List ℕ) (j : ℕ)
    → NoSlash name
    → last_slash (length base + j) (base ++ (b'/' ∷ name)) ≡ length base
unfolding last_slash
last_slash-base [] name zero n = let e : 0 + 0 ≡ 0 = omega arith in rw e refl
last_slash-base (b ∷ base) name zero n =
    let e : suc (length base) + 0 ≡ suc (length base) = omega arith in
    rw e (
      last_slash_hit (length base) ((b ∷ base) ++ (b'/' ∷ name)) (
        ap (get_elem? ((b ∷ base) ++ (b'/' ∷ name))) (sym e)
        ∙ get_elem?-base (b ∷ base) name (b'/') 0))
last_slash-base base name (suc j) n =
    let path = base ++ (b'/' ∷ name) in
    let e : length base + suc j ≡ suc (length base + j) = omega arith in
    let here : get_elem? path (suc (length base + j)) ≡ get_elem? name j =
      ap (get_elem? path) (sym e) ∙ get_elem?-base base name (b'/') (suc j) in
    rw e (
      last_slash_miss (length base + j) path (λ h. get_elem?-NoSlash name j n (sym here ∙ h))
      ∙ last_slash-base base name j n)

close_path_lem :
    (base name : List ℕ) → NoSlash name → close_path (base ++ (b'/' ∷ name)) ≡ base ++ (b'/' ∷ [])
unfolding close_path
close_path_lem base name n =
    let path = base ++ (b'/' ∷ name) in
    let size : length path ≡ length base + suc (length name) = length-append base (b'/' ∷ name) in
    let stop : last_slash (length path) path ≡ length base =
      ap (λ k. last_slash k path) size ∙ last_slash-base base name (suc (length name)) n in
    ap (λ k. take (k + 1) path) stop ∙ take-base base name (b'/')

open_path_lem :
    (cur name : List ℕ)
    → NoSlash name
    → length (path_prefix cur) + length name < 1024
    → open_path cur name ≡ some (path_prefix cur ++ name)
unfolding open_path back_up
open_path_lem cur name n fits =
    let start = path_prefix cur in
    let whole = length-append start name in
    let first : ltb (length start) 1024 ≡ true = lt→ltb _ _ (omega arith) in
    let second : ltb (length name) 1024 ≡ true = lt→ltb _ _ (omega arith) in
    let third : ltb (length (start ++ name)) 1024 ≡ true = lt→ltb _ _ (omega (arith, whole)) in
    let back = strip_back_lem name n in
    rw (open_path, back) (rw back (rw (open_tail_lem name n) (rw (first, second, third) refl)))

-- Where the buffers have room, `rd_open` of a folder by its name makes the current path that of the
-- folder, and `rd_close` then leaves the path from before, with a slash at its end.
pub close_path-open_path :
    (cur name : List ℕ)
    → NoSlash name
    → length (path_prefix cur) + length name < 1024
    → (open_path cur name ≡ some (path_prefix cur ++ name))
      × (close_path (path_prefix cur ++ name) ≡ path_prefix cur)
close_path-open_path cur name n fits =
    let (base, e) = path_prefix_lem cur in
    (
      open_path_lem cur name n fits,
      ap (λ t. close_path (t ++ name)) e
          ∙ ap close_path (append_assoc base (b'/' ∷ []) name)
          ∙ close_path_lem base name n
          ∙ sym e,
    )
