-- ===== src/Base/Cells.antt =====
-- A store of cells: one cell changed, a run of cells written, and read back.
use Prim.Native.Nat.{ℕ, zero, suc, ◌+◌, ◌≤◌, ◌<◌}
use mathlib.Core.Path.{◌≡◌, refl, ap, ◌∙◌}
use mathlib.Core.Logic.{◌⊎◌}
use mathlib.Core.List.{List, [], ◌∷◌, ◌++◌}
use native.Mathlib.Nat.{zero-add, add-zero}
use native.Mathlib.Omega.{arith}
use cs552operating_system.Base.Tests.{◌==◌, if◌then◌else◌}
use cs552operating_system.Base.Lists.{length}

abbrev pub update {ℓ} : {A : Type ℓ} → (ℕ → A) → ℕ → A → ℕ → A
update f i v j = if j == i then v else f j

pub update_self {ℓ} : {A : Type ℓ} (f : ℕ → A) (i : ℕ) (v : A) → update f i v i ≡ v
update_self f i v = ground arith

unfoldable pub put_bytes : (ℕ → ℕ) → ℕ → List ℕ → ℕ → ℕ
put_bytes m p [] = m
put_bytes m p (b ∷ bs) = put_bytes (update m p b) (p + 1) bs

unfoldable pub bytes_at : (ℕ → ℕ) → ℕ → ℕ → List ℕ
bytes_at m p zero = []
bytes_at m p (suc n) = m p ∷ bytes_at m (p + 1) n

pub put_bytes_outside :
    (m : ℕ → ℕ) (p : ℕ) (bs : List ℕ) (a : ℕ)
    → (a < p) ⊎ (p + length bs ≤ a)
    → put_bytes m p bs a ≡ m a
unfolding put_bytes
put_bytes_outside m p [] a h = refl
put_bytes_outside m p (b ∷ bs) a h =
    put_bytes_outside (update m p b) (p + 1) bs a (omega arith) ∙ ground arith

pub bytes_at-put_bytes :
    (m : ℕ → ℕ) (p : ℕ) (bs : List ℕ) → bytes_at (put_bytes m p bs) p (length bs) ≡ bs
unfolding bytes_at put_bytes
bytes_at-put_bytes m p [] = refl
bytes_at-put_bytes m p (b ∷ bs) = ground (
  arith,
  put_bytes_outside (update m p b) (p + 1) bs p (omega arith),
  bytes_at-put_bytes (update m p b) (p + 1) bs,
)

pub bytes_at-append :
    (m : ℕ → ℕ) (p a b : ℕ) → bytes_at m p (a + b) ≡ bytes_at m p a ++ bytes_at m (p + a) b
unfolding bytes_at
bytes_at-append m p zero b = rw (zero-add, add-zero)
bytes_at-append m p (suc a) b =
    let left : suc a + b ≡ suc (a + b) = omega arith in
    let right : p + suc a ≡ p + 1 + a = omega arith in
    rw (left, right) (ap (λ l. m p ∷ l) (bytes_at-append m (p + 1) a b))

pub put_bytes-append :
    (m : ℕ → ℕ) (p : ℕ) (xs ys : List ℕ)
    → put_bytes m p (xs ++ ys) ≡ put_bytes (put_bytes m p xs) (p + length xs) ys
unfolding put_bytes
put_bytes-append m p [] ys = rw add-zero
put_bytes-append m p (x ∷ xs) ys =
    let right : p + suc (length xs) ≡ p + 1 + length xs = omega arith in
    rw right (put_bytes-append (update m p x) (p + 1) xs ys)
