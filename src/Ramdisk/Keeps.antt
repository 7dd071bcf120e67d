-- ===== src/Ramdisk/Keeps.antt =====
-- Commands that keep a predicate on the state, one rule for each way to build a command of
-- module/support_function.h and module/module_interface.h.
pub mod Blocks
pub mod Folders
pub mod Paths
pub mod Calls
pub mod Unlink
use cs552operating_system.Base.{
  update, ℕ, ◌/◌, ◌<◌, ◌≡◌, refl, Bool, true, false, if◌then◌else◌, List, [], ◌∷◌, Option, none,
  some,
}
use cs552operating_system.Ramdisk.Store.{
  Inode, Fdt, Fs, Run, done, fault, M, and_then, ◌>>=◌, pure, crash, get, bitmap_sublock,
}
use cs552operating_system.Ramdisk.Bitmap.{mark_block, unmark_block}

-- The state that a run ends in, if it does not fault, satisfies `P`.
pub data Ends (P : Fs → Type 0) {A : Type 0} : Run A → Type 0 where
  ended : (a : A) (s : Fs) → P s → Ends P (done a s)
  broke : Ends P fault

-- What a run is known to end in.
abbrev pub Post : (Fs → Type 0) → {A : Type 0} → Run A → Type 0
Post P (done a s) = P s
Post P fault = Unit

pub Ends-Post : {P : Fs → Type 0} {A : Type 0} {r : Run A} → Ends P r → Post P r
Ends-Post (ended a s h) = h
Ends-Post broke = tt

pub record Keeps (P : Fs → Type 0) {A : Type 0} (m : M A) : Type 0 where
  pub at : (s : Fs) → P s → Ends P (m s)

module _ {P : Fs → Type 0} {A : Type 0} where
  pub Keeps-pure : (a : A) → Keeps P (pure a)
  Keeps-pure a = record { at = λ s h. ended a s h }

  pub Keeps-crash : Keeps P (crash {A = A})
  Keeps-crash = record { at = λ s h. broke }

  pub Ends-if :
      (b : Bool) {x y : Run A}
      → (b ≡ true → Ends P x)
      → (b ≡ false → Ends P y)
      → Ends P (if b then x else y)
  Ends-if true kx ky = kx refl
  Ends-if false kx ky = ky refl

  pub Ends-branch :
      (b : Bool) (m n : M A) (s : Fs)
      → Ends P (m s)
      → Ends P (n s)
      → Ends P ((if b then m else n) s)
  Ends-branch true m n s km kn = km
  Ends-branch false m n s km kn = kn

  pub Keeps-if : (b : Bool) {m n : M A} → Keeps P m → Keeps P n → Keeps P (if b then m else n)
  Keeps-if true km kn = km
  Keeps-if false km kn = kn

module _ {P : Fs → Type 0} {A B : Type 0} where
  pub Keeps-elim :
      (r : Option A) {m : M B} {k : A → M B}
      → Keeps P m
      → ((a : A) → Keeps P (k a))
      → Keeps P (elim r [ none ↦ m | some a ↦ k a ])
  Keeps-elim none km kk = km
  Keeps-elim (some a) km kk = kk a

  pub Keeps-elim_list :
      (l : List A) {m : M B} {k : A → List A → M B}
      → Keeps P m
      → ((a : A) (rest : List A) → Keeps P (k a rest))
      → Keeps P (elim l [ [] ↦ m | a ∷ rest ↦ k a rest ])
  Keeps-elim_list [] km kk = km
  Keeps-elim_list (a ∷ rest) km kk = kk a rest

  Ends-and_then :
      {r : Run A} {k : A → M B} → Ends P r → ((a : A) → Keeps P (k a)) → Ends P (and_then r k)
  Ends-and_then (ended a s h) kk = (kk a).at s h
  Ends-and_then broke kk = broke

  -- A first part that ends in `P`, and a rest that leads from there to `Q`.
  pub Ends-bind :
      {Q : Fs → Type 0} (r : Run A) {k : A → M B}
      → Ends P r
      → ((a : A) (s : Fs) → r ≡ done a s → P s → Ends Q (k a s))
      → Ends Q (and_then r k)
  Ends-bind (done a s) (ended _ _ h) kk = kk a s refl h
  Ends-bind fault broke kk = broke

  pub Keeps-bind :
      {m : M A} {k : A → M B} → Keeps P m → ((a : A) → Keeps P (k a)) → Keeps P (m >>= k)
  Keeps-bind km kk = record { at = λ s h. Ends-and_then (km.at s h) kk }

pub Keeps-get : {P : Fs → Type 0} → Keeps P get
Keeps-get = record { at = λ s h. ended s s h }

pub ruleset keeps_rules = (Keeps-pure, Keeps-crash, Keeps-if, Keeps-elim, Keeps-bind, Keeps-get)

-- `P` says nothing of the bytes of the blocks, of the tables and of what an inode holds but its
-- operation, and holds on when a block is marked or freed.
pub record IsStable (P : Fs → Type 0) : Type 0 where
  pub space : (s : Fs) (m : ℕ → ℕ) → P s → P (record s { space = m })
  pub fdts : (s : Fs) (l : List Fdt) → P s → P (record s { fdts = l })
  pub inode :
      (s : Fs) (i : ℕ) (n : Inode)
      → n.operation ≡ (s.inode i).operation
      → P s
      → P (record s { inode = update s.inode i n })
  pub mark :
      (s : Fs)
      → s.superblock.first_free_block / 8 < bitmap_sublock
      → P s
      → P (mark_block s.superblock.first_free_block s)
  pub unmark : (s : Fs) (b : ℕ) → b / 8 < bitmap_sublock → P s → P (unmark_block b s)

pub both-IsStable : {P Q : Fs → Type 0} → IsStable P → IsStable Q → IsStable (λ s. P s × Q s)
both-IsStable p q = record {
  space = λ s m h. (p.space s m h.0, q.space s m h.1);
  fdts = λ s l h. (p.fdts s l h.0, q.fdts s l h.1);
  inode = λ s i n e h. (p.inode s i n e h.0, q.inode s i n e h.1);
  mark = λ s e h. (p.mark s e h.0, q.mark s e h.1);
  unmark = λ s b e h. (p.unmark s b e h.0, q.unmark s b e h.1);
}

pub Unit-IsStable : IsStable (λ s. Unit)
Unit-IsStable = record {
  space = λ s m h. tt;
  fdts = λ s l h. tt;
  inode = λ s i n e h. tt;
  mark = λ s e h. tt;
  unmark = λ s b e h. tt;
}
