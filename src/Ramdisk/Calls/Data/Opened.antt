-- ===== src/Ramdisk/Calls/Data/Opened.antt =====
-- module/module_interface.h: a write, a seek and a read of one open file, one after the other.
use cs552operating_system.Base.{
  bytes_at, bytes_at-put_bytes, update_self, ℕ, zero, suc, ◌+◌, ◌^◌, ◌≤◌, ◌<◌, ◌≡◌, ◌≢◌, refl, sym,
  ap, ◌∙◌, true, false, none, some, List, [], ◌∷◌, length, get_elem?, set, arith, ltb, lt→ltb, ◌==◌,
  ℤ, pos, ltb_ℤ,
}
use mathlib.Core.Path.{subst}
use cs552operating_system.Ramdisk.Store.{
  Inode, is_dir, null, Fs, Fdt, FileObject, Env, done, inode_list_num,
}
use cs552operating_system.Ramdisk.Store.Laws.{get_inode_lem}
use cs552operating_system.Ramdisk.Process.{store_fdt}
use cs552operating_system.Ramdisk.Process.Tables.{find_pid}
use cs552operating_system.Ramdisk.Calls.Walk.{current_fdt_lem, load_fdt_lem}
use cs552operating_system.Ramdisk.File.{grown, write_file}
use cs552operating_system.Ramdisk.File.RoundTrip.{
  InDirect, address, written, write_file-written, read_loop-bytes_at,
}
use cs552operating_system.Ramdisk.Calls.Data.{
  file_at, read_start, read_count, rd_read, read_at, set_position, write_at, rd_write, seek_at,
  rd_lseek,
}

-- The process has table `t`, in which descriptor `fd` stands for the object `f`.
pub record Opened (env : Env) (s : Fs) (t : ℕ) (fdt : Fdt) (fd : ℕ) (f : FileObject) : Type 0 where
  pub own : find_pid env.pid s.fdts 0 ≡ some t
  pub table : get_elem? s.fdts t ≡ some fdt
  pub object : get_elem? fdt.files fd ≡ some f
  pub positive : 0 < fd

pub get_elem?-set {ℓ} :
    {A : Type ℓ} (xs : List A) (i : ℕ) (x y : A)
    → get_elem? xs i ≡ some x
    → get_elem? (set xs i y) i ≡ some y
get_elem?-set [] i x y h = cc
get_elem?-set (z ∷ xs) zero x y h = refl
get_elem?-set (z ∷ xs) (suc i) x y h = get_elem?-set xs i x y h

pub find_pid-set :
    (pid : ℕ) (fs : List Fdt) (t : ℕ) (f g : Fdt) (i : ℕ)
    → get_elem? fs t ≡ some f
    → g.pid ≡ f.pid
    → find_pid pid (set fs t g) i ≡ find_pid pid fs i
unfolding find_pid
find_pid-set pid [] t f g i h e = cc
find_pid-set pid (x ∷ fs) zero f g i h e =
    let same : x.pid ≡ f.pid = ap (λ o. elim o [ none ↦ f.pid | some y ↦ y.pid ]) h in
    rw (e, same) refl
find_pid-set pid (x ∷ fs) (suc t) f g i h e = rw (find_pid-set pid fs t f g (i + 1) h e) refl

-- The table after the object has moved to a position.
abbrev pub moved_table : Fdt → ℕ → FileObject → ℤ → Fdt
moved_table fdt fd f position = record fdt {
  files = set fdt.files fd (record f { position = position });
}

abbrev pub moved : ℕ → Fdt → ℕ → FileObject → ℤ → Fs → Fs
moved t fdt fd f position s = record s { fdts = set s.fdts t (moved_table fdt fd f position) }

moved-Opened :
    (env : Env) (s : Fs) (t : ℕ) (fdt : Fdt) (fd : ℕ) (f : FileObject) (position : ℤ)
    → Opened env s t fdt fd f
    → Opened env
        (moved t fdt fd f position s)
        t
        (moved_table fdt fd f position)
        fd
        (record f { position = position })
moved-Opened env s t fdt fd f position o = record {
  own = find_pid-set env.pid s.fdts t fdt (moved_table fdt fd f position) 0 o.table refl ∙ o.own;
  table = get_elem?-set s.fdts t fdt (moved_table fdt fd f position) o.table;
  object = get_elem?-set fdt.files fd f (record f { position = position }) o.object;
  positive = o.positive;
}

set_position_lem :
    (s : Fs) (t : ℕ) (fdt : Fdt) (fd : ℕ) (f : FileObject) (position : ℤ)
    → get_elem? s.fdts t ≡ some fdt
    → set_position t fd f position s ≡ done tt (moved t fdt fd f position s)
unfolding set_position store_fdt
set_position_lem s t fdt fd f position h = rw (load_fdt_lem s t fdt h) refl

pub file_at_lem :
    (fd : ℕ) (files : List FileObject) (f : FileObject)
    → 0 < fd
    → get_elem? files fd ≡ some f
    → file_at (pos fd) files ≡ some (fd, f)
unfolding file_at
file_at_lem zero files f p h = absurd (omega arith)
file_at_lem (suc fd) files f p h = rw (file_at, h) refl

read_start_lem : (q size : ℕ) → q < size → size < 2 ^ 31 → read_start (pos q) size ≡ q
unfolding read_start
read_start_lem q size h small = ground arith

read_count_lem :
    (size q n : ℕ) → 0 < n → q + n ≤ size → size < 2 ^ 31 → read_count size q (pos n) ≡ n
unfolding read_count
read_count_lem size q n h inside small = ground arith

module _ (env : Env) (s : Fs) (t : ℕ) (fdt : Fdt) (fd : ℕ) (f : FileObject)
    (o : Opened env s t fdt fd f) where
  rd_write-written :
      (q : ℕ) (bs : List ℕ)
      → f.position ≡ pos q
      → f.inode_index < inode_list_num
      → is_dir (s.inode f.inode_index).kind ≡ false
      → (s.inode f.inode_index).location 0 ≢ null
      → InDirect s (s.inode f.inode_index) q (length bs)
      → rd_write env (pos fd) bs s
        ≡ done
            (some (length bs))
            (moved t fdt fd f (pos (q + length bs)) (written f.inode_index q bs s))
  unfolding rd_write write_at
  rd_write-written q bs e hi file first d =
      let wrote : write_file f.inode_index f.position bs b'w' s
          ≡ done (some (length bs), pos (q + length bs)) (written f.inode_index q bs s) =
        rw e (write_file-written f.inode_index q b'w' bs s hi file first d) in
      rw (current_fdt_lem env s t o.own, load_fdt_lem s t fdt o.table)
        (rw (file_at_lem fd fdt.files f o.positive o.object) (
          rw wrote (
            rw
              (set_position_lem (written f.inode_index q bs s) t fdt fd f (pos (q + length bs))
                o.table)
              refl)))

  rd_lseek-moved :
      (q : ℕ)
      → f.inode_index < inode_list_num
      → (s.inode f.inode_index).size < 2 ^ 31
      → q ≤ (s.inode f.inode_index).size
      → rd_lseek env (pos fd) (pos q) s ≡ done (some 0) (moved t fdt fd f (pos q) s)
  unfolding rd_lseek seek_at
  rd_lseek-moved q hi small inside =
      let size : ltb (s.inode f.inode_index).size (2 ^ 31) ≡ true = lt→ltb _ _ small in
      let within : ltb_ℤ (pos (s.inode f.inode_index).size) (pos q) ≡ false = ground arith in
      rw (current_fdt_lem env s t o.own, load_fdt_lem s t fdt o.table)
        (rw (file_at_lem fd fdt.files f o.positive o.object) (
          rw (get_inode_lem s hi)
            (rw (size, within) (rw (set_position_lem s t fdt fd f (pos q) o.table) refl))))

  rd_read-bytes_at :
      (q n : ℕ)
      → f.position ≡ pos q
      → f.inode_index < inode_list_num
      → (s.inode f.inode_index).location 0 ≢ null
      → (s.inode f.inode_index).size < 2 ^ 31
      → 0 < n
      → q + n ≤ (s.inode f.inode_index).size
      → InDirect s (s.inode f.inode_index) q n
      → rd_read env (pos fd) (pos n) s
        ≡ done (some n, bytes_at s.space (address (s.inode f.inode_index) q) n) s
  unfolding rd_read read_at
  rd_read-bytes_at q n e hi first small some_byte inside d =
      let size = (s.inode f.inode_index).size in
      let start : read_start f.position size ≡ q =
        rw e (read_start_lem q size (omega arith) small) in
      let count : read_count size q (pos n) ≡ n = read_count_lem size q n some_byte inside small in
      let some_size : (size == 0) ≡ false = ground arith in
      let has : ((s.inode f.inode_index).location 0 == null) ≡ false = ground arith in
      rw (current_fdt_lem env s t o.own, load_fdt_lem s t fdt o.table)
        (rw (file_at_lem fd fdt.files f o.positive o.object) (
          rw (get_inode_lem s hi) (
            rw (some_size, has, start, count)
              (rw (read_loop-bytes_at d) (rw (start, count) refl)))))

grown-size : (x : Inode) (n : ℕ) → x.size + n < 2 ^ 31 → (grown x n).size ≡ x.size + n
unfolding grown
grown-size x n small = omega arith

-- An open file that is no folder and has its first block, whose object stands at position `q` of the
-- file, inside a direct block with room for some bytes, one at least: `rd_write` of the bytes,
-- `rd_lseek` back to `q` and `rd_read` of as many bytes succeed, and the read returns exactly the
-- bytes written, where the file stays below 2^31 bytes.
pub rd_read-rd_write :
    (env : Env) (s : Fs) (t : ℕ) (fdt : Fdt) (fd : ℕ) (f : FileObject) (q : ℕ) (bs : List ℕ)
    → Opened env s t fdt fd f
    → f.position ≡ pos q
    → f.inode_index < inode_list_num
    → is_dir (s.inode f.inode_index).kind ≡ false
    → (s.inode f.inode_index).location 0 ≢ null
    → q ≤ (s.inode f.inode_index).size
    → (s.inode f.inode_index).size + length bs < 2 ^ 31
    → 0 < length bs
    → InDirect s (s.inode f.inode_index) q (length bs)
    → (s1 : Fs) × (s2 : Fs) × (rd_write env (pos fd) bs s ≡ done (some (length bs)) s1)
      × (rd_lseek env (pos fd) (pos q) s1 ≡ done (some 0) s2)
      × (rd_read env (pos fd) (pos (length bs)) s2 ≡ done (some (length bs), bs) s2)
unfolding grown
rd_read-rd_write env s t fdt fd f q bs o e hi file first within small some_byte d =
    let n = length bs in
    let i = f.inode_index in
    let p1 = pos (q + n) in
    let f1 = record f { position = p1 } in
    let fdt1 = moved_table fdt fd f p1 in
    let s1 = moved t fdt fd f p1 (written i q bs s) in
    let s2 = moved t fdt1 fd f1 (pos q) s1 in
    let wrote : Opened env (written i q bs s) t fdt fd f = record {
      own = o.own;
      table = o.table;
      object = o.object;
      positive = o.positive;
    } in
    let o1 = moved-Opened env (written i q bs s) t fdt fd f p1 wrote in
    let o2 = moved-Opened env s1 t fdt1 fd f1 (pos q) o1 in
    let same : s2.inode i ≡ grown (s.inode i) n = update_self s.inode i (grown (s.inode i) n) in
    let size : (s2.inode i).size ≡ (s.inode i).size + n =
      ap (λ x. x.size) same ∙ grown-size (s.inode i) n small in
    let first2 : (s2.inode i).location 0 ≢ null = rw same first in
    let d2 : InDirect s2 (s2.inode i) q n =
      subst (λ x. InDirect s2 x q n) (sym same)
        (record {
          direct = d.direct;
          block = d.block;
          fits = d.fits;
          room = record { above = d.room.above; below = d.room.below; small = d.room.small };
        }) in
    let read : bytes_at s2.space (address (s2.inode i) q) n ≡ bs =
      ap (λ x. bytes_at s2.space (address x q) n) same
      ∙ bytes_at-put_bytes s.space (address (s.inode i) q) bs in
    (
      s1,
      s2,
      rd_write-written env s t fdt fd f o q bs e hi file first d,
      rd_lseek-moved env s1 t fdt1 fd f1 o1 q hi (omega (arith, size)) (omega (arith, size)),
      rd_read-bytes_at env s2 t (moved_table fdt1 fd f1 (pos q)) fd (record f { position = pos q })
            o2 q n refl hi first2 (omega (arith, size)) some_byte (omega (arith, size)) d2
          ∙ ap (λ bytes. done (some n, bytes) s2) read,
    )
