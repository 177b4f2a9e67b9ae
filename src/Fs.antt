-- ===== src/Fs.antt =====
-- kernel/fs.c: paths, on the file system of Ext2. `none` is an access outside an object. The pointers that the
-- functions test for NULL are not NULL, but for `fs`.
pub mod Operations
pub mod Directories
pub mod Listing
pub mod Paths
mod Tests
use krnel.Base.{
  ℕ, zero, suc, ◌+◌, ◌-◌, ◌%◌, ◌^◌, Bool, true, false, ◌&&◌, ◌||◌, not, Option, none, some, List,
  [], ◌∷◌, ◌++◌, ltb, leb, ◌==◌, if◌then◌else◌, length, get_or, set, take, drop,
}
use krnel.Base.Int.{ℤ, pos, negsuc}
use krnel.CString.{Buffer, ◌>>=◌, strlen, strcpy, strncpy}
use krnel.CString.Compare.{strcmp, strchr, strrchr}
use krnel.Ata.Disk.{Disk}
use krnel.Ext2.{Ext2, State}
use krnel.Ext2.Lookup.{ext2_find_inode}
use krnel.Ext2.Directory.{ext2_mkdir}

-- `fs`, with the disk and the counters behind it, `cwd_inode` and `cwd`.
pub record FileSystem : Type 0 where
  pub fs : Option Ext2
  pub ext : State
  pub cwd_inode : ℕ
  pub cwd : Buffer

-- The file system, or what is given for `!fs`.
abbrev pub on_fs {ℓ} : {A : Type ℓ} → Option Ext2 → A → (Ext2 → A) → A
on_fs none failed go = failed
on_fs (some fs) failed go = go fs

abbrev pub is_negative : ℤ → Bool
is_negative (pos n) = false
is_negative (negsuc n) = true

-- `(u32)n` for a number that is not negative.
abbrev pub to_nat : ℤ → ℕ
to_nat (pos n) = n
to_nat (negsuc n) = 0

-- `*p`
abbrev pub first : Buffer → Option ℕ
first [] = none
first (c ∷ p) = some c

abbrev pub root_path : Buffer
root_path = b'/' ∷ 0 ∷ []

abbrev pub cons_component : ℕ → Option (List ℕ × Buffer) → Option (List ℕ × Buffer)
cons_component c none = none
cons_component c (some (text, p)) = some (c ∷ text, p)

-- `while (*p && *p != '/' && i < 63) component[i++] = *p++`, with the room left in `component`.
unfoldable pub take_component : ℕ → Buffer → Option (List ℕ × Buffer)
take_component room [] = none
take_component zero (c ∷ p) = some ([], c ∷ p)
take_component (suc room) (c ∷ p) =
    let rest = cons_component c (take_component room p) in
    if c == 0 || c == b'/' then some ([], c ∷ p) else rest

-- `if (*p == '/') p++`
abbrev pub skip_slash : Buffer → Buffer
skip_slash [] = []
skip_slash (c ∷ p) = if c == b'/' then p else c ∷ p

module _ (frame : Buffer) (fs : Ext2) where
  -- One component looked up; the rest of the path follows from its inode.
  abbrev pub resolve_next : Disk → ℕ → (ℕ → Buffer → Option ℤ) → List ℕ × Buffer → Option ℤ
  resolve_next d current next ([], p) = next current (skip_slash p)
  resolve_next d current next (c ∷ text, p) =
      ext2_find_inode frame fs d current ((c ∷ text) ++ 0 ∷ []) none >>= λ r.
      if is_negative r.0 then some (negsuc 0) else next (to_nat r.0) (skip_slash p)

  -- A round takes a byte of the path at least, so its length is fuel enough.
  unfoldable pub resolve_loop : ℕ → Disk → ℕ → Buffer → Option ℤ
  resolve_loop zero d current p = none
  resolve_loop (suc fuel) d current p =
      let next = λ (n : ℕ) (q : Buffer). resolve_loop fuel d n q in
      first p >>= λ c.
      if c == 0 then some (pos current) else (take_component 63 p >>= resolve_next d current next)

  unfoldable pub resolve_from : Disk → ℕ → Buffer → Option ℤ
  resolve_from d cwd_inode path = strcmp path root_path >>= λ c. elim c [
    | pos zero ↦ some (pos 2)
    | _ ↦
        if get_or path 0 0 == b'/'
        then resolve_loop (length path) d 2 (drop 1 path)
        else resolve_loop (length path) d cwd_inode path
  ]

  unfoldable pub fs_resolve_inode : Disk → ℕ → Buffer → Option ℤ
  fs_resolve_inode d cwd_inode path =
      first path >>= λ c. if c == 0 then some (negsuc 0) else resolve_from d cwd_inode path

  -- The place of the last slash in `tmp` decides; `basename` has 64 bytes.
  abbrev pub parent_at : Disk → ℕ → Buffer → Buffer → Option ℕ → Option (ℤ × Buffer)
  parent_at d cwd_inode tmp basename none = strcpy basename tmp >>= λ b. some (pos cwd_inode, b)
  parent_at d cwd_inode tmp basename (some zero) =
      strcpy basename (drop 1 tmp) >>= λ b. some (pos 2, b)
  parent_at d cwd_inode tmp basename (some (suc i)) = do
    b ← strcpy basename (drop (suc (suc i)) tmp)
    n ← fs_resolve_inode d cwd_inode (set tmp (suc i) 0)
    some (n, b)

  unfoldable pub fs_get_parent : Disk → ℕ → Buffer → Buffer → Option (ℤ × Buffer)
  fs_get_parent d cwd_inode path basename = first path >>= λ c.
      if c == 0 then some (negsuc 0, basename) else (do
        tmp ← strncpy (take 128 frame) path 127
        last ← strrchr (set tmp 127 0) (pos b'/')
        parent_at d cwd_inode (set tmp 127 0) basename last)

  -- `partial`, which names the components of `buf` before `total`.
  abbrev pub partial_path : Buffer → ℕ → Buffer
  partial_path buf total = if ltb total 127 then b'/' ∷ (take total buf ++ 0 ∷ []) else root_path

  abbrev pub make_missing : State → ℤ × Buffer → Option State
  make_missing s (parent, base) =
      if not (is_negative parent) && not (get_or base 0 0 == 0)
      then (ext2_mkdir frame fs s (to_nat parent) base >>= λ r. some r.0)
      else some s

  -- One component of the path is made where it is missing.
  unfoldable pub make_one : State → ℕ → Buffer → Option State
  make_one s cwd_inode partial = fs_resolve_inode s.disk cwd_inode partial >>= λ n.
      if is_negative n
      then (fs_get_parent s.disk cwd_inode partial (take 64 frame) >>= make_missing s)
      else some s

  abbrev pub mkdirp_next :
      State → ℕ → Buffer → ℕ → (State → ℕ → Option State) → Option ℕ → Option State
  mkdirp_next s cwd_inode buf p next none =
      strlen (drop p buf) >>= λ len. make_one s cwd_inode (partial_path buf (p + len))
  mkdirp_next s cwd_inode buf p next (some slash) =
      make_one s cwd_inode (partial_path buf (p + slash)) >>= λ s'. next s' (p + slash + 1)

  -- `p` is an offset into `buf`. The slash that is cut off is put back before the next round, so `buf` stays.
  unfoldable pub mkdirp_loop : ℕ → State → ℕ → Buffer → ℕ → Option State
  mkdirp_loop zero s cwd_inode buf p = none
  mkdirp_loop (suc fuel) s cwd_inode buf p =
      let next = λ (s' : State) (q : ℕ). mkdirp_loop fuel s' cwd_inode buf q in
      first (drop p buf) >>= λ c.
      if c == 0
      then some s
      else (strchr (drop p buf) (pos b'/') >>= mkdirp_next s cwd_inode buf p next)

  unfoldable pub fs_mkdirp : State → ℕ → Buffer → Option State
  fs_mkdirp s cwd_inode path = strncpy (take 128 frame) path 127 >>= λ tmp.
      let buf = set tmp 127 0 in
      mkdirp_loop 129 s cwd_inode buf (if get_or buf 0 0 == b'/' then 1 else 0)
