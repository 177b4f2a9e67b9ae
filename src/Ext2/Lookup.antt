-- ===== src/Ext2/Lookup.antt =====
-- Looking up and removing the entries of the directories of kernel/ext2.c.
use krnel.Base.{
  ℕ, zero, suc, ◌+◌, ◌-◌, ◌%◌, ◌^◌, Bool, true, false, Option, none, some, ltb, leb, ◌==◌,
  if◌then◌else◌, length, get_or, drop,
}
use krnel.Base.Int.{ℤ, pos, negsuc, ltb_ℤ}
use krnel.Base.Slices.{patch}
use krnel.CString.{Buffer, ◌>>=◌, strlen}
use krnel.CString.Compare.{memcmp}
use krnel.Ata.Disk.{Disk}
use krnel.Ext2.{
  Ext2, State, ext2_read_block, ext2_write_block, ext2_read_inode, ext2_write_inode, is_int,
  clear_blocks,
}
use krnel.Ext2.Layout.{Inode, bytes_of, load}
use krnel.Ext2.Directory.{rec_len}

-- `memcmp(…) == 0`
abbrev pub is_same : Option ℤ → Option Bool
is_same none = none
is_same (some c) = some (is_int c 0)

abbrev pub branch {ℓ} : {A : Type ℓ} → Option Bool → Option A → Option A → Option A
branch none x y = none
branch (some true) x y = x
branch (some false) x y = y

-- `de->inode && de->name_len == (u8)namelen && memcmp(de->name, name, namelen) == 0`
unfoldable pub is_entry : Buffer → ℕ → Buffer → ℕ → Option Bool
is_entry buf off name len =
    if leb (off + 4) (length buf)
    then if load 4 buf off == 0
      then some false
      else if leb (off + 7) (length buf)
      then if get_or buf (off + 6) 0 == len % 256
        then is_same (memcmp (drop (off + 8) buf) name len)
        else some false
      else none
    else none

-- `if (rec_len == 0)`, where the length can be read.
abbrev pub ends {ℓ} : {A : Type ℓ} → Buffer → ℕ → Option A → Option A → Option A
ends buf off x y =
    if leb (off + 6) (length buf) then if rec_len buf off == 0 then x else y else none

-- The inode of the entry with a name; the loop stops at an entry of no length, so 1024 rounds are enough.
unfoldable pub scan_block : ℕ → Buffer → Buffer → ℕ → ℕ → Option (Option ℕ)
scan_block zero buf name len off = some none
scan_block (suc rounds) buf name len off =
    let next = scan_block rounds buf name len (off + rec_len buf off) in
    if ltb off 1024
    then branch (is_entry buf off name len) (some (some (load 4 buf off)))
        (ends buf off (some none) next)
    else some none

-- The offset of the entry with a name, and of the entry in front of it.
unfoldable pub scan_unlink :
    ℕ → ℕ → Buffer → Buffer → ℕ → ℕ → Option ℕ → Option (Option (ℕ × Option ℕ))
scan_unlink zero block_size buf name len off prev = some none
scan_unlink (suc rounds) block_size buf name len off prev =
    let next = scan_unlink rounds block_size buf name len (off + rec_len buf off) (some off) in
    if ltb off block_size
    then ends buf off (some none)
        (branch (is_entry buf off name len) (some (some (off, prev))) next)
    else some none

-- The block without the entry: the one in front takes its bytes, or its inode becomes 0.
abbrev pub drop_entry : Buffer → ℕ → Option ℕ → Buffer
drop_entry buf off none = patch off (bytes_of 4 0) buf
drop_entry buf off (some prev) =
    patch (prev + 4) (bytes_of 2 (rec_len buf prev + rec_len buf off)) buf

-- `(int)n`
abbrev pub to_int : ℕ → ℤ
to_int n = if ltb n (2 ^ 31) then pos n else negsuc (2 ^ 32 - 1 - n)

abbrev pub found_or : Option (Option ℕ) → Option ℕ → Option (Option ℕ)
found_or next none = next
found_or next (some n) = some (some n)

unfoldable pub find_loop : ℕ → Ext2 → Disk → Inode → Buffer → ℕ → ℕ → Buffer → Option (Option ℕ)
find_loop zero fs d dir name len i buf = some none
find_loop (suc rounds) fs d dir name len i buf =
    if get_or dir.block i 0 == 0
    then some none
    else ext2_read_block fs d (get_or dir.block i 0) buf >>= λ r.
        scan_block 1024 r.1 name len 0 >>= found_or (find_loop rounds fs d dir name len (i + 1) r.1)

-- `frame` is what a fresh `u8 buf[1024]` holds.
module _ (frame : Buffer) (fs : Ext2) where
  -- `*out` after it was filled; `none` is NULL, and an inode that cannot be read changes nothing.
  abbrev pub fill_inode : Option Inode → Option Inode → Option Inode
  fill_inode out none = out
  fill_inode none (some inode) = none
  fill_inode (some old) (some inode) = some inode

  -- The number found, and what `*out` becomes.
  abbrev pub give_inode : Disk → Option Inode → Option ℕ → Option (ℤ × Option Inode)
  give_inode d out none = some (negsuc 0, out)
  give_inode d none (some n) = some (to_int n, none)
  give_inode d (some old) (some n) =
      ext2_read_inode frame fs d n >>= λ r. some (to_int n, fill_inode (some old) r)

  abbrev pub find_in : Disk → Buffer → Option Inode → Option Inode → Option (ℤ × Option Inode)
  find_in d name out none = some (negsuc 0, out)
  find_in d name out (some dir) =
      strlen name >>= λ len. find_loop 12 fs d dir name len 0 frame >>= give_inode d out

  unfoldable pub ext2_find_inode : Disk → ℕ → Buffer → Option Inode → Option (ℤ × Option Inode)
  ext2_find_inode d n name out = ext2_read_inode frame fs d n >>= find_in d name out

  -- The inode of a removed entry is emptied.
  abbrev pub empty_inode : Disk → ℕ → Option Inode → Option Disk
  empty_inode d n none = some d
  empty_inode d n (some inode) =
      ext2_write_inode frame fs d n (record (clear_blocks inode) { links_count = 0; size = 0 })
      >>= λ w. some w.0

  unfoldable pub free_victim : Disk → ℕ → Option Disk
  free_victim d n = ext2_read_inode frame fs d n >>= empty_inode d n

  unfoldable pub unlink_entry : State → ℕ → Buffer → ℕ → Option ℕ → Option (State × ℤ)
  unlink_entry s blk buf off prev = do
    d ← free_victim s.disk (load 4 buf off)
    (d', _) ← ext2_write_block fs d blk (drop_entry buf off prev)
    some (record s { disk = d' }, pos 0)

  -- What is found in block `blk`, or the search in the next one.
  abbrev pub unlink_found :
      State → ℕ → Buffer → Option (State × ℤ) → Option (ℕ × Option ℕ) → Option (State × ℤ)
  unlink_found s blk buf next none = next
  unlink_found s blk buf next (some (off, prev)) = unlink_entry s blk buf off prev

  abbrev pub unlink_in :
      State → ℕ → Buffer → ℕ → (Buffer → Option (State × ℤ)) → ℤ × Buffer → Option (State × ℤ)
  unlink_in s blk name len next (n, buf) =
      if ltb_ℤ (pos 0) n
      then (scan_unlink fs.block_size fs.block_size buf name len 0 none
          >>= unlink_found s blk buf (next buf))
      else next buf

  unfoldable pub unlink_loop : ℕ → State → Inode → Buffer → ℕ → ℕ → Buffer → Option (State × ℤ)
  unlink_loop zero s dir name len i buf = some (s, negsuc 0)
  unlink_loop (suc rounds) s dir name len i buf =
      let next = λ (b : Buffer). unlink_loop rounds s dir name len (i + 1) b in
      if get_or dir.block i 0 == 0
      then next buf
      else ext2_read_block fs s.disk (get_or dir.block i 0) buf
        >>= unlink_in s (get_or dir.block i 0) name len next

  abbrev pub unlink_from : State → Buffer → Option Inode → Option (State × ℤ)
  unlink_from s name none = some (s, negsuc 0)
  unlink_from s name (some dir) = strlen name >>= λ len. unlink_loop 12 s dir name len 0 frame

  -- `!*name` is the result -1; the pointers are not NULL.
  unfoldable pub ext2_unlink : State → ℕ → Buffer → Option (State × ℤ)
  ext2_unlink s n name =
      if length name == 0
      then none
      else if get_or name 0 0 == 0
      then some (s, negsuc 0)
      else (ext2_read_inode frame fs s.disk n >>= unlink_from s name)
