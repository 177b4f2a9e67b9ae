-- ===== src/Fs/Listing.antt =====
-- `fs_list` of kernel/fs.c: the names of the current directory, one to a line.
pub mod Bounds
use krnel.Base.{
  ℕ, zero, suc, ◌+◌, ◌-◌, Bool, false, Option, none, some, List, [], ◌∷◌, ◌++◌, ltb, leb, ◌==◌,
  if◌then◌else◌, length, get_elem?, get_or, take, drop,
}
use krnel.Base.Int.{ℤ, pos, negsuc, ltb_ℤ}
use krnel.CString.{Buffer, ◌>>=◌}
use krnel.Ata.Disk.{Disk}
use krnel.Ext2.{Ext2, ext2_read_inode, ext2_read_block}
use krnel.Ext2.Layout.{Inode, load}
use krnel.Ext2.Directory.{rec_len}
use krnel.Ext2.Lookup.{branch}
use krnel.Fs.{FileSystem, on_fs}

-- What is written in front of `p`, the room `left` and the number of names.
pub record Listed : Type 0 where
  pub out : List ℕ
  pub left : ℕ
  pub count : ℕ

-- Is the name of `n` bytes "." or ".."?
abbrev pub is_dots : Buffer → ℕ → ℕ → Option Bool
is_dots blk at n =
    if n == 1
    then (get_elem? blk at >>= λ c. some (c == b'.'))
    else if n == 2
    then (get_elem? blk at >>= λ c.
        if c == b'.' then (get_elem? blk (at + 1) >>= λ d. some (d == b'.')) else some false)
    else some false

-- The line of an entry: its name, a slash behind that of a directory, and a newline.
abbrev pub line_of : Buffer → ℕ → List ℕ
line_of blk off =
    take (get_or blk (off + 6) 0) (drop (off + 8) blk)
    ++ (if get_or blk (off + 7) 0 == 2 then b'/' ∷ b'\n' ∷ [] else b'\n' ∷ [])

abbrev pub add_line : Listed → List ℕ → Listed
add_line p line = record { out = p.out ++ line; left = p.left - length line; count = p.count + 1 }

-- A name that fits is listed; the others end the block.
abbrev pub list_name : Buffer → ℕ → ℕ → Listed → (Listed → Option Listed) → Option Listed
list_name blk off n p next =
    if leb p.left (n + 2)
    then some p
    else if leb (off + 8 + n) (length blk)
    then next (add_line p (line_of blk off))
    else none

-- An entry with an inode.
abbrev pub list_used : Buffer → ℕ → Listed → (Listed → Option Listed) → Option Listed
list_used blk off p next =
    let n = get_or blk (off + 6) 0 in
    if leb (off + 7) (length blk)
    then if rec_len blk off == 0
      then some p
      else branch (is_dots blk (off + 8) n) (next p) (list_name blk off n p next)
    else none

-- One block; the loop goes on by the length of an entry, which is not 0, so 1024 rounds are enough.
unfoldable pub list_block : ℕ → Buffer → ℕ → Listed → Option Listed
list_block zero blk off p = some p
list_block (suc rounds) blk off p =
    let next = λ (q : Listed). list_block rounds blk (off + rec_len blk off) q in
    if ltb off 1024
    then if leb (off + 4) (length blk)
      then if load 4 blk off == 0 then some p else list_used blk off p next
      else none
    else some p

abbrev pub list_read : (Buffer → Listed → Option Listed) → Listed → ℤ × Buffer → Option Listed
list_read next p (n, blk) =
    if ltb_ℤ (pos 0) n then (list_block 1024 blk 0 p >>= next blk) else next blk p

-- `for (i = 0; i < 12 && dir.block[i]; i++)`
unfoldable pub list_loop : ℕ → Ext2 → Disk → Inode → ℕ → Buffer → Listed → Option Listed
list_loop zero fs d dir i blk p = some p
list_loop (suc rounds) fs d dir i blk p =
    if get_or dir.block i 0 == 0
    then some p
    else (ext2_read_block fs d (get_or dir.block i 0) blk
        >>= list_read (λ b q. list_loop rounds fs d dir (i + 1) b q) p)

-- The text with its NUL over the front of the buffer.
abbrev pub close_list : Buffer → Listed → Option (ℤ × Buffer)
close_list buffer p =
    if ltb (length p.out) (length buffer)
    then some (
      (if p.count == 0 then pos 0 else pos (length p.out)),
      p.out ++ 0 ∷ drop (length p.out + 1) buffer,
    )
    else none

module _ (frame : Buffer) where
  abbrev pub list_dir : Ext2 → Disk → Buffer → ℕ → Option Inode → Option (ℤ × Buffer)
  list_dir fs d buffer size none = some (negsuc 0, buffer)
  list_dir fs d buffer size (some dir) =
      list_loop 12 fs d dir 0 frame (record { out = []; left = size - 1; count = 0 })
      >>= close_list buffer

  unfoldable pub fs_list : FileSystem → Buffer → ℕ → Option (ℤ × Buffer)
  fs_list f buffer size = on_fs f.fs (some (negsuc 0, buffer)) λ fs.
      if ltb size 2
      then some (negsuc 0, buffer)
      else (ext2_read_inode frame fs f.ext.disk f.cwd_inode >>= list_dir fs f.ext.disk buffer size)
