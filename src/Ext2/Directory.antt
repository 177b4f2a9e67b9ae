-- ===== src/Ext2/Directory.antt =====
-- Adding to the directories of kernel/ext2.c: entries `ext2_dirent_t` in the blocks of a directory's inode, with the
-- inode at 0, `rec_len` at 4, `name_len` at 6, `file_type` at 7 and the name from 8 on.
use krnel.Base.{
  ℕ, zero, suc, ◌+◌, ◌-◌, ◌%◌, ◌^◌, Option, none, some, ◌∷◌, ◌++◌, ltb, leb, ◌==◌, if◌then◌else◌,
  length, get_or, set, take, drop, replicate,
}
use krnel.Base.Int.{ℤ, pos, negsuc}
use krnel.CString.{Buffer, ◌>>=◌, strlen, strcpy, memset}
use krnel.Ext2.{
  Ext2, State, ext2_read_block, ext2_write_block, ext2_alloc_block, ext2_alloc_inode,
  ext2_read_inode, ext2_write_inode,
}
use krnel.Ext2.Layout.{Inode, bytes_of, load}

abbrev pub rec_len : Buffer → ℕ → ℕ
rec_len buf off = load 2 buf (off + 4)

-- The first offset from `off` on of an entry without a length; `some none` if there is none. An entry has 8
-- bytes at least, so `block_size` rounds are enough.
unfoldable pub find_slot : ℕ → ℕ → Buffer → ℕ → Option (Option ℕ)
find_slot zero block_size buf off = some none
find_slot (suc rounds) block_size buf off =
    let next = find_slot rounds block_size buf (off + rec_len buf off) in
    if ltb off block_size
    then if leb (off + 6) (length buf)
      then if ltb (rec_len buf off) 8 then some (some off) else next
      else none
    else some none

-- The block with a new entry at `off`, which takes the rest of it.
unfoldable pub put_dirent : ℕ → Buffer → ℕ → Buffer → ℕ → ℕ → Option Buffer
put_dirent block_size buf off name child file_type = do
  len ← strlen name
  rest ← strcpy (drop (off + 8) buf) name
  some (
      take off buf
      ++ (bytes_of 4 child ++ (bytes_of 2 (block_size - off) ++ ((len % 256) ∷ file_type ∷ rest))))

abbrev pub zero_inode : Inode
zero_inode = record {
  mode = 0;
  uid = 0;
  size = 0;
  atime = 0;
  ctime = 0;
  mtime = 0;
  gid = 0;
  links_count = 0;
  blocks = 0;
  block = replicate 15 0;
}

abbrev pub new_directory : ℕ → Inode
new_directory block_num = record zero_inode {
  mode = 0x41ED;
  links_count = 2;
  size = 1024;
  block = set zero_inode.block 0 block_num;
}

abbrev pub new_file : ℕ → Inode
new_file mode = record zero_inode { mode = mode; links_count = 1 }

-- `frame` is what a fresh `u8 buf[1024]` holds.
module _ (frame : Buffer) (fs : Ext2) where
  -- The block of pointer `i`, zeroed if it is new; no block is the result -1.
  unfoldable pub open_block : State → Inode → ℕ → Buffer → Option (State × Option (Inode × Buffer))
  open_block s dir i buf =
      let blk = get_or dir.block i 0 in
      let (new, s') = ext2_alloc_block s in
      let dir' : Inode = record dir {
        block = set dir.block i new;
        size = (dir.size + fs.block_size) % 2 ^ 32;
      } in
      if blk == 0
      then if new == 0 then some (s', none) else (do
        buf' ← memset buf (pos 0) fs.block_size
        (d, _) ← ext2_write_block fs s'.disk new buf'
        some (record s' { disk = d }, some (dir', buf')))
      else ext2_read_block fs s.disk blk buf >>= λ r. some (s, some (dir, r.1))

  -- The block and the directory's inode written with the new entry.
  unfoldable pub enter : State → ℕ → Inode → ℕ → Buffer → ℕ → Buffer → ℕ → ℕ → Option (State × ℤ)
  enter s n dir i buf off name child file_type = do
    buf' ← put_dirent fs.block_size buf off name child file_type
    (d, _) ← ext2_write_block fs s.disk (get_or dir.block i 0) buf'
    (d', _) ← ext2_write_inode frame fs d n dir
    some (record s { disk = d' }, pos 0)

  -- The search goes on behind a full block; a block that cannot be had ends it.
  abbrev pub use_slot :
      State
      → ℕ
      → ℕ
      → Buffer
      → ℕ
      → ℕ
      → Inode
      → Buffer
      → Option (State × ℤ)
      → Option ℕ
      → Option (State × ℤ)
  use_slot s n i name child file_type dir buf next none = next
  use_slot s n i name child file_type dir buf next (some off) =
      enter s n dir i buf off name child file_type

  abbrev pub use_block :
      ℕ
      → ℕ
      → Buffer
      → ℕ
      → ℕ
      → (State → Inode → Buffer → Option (State × ℤ))
      → State × Option (Inode × Buffer)
      → Option (State × ℤ)
  use_block n i name child file_type next (s, none) = some (s, negsuc 0)
  use_block n i name child file_type next (s, some (dir, buf)) =
      find_slot fs.block_size fs.block_size buf 0
      >>= use_slot s n i name child file_type dir buf (next s dir buf)

  unfoldable pub add_loop : ℕ → State → ℕ → Inode → ℕ → Buffer → Buffer → ℕ → ℕ → Option (State × ℤ)
  add_loop zero s n dir i buf name child file_type = some (s, negsuc 0)
  add_loop (suc rounds) s n dir i buf name child file_type =
      let next = λ (s' : State) (dir' : Inode) (buf' : Buffer).
        add_loop rounds s' n dir' (i + 1) buf' name child file_type in
      open_block s dir i buf >>= use_block n i name child file_type next

  abbrev pub add_in : State → ℕ → Buffer → ℕ → ℕ → Option Inode → Option (State × ℤ)
  add_in s n name child file_type none = some (s, negsuc 0)
  add_in s n name child file_type (some dir) = add_loop 12 s n dir 0 frame name child file_type

  unfoldable pub ext2_add_dirent : State → ℕ → Buffer → ℕ → ℕ → Option (State × ℤ)
  ext2_add_dirent s n name child file_type =
      ext2_read_inode frame fs s.disk n >>= add_in s n name child file_type

  -- `mode` of a directory is `EXT2_S_IFDIR | 0755`; what `ext2_add_dirent` returns is not looked at.
  unfoldable pub ext2_mkdir : State → ℕ → Buffer → Option (State × ℤ)
  ext2_mkdir s parent name =
      let (inode_num, s₁) = ext2_alloc_inode s in
      let (block_num, s₂) = ext2_alloc_block s₁ in
      if leb (2 ^ 31) inode_num
      then some (s₁, negsuc 0)
      else if leb (2 ^ 31) block_num
      then some (s₂, negsuc 0)
      else do
        (d, _) ← ext2_write_inode frame fs s₂.disk inode_num (new_directory block_num)
        (s₃, _) ← ext2_add_dirent (record s₂ { disk = d }) parent name inode_num 2
        some (s₃, pos inode_num)

  unfoldable pub ext2_create_file : State → ℕ → Buffer → ℕ → Option (State × ℤ)
  ext2_create_file s n name mode =
      let (inode_num, s₁) = ext2_alloc_inode s in
      if leb (2 ^ 31) inode_num then some (s₁, negsuc 0) else do
        (d, _) ← ext2_write_inode frame fs s₁.disk inode_num (new_file mode)
        (s₂, _) ← ext2_add_dirent (record s₁ { disk = d }) n name inode_num 1
        some (s₂, pos inode_num)
