-- ===== src/Ext2.antt =====
-- kernel/ext2.c: the second extended file system, on the disk of Ata/Disk. The blocks and inodes of a
-- mounted file system, and the contents of files; Ext2/Directory has the entries of directories and
-- Ext2/Mount formatting and mounting. `none` is an access outside an object.
mod Tests
pub mod Layout
pub mod Blocks
pub mod Inodes
pub mod Table
pub mod Files
pub mod Directory
pub mod Lookup
pub mod Slots
pub mod Mount
use krnel.Base.{
  ℕ, zero, suc, ◌+◌, ◌-◌, ◌*◌, ◌/◌, ◌%◌, ◌^◌, min, Bool, true, false, ◌&&◌, ◌||◌, Option, none,
  some, List, [], ◌∷◌, ◌++◌, ltb, leb, ◌==◌, if◌then◌else◌, length, get_elem?, get_or, set, take,
  drop, replicate,
}
use krnel.Base.Int.{ℤ, pos, negsuc}
use krnel.Base.Slices.{patch}
use krnel.CString.{Buffer, ◌>>=◌}
use krnel.Ata.Disk.{Disk, read_sectors, write_sectors}
use Layout.{Inode, inode_bytes, encode_inode, decode_inode, Descriptor}
use Layout.Superblock.{Superblock}

-- `ext2_fs_internal_t` without the pointer to the disk, which is the state's.
pub record Ext2 : Type 0 where
  pub partition_start : ℕ
  pub sb : Superblock
  pub bgdt : List Descriptor
  pub block_size : ℕ
  pub sectors_per_block : ℕ
  pub inode_size : ℕ
  pub num_groups : ℕ

-- The disk and the static counters of `ext2_alloc_block` and `ext2_alloc_inode`.
pub record State : Type 0 where
  pub disk : Disk
  pub next_block : ℕ
  pub next_inode : ℕ

abbrev pub block_to_lba : Ext2 → ℕ → ℕ
block_to_lba fs n = (fs.partition_start + n * fs.sectors_per_block) % 2 ^ 32

unfoldable pub ext2_read_block : Ext2 → Disk → ℕ → Buffer → Option (ℤ × Buffer)
ext2_read_block fs d n buffer =
    read_sectors d (block_to_lba fs n) (fs.sectors_per_block % 256) buffer

unfoldable pub ext2_write_block : Ext2 → Disk → ℕ → Buffer → Option (Disk × ℤ)
ext2_write_block fs d n buffer =
    write_sectors d (block_to_lba fs n) (fs.sectors_per_block % 256) buffer

unfoldable pub ext2_alloc_block : State → ℕ × State
ext2_alloc_block s = (s.next_block, record s { next_block = (s.next_block + 1) % 2 ^ 32 })

unfoldable pub ext2_alloc_inode : State → ℕ × State
ext2_alloc_inode s = (s.next_inode, record s { next_inode = (s.next_inode + 1) % 2 ^ 32 })

-- `n == (int)k`
abbrev pub is_int : ℤ → ℕ → Bool
is_int (pos n) k = n == k
is_int (negsuc n) k = false

-- The block of the inode table that holds the inode with an index in its group, and its offset there.
abbrev pub place_in : Descriptor → ℕ → ℕ → ℕ → ℕ × ℕ
place_in group index inode_size block_size =
    let byte_off = index * inode_size % 2 ^ 32 in
    ((group.inode_table + byte_off / block_size) % 2 ^ 32, byte_off % block_size)

-- `n` is not 0.
unfoldable pub inode_place : Ext2 → ℕ → Option (ℕ × ℕ)
inode_place fs n =
    if fs.sb.inodes_per_group == 0 || fs.block_size == 0
    then none
    else elim (get_elem? fs.bgdt ((n - 1) / fs.sb.inodes_per_group)) [
      | none ↦ none
      | some group ↦
          some (place_in group ((n - 1) % fs.sb.inodes_per_group) fs.inode_size fs.block_size)
    ]

-- `memcpy(dest + at, src + from, n)`
abbrev pub copy_part : Buffer → ℕ → Buffer → ℕ → ℕ → Option Buffer
copy_part dest at src from n =
    if leb (at + n) (length dest) && leb (from + n) (length src)
    then some (patch at (take n (drop from src)) dest)
    else none

abbrev pub take_inode : Ext2 → ℕ → ℤ × Buffer → Option (Option Inode)
take_inode fs off (n, buf) =
    if is_int n fs.block_size
    then if leb (off + inode_bytes) (length buf) then some (some (decode_inode buf off)) else none
    else some none

-- The first twelve pointers set to 0; `ext2_free_block` does nothing.
abbrev pub clear_blocks : Inode → Inode
clear_blocks inode = record inode { block = replicate 12 0 ++ drop 12 inode.block }

-- `frame` is what a fresh `u8 buf[1024]` holds.
module _ (frame : Buffer) where
  -- `some none` is the result -1.
  unfoldable pub ext2_read_inode : Ext2 → Disk → ℕ → Option (Option Inode)
  ext2_read_inode fs d n = if n == 0 then some none else do
    (block, off) ← inode_place fs n
    r ← ext2_read_block fs d block frame
    take_inode fs off r

  -- A block that cannot be read is not noticed.
  unfoldable pub ext2_write_inode : Ext2 → Disk → ℕ → Inode → Option (Disk × ℤ)
  ext2_write_inode fs d n inode = if n == 0 then some (d, negsuc 0) else do
    (block, off) ← inode_place fs n
    (_, buf) ← ext2_read_block fs d block frame
    buf' ← copy_part buf off (encode_inode inode) 0 inode_bytes
    ext2_write_block fs d block buf'

  -- `rounds` counts the pointers left, 12 - `block_num`.
  unfoldable pub read_loop : ℕ → Ext2 → Disk → Inode → ℕ → ℕ → ℕ → ℕ → Buffer → Option (ℕ × Buffer)
  read_loop zero fs d inode size block_num block_off bytes_read buffer = some (bytes_read, buffer)
  read_loop (suc rounds) fs d inode size block_num block_off bytes_read buffer =
      if ltb bytes_read size
      then if get_or inode.block block_num 0 == 0 then some (bytes_read, buffer) else (do
        (_, blk) ← ext2_read_block fs d (get_or inode.block block_num 0) frame
        let to_copy = min (fs.block_size - block_off) (size - bytes_read)
        buffer' ← copy_part buffer bytes_read blk block_off to_copy
        read_loop rounds fs d inode size (block_num + 1) 0 (bytes_read + to_copy) buffer')
      else some (bytes_read, buffer)

  unfoldable pub ext2_read_file : Ext2 → Disk → Inode → ℕ → ℕ → Buffer → Option (ℕ × Buffer)
  ext2_read_file fs d inode offset size buffer =
      if fs.block_size == 0
      then none
      else read_loop (12 - offset / fs.block_size) fs d inode size (offset / fs.block_size)
          (offset % fs.block_size) 0 buffer

unfoldable pub write_loop :
    ℕ → Ext2 → State → Inode → ℕ → ℕ → ℕ → Buffer → Option (State × Inode × ℕ × ℕ)
unfolding ext2_alloc_block
write_loop zero fs s inode size b written buffer = some (s, inode, b, written)
write_loop (suc rounds) fs s inode size b written buffer =
    let (blk, s') = ext2_alloc_block s in
    let todo = min fs.block_size (size - written) in
    if ltb written size
    then if blk == 0 then some (s', inode, b, written) else (do
      temp ← copy_part (replicate 1024 0) 0 buffer written todo
      (d, _) ← ext2_write_block fs s'.disk blk temp
      write_loop rounds fs (record s' { disk = d }) (record inode { block = set inode.block b blk })
          size (b + 1) (written + todo) buffer)
    else some (s, inode, b, written)

abbrev pub close_file : Ext2 → State × Inode × ℕ × ℕ → Option (State × Inode × ℤ)
close_file fs (s, inode, b, written) =
    some
      (s, record inode { size = written; blocks = b * (fs.block_size / 512) % 2 ^ 32 }, pos written)

unfoldable pub ext2_write_file : Ext2 → State → Inode → ℕ → ℕ → Buffer → Option (State × Inode × ℤ)
ext2_write_file fs s inode offset size buffer =
    if offset == 0
    then write_loop 12 fs s (clear_blocks inode) size 0 0 buffer >>= close_file fs
    else some (s, inode, negsuc 0)
