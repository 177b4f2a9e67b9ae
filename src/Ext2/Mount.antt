-- ===== src/Ext2/Mount.antt =====
-- Formatting and mounting of kernel/ext2.c. What `kmalloc` gives for the two requests of `ext2_mount` are
-- arguments, `none` being NULL.
pub mod Faults
use krnel.Base.{
  ℕ, zero, suc, ◌+◌, ◌-◌, ◌*◌, ◌/◌, ◌%◌, ◌^◌, ◌||◌, Option, none, some, [], ◌∷◌, ◌++◌, ◌==◌,
  if◌then◌else◌, take, drop, replicate,
}
use krnel.Base.Int.{ℤ, pos, negsuc}
use krnel.Base.Slices.{patch}
use krnel.CString.{Buffer, ◌>>=◌}
use krnel.Ata.Disk.{Disk, read_sectors, write_sectors}
use krnel.Ext2.{Ext2, is_int, ext2_read_block}
use krnel.Ext2.Layout.{descriptors, descriptor_bytes}
use krnel.Ext2.Layout.Superblock.{Superblock, encode_superblock, decode_superblock}

abbrev pub ext2_super_magic : ℕ
ext2_super_magic = 0xEF53

-- The superblock that `ext2_format` makes for a number of sectors that is not 0.
abbrev pub format_super : ℕ → Superblock
format_super total_sectors =
    let blocks_count = total_sectors / 2 in
    let num_groups = (blocks_count + 8192 - 1) % 2 ^ 32 / 8192 in
    record {
      inodes_count = num_groups * 2048 % 2 ^ 32;
      blocks_count = blocks_count;
      free_blocks_count = blocks_count * 95 % 2 ^ 32 / 100;
      free_inodes_count = (num_groups * 2048 + 2 ^ 32 - 10) % 2 ^ 32;
      first_data_block = 1;
      log_block_size = 0;
      log_frag_size = 0;
      blocks_per_group = 8192;
      frags_per_group = 0;
      inodes_per_group = 2048;
      mtime = 0;
      wtime = 0;
      mnt_count = 0;
      max_mnt_count = 0;
      magic = ext2_super_magic;
      state = 1;
      errors = 0;
      minor_rev_level = 0;
      lastcheck = 0;
      checkinterval = 0;
      creator_os = 0;
      rev_level = 0;
      def_resuid = 0;
      def_resgid = 0;
      first_ino = 0;
      inode_size = 128;
      block_group_nr = 0;
      volume_name = b'k' ∷ b'r' ∷ b'n' ∷ b'e' ∷ b'l' ∷ replicate 11 0;
    }

-- The 1024 bytes that `ext2_format` writes.
unfoldable pub format_buffer : ℕ → Buffer
unfolding encode_superblock
format_buffer total_sectors =
    patch 512 (encode_superblock (format_super total_sectors)) (replicate 1024 0)

-- The result is 0 also where nothing could be written.
unfoldable pub ext2_format : Disk → ℕ → ℕ → Option (Disk × ℤ)
ext2_format d partition_start total_sectors =
    let total = if total_sectors == 0 then 131072 else total_sectors in
    write_sectors d ((partition_start + 2) % 2 ^ 32) 2 (format_buffer total) >>= λ r.
    some (r.0, pos 0)

-- The fields of a mounted file system that are computed from the superblock; a division by 0 is `none`.
unfoldable pub mounted : ℕ → Superblock → Option Ext2
mounted partition_start sb =
    let block_size = 1024 * 2 ^ (sb.log_block_size % 32) % 2 ^ 32 in
    if sb.blocks_per_group == 0 || block_size == 0
    then none
    else some (record {
      partition_start = partition_start;
      sb = sb;
      bgdt = [];
      block_size = block_size;
      sectors_per_block = block_size / 512;
      inode_size = sb.inode_size;
      num_groups =
          (sb.blocks_count + sb.blocks_per_group + 2 ^ 32 - 1) % 2 ^ 32 / sb.blocks_per_group;
    })

-- `ext2_read_block(fs, bgdt_block + i, (u8*)fs->bgdt + i * fs->block_size)` for each `i`.
unfoldable pub read_groups : ℕ → Ext2 → Disk → ℕ → ℕ → Buffer → Option Buffer
read_groups zero fs d first i table = some table
read_groups (suc rounds) fs d first i table =
    ext2_read_block fs d ((first + i) % 2 ^ 32) (drop (i * fs.block_size) table) >>= λ r.
    read_groups rounds fs d first (i + 1) (take (i * fs.block_size) table ++ r.1)

-- The table of groups read into the memory given for it; `some none` is the result -1.
abbrev pub with_table : Ext2 → Disk → ℕ → Option Buffer → Option (Option Ext2)
with_table fs d bytes none = some none
with_table fs d bytes (some table) =
    let first = if fs.block_size == 1024 then 2 else 1 in
    read_groups ((bytes + fs.block_size - 1) % 2 ^ 32 / fs.block_size) fs d first 0 table >>= λ t.
    some (some (record fs { bgdt = descriptors fs.num_groups t 0 }))

unfoldable pub mount_groups : Ext2 → Disk → (ℕ → Option Buffer) → Option (Option Ext2)
mount_groups fs d kmalloc =
    let bytes = fs.num_groups * descriptor_bytes % 2 ^ 32 in with_table fs d bytes (kmalloc bytes)

abbrev pub mount_with : Disk → ℕ → (ℕ → Option Buffer) → Superblock → Option (Disk × Option Ext2)
mount_with d partition_start kmalloc sb =
    mounted partition_start sb >>= λ fs. mount_groups fs d kmalloc >>= λ r. some (d, r)

-- The disk as it is, or formatted, and the superblock read from it.
abbrev pub mount_super : Disk → ℕ → (ℕ → Option Buffer) → Buffer → Option (Disk × Option Ext2)
mount_super d partition_start kmalloc sb_buf =
    if (decode_superblock sb_buf 512).magic == ext2_super_magic
    then mount_with d partition_start kmalloc (decode_superblock sb_buf 512)
    else (ext2_format d partition_start 0 >>= λ f.
        read_sectors f.0 ((partition_start + 2) % 2 ^ 32) 2 sb_buf >>= λ r.
        mount_with f.0 partition_start kmalloc (decode_superblock r.1 512))

-- `frame` is what `sb_buf` holds at first.
unfoldable pub ext2_mount :
    Buffer → Disk → ℕ → Option Buffer → (ℕ → Option Buffer) → Option (Disk × Option Ext2)
ext2_mount frame d partition_start none kmalloc = some (d, none)
ext2_mount frame d partition_start (some mem) kmalloc =
    read_sectors d ((partition_start + 2) % 2 ^ 32) 2 frame >>= λ r.
    if is_int r.0 1024 then mount_super d partition_start kmalloc r.1 else some (d, none)
