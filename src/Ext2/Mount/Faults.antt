-- ===== src/Ext2/Mount/Faults.antt =====
-- `ext2_mount` of kernel/ext2.c on a disk that has not been formatted.
use krnel.Base.{
  ℕ, suc, ◌+◌, ◌*◌, ◌%◌, ◌^◌, ◌≤◌, ◌<◌, ◌≡◌, ◌≢◌, refl, ◌∙◌, ap, true, false, none, some, Option,
  ◌==◌, leb, length, take, [], ◌++◌, arith, if◌then◌else◌,
}
use krnel.Base.Int.{pos}
use krnel.CString.{Buffer, ◌>>=◌}
use krnel.Ata.Disk.{Disk, range, put_range, accepts, read_sectors}
use krnel.Ata.Disk.Laws.{
  accepts_lem, read_sectors_lem, write_sectors_lem, range-put_range, length-range,
}
use krnel.Ext2.{Ext2, is_int, ext2_read_block}
use krnel.Ext2.Blocks.{drop-all, append_nil}
use krnel.Ext2.Layout.{load, descriptors}
use krnel.Ext2.Layout.Superblock.{decode_superblock}
use krnel.Ext2.Mount.{
  format_super, format_buffer, ext2_format, mounted, read_groups, mount_groups, with_table,
  mount_with, ext2_super_magic, mount_super, ext2_mount,
}

-- What a mount reads after a format is the superblock that was made.
decode-format : decode_superblock (format_buffer 131072) 512 ≡ format_super 131072
unfolding decode_superblock format_buffer load
decode-format = refl

length-format : length (format_buffer 131072) ≡ 1024
unfolding format_buffer
length-format = refl

-- A transfer into a buffer that is too short leaves it.
read_overflow :
    (d : Disk) (lba count : ℕ) (buffer : Buffer)
    → accepts d lba count ≡ true
    → length buffer < count * 512
    → read_sectors d lba count buffer ≡ none
unfolding read_sectors
read_overflow d lba count buffer taken h =
    let short : leb (count * 512) (length buffer) ≡ false = ground arith in rw (taken, short)

read_groups_overflow :
    (k : ℕ) (fs : Ext2) (d : Disk) (first : ℕ) (table : Buffer)
    → ext2_read_block fs d ((first + 0) % 2 ^ 32) table ≡ none
    → read_groups (suc k) fs d first 0 table ≡ none
unfolding read_groups
read_groups_overflow k fs d first table e =
    let z : 0 * fs.block_size ≡ 0 = omega arith in
    rw z (ap (λ o. o >>= λ r. read_groups k fs d first (0 + 1) (take 0 table ++ r.1)) e)

-- What a mount does on the file system that a format of 64 MB makes.
abbrev formatted : Ext2
formatted = record {
  partition_start = 0;
  sb = format_super 131072;
  bgdt = [];
  block_size = 1024;
  sectors_per_block = 2;
  inode_size = 128;
  num_groups = 8;
}

mounted-format : mounted 0 (format_super 131072) ≡ some formatted
unfolding mounted
mounted-format = refl

groups_overflow :
    (d : Disk) (kmalloc : ℕ → Option Buffer) (table : Buffer)
    → kmalloc 160 ≡ some table
    → length table ≡ 160
    → accepts d 4 2 ≡ true
    → mount_groups formatted d kmalloc ≡ none
unfolding mount_groups ext2_read_block
groups_overflow d kmalloc table e l taken =
    ap (with_table formatted d 160) e
    ∙ ap (λ o. o >>= λ t. some (some (record formatted { bgdt = descriptors 8 t 0 })))
        (read_groups_overflow 0 formatted d 2 table (read_overflow d 4 2 table taken (omega arith)))

mount_with-format :
    (d : Disk) (kmalloc : ℕ → Option Buffer) (table : Buffer)
    → kmalloc 160 ≡ some table
    → length table ≡ 160
    → accepts d 4 2 ≡ true
    → mount_with d 0 kmalloc (format_super 131072) ≡ none
mount_with-format d kmalloc table e l taken =
    ap (λ o. o >>= λ fs. mount_groups fs d kmalloc >>= λ r. some (d, r)) mounted-format
    ∙ ap (λ o. o >>= λ r. some (d, r)) (groups_overflow d kmalloc table e l taken)

super_blank :
    (d : Disk) (sb_buf table : Buffer) (kmalloc : ℕ → Option Buffer)
    → d.present ≢ 0
    → 6 ≤ d.sectors
    → d.sectors ≤ 2 ^ 28
    → length sb_buf ≡ 1024
    → (decode_superblock sb_buf 512).magic ≢ ext2_super_magic
    → kmalloc 160 ≡ some table
    → length table ≡ 160
    → mount_super d 0 kmalloc sb_buf ≡ none
unfolding ext2_format
super_blank d sb_buf table kmalloc p h q whole blank e l =
    let other : ((decode_superblock sb_buf 512).magic == ext2_super_magic) ≡ false = ground arith in
    let b = format_buffer 131072 in
    let d' : Disk = record d { sector = put_range d.sector 2 2 b } in
    let written : ext2_format d 0 0 ≡ some (d', pos 0) =
      ap (λ o. o >>= λ r. some (r.0, pos 0))
        (write_sectors_lem d 2 2 b (accepts_lem d 2 2 p (omega arith) (omega arith) q) (omega arith)
          (omega (arith, length-format))) in
    let again : read_sectors d' 2 2 sb_buf ≡ some (pos 1024, b) =
      read_sectors_lem d' 2 2 sb_buf (accepts_lem d' 2 2 p (omega arith) (omega arith) q)
        (omega arith) (omega arith)
      ∙ ap (λ x. some (pos 1024, range d'.sector 2 2 ++ x)) (drop-all 1024 sb_buf (omega arith))
      ∙ ap (λ x. some (pos 1024, x))
          (append_nil (range d'.sector 2 2) ∙ range-put_range d.sector 2 2 b length-format) in
    rw other (
      ap
        (λ o. o >>= λ f.
          read_sectors f.0 2 2 sb_buf >>= λ r. mount_with f.0 0 kmalloc (decode_superblock r.1 512))
        written
      ∙ ap (λ o. o >>= λ r. mount_with d' 0 kmalloc (decode_superblock r.1 512)) again
      ∙ ap (mount_with d' 0 kmalloc) decode-format
      ∙ mount_with-format d' kmalloc table e l (accepts_lem d' 4 2 p (omega arith) (omega arith) q))

-- Mounting a disk of six sectors or more without a superblock ends in an access outside an object: the disk
-- is formatted, and blocks of 1024 bytes are then read into the 160 bytes that kmalloc gives for the table of
-- groups.
pub ext2_mount-blank :
    (frame : Buffer) (d : Disk) (mem table : Buffer) (kmalloc : ℕ → Option Buffer)
    → d.present ≢ 0
    → 6 ≤ d.sectors
    → d.sectors ≤ 2 ^ 28
    → ((s : ℕ) → length (d.sector s) ≡ 512)
    → length frame ≡ 1024
    → (decode_superblock (range d.sector 2 2) 512).magic ≢ ext2_super_magic
    → kmalloc 160 ≡ some table
    → length table ≡ 160
    → ext2_mount frame d 0 (some mem) kmalloc ≡ none
unfolding ext2_mount
ext2_mount-blank frame d mem table kmalloc p h q full whole blank e l =
    let first : read_sectors d 2 2 frame ≡ some (pos 1024, range d.sector 2 2) =
      read_sectors_lem d 2 2 frame (accepts_lem d 2 2 p (omega arith) (omega arith) q) (omega arith)
        (omega arith)
      ∙ ap (λ x. some (pos 1024, range d.sector 2 2 ++ x)) (drop-all 1024 frame (omega arith))
      ∙ ap (λ x. some (pos 1024, x)) (append_nil (range d.sector 2 2)) in
    ap (λ o. o >>= λ r. if is_int r.0 1024 then mount_super d 0 kmalloc r.1 else some (d, none))
      first
    ∙ super_blank d (range d.sector 2 2) table kmalloc p h q (length-range d.sector 2 2 full) blank
        e l
