-- ===== src/Ext2/Table.antt =====
-- The inode table of a group.
use mathlib.Core.Bool.{◌||◌}
use krnel.Base.{
  ℕ, ◌+◌, ◌-◌, ◌*◌, ◌/◌, ◌%◌, ◌^◌, ◌≤◌, ◌<◌, ◌≡◌, ◌≢◌, sym, ◌∙◌, ap, ap₂, some, arith, length,
  get_elem?, ◌⊎◌, inl, inr, Bool-cases, ltb, ◌==◌, if◌then◌else◌, false, ==_iff, subst,
}
use krnel.Base.Int.{pos}
use krnel.Base.Slices.{patch}
use krnel.CString.{Buffer}
use krnel.Ata.Disk.{Disk}
use krnel.Ext2.{Ext2, inode_place, place_in, ext2_read_inode, ext2_write_inode}
use krnel.Ext2.Layout.{Inode, IsInode, Descriptor, encode_inode}
use krnel.Ext2.Blocks.{IsReady, block_at}
use krnel.Ext2.Inodes.{
  Placed, put_inode, ext2_read_inode_lem, ext2_write_inode_lem, put_inode-IsReady, Placed-put_block,
  decode_inode-put_inode, decode_inode-put_inode_ne,
}

-- The inodes of one group of a table that lies on the disk.
pub record IsTable (fs : Ext2) (d : Disk) (group : ℕ) (g : Descriptor) : Type 0 where
  pub described : get_elem? fs.bgdt group ≡ some g
  pub small_inodes : fs.inode_size ≡ 128
  pub some_inodes : fs.sb.inodes_per_group ≢ 0
  pub few_inodes : fs.sb.inodes_per_group ≤ 2 ^ 24
  pub on_disk :
      fs.partition_start + (g.inode_table + fs.sb.inodes_per_group / 8) * 2 + 2 ≤ d.sectors

-- The block and the offset of the inode with this index in its group.
abbrev pub table_block : Descriptor → ℕ → ℕ
table_block g index = g.inode_table + index / 8

abbrev pub table_offset : ℕ → ℕ
table_offset index = index % 8 * 128

place_in_table :
    (g : Descriptor) (index : ℕ)
    → index < 2 ^ 24
    → g.inode_table + index / 8 < 2 ^ 32
    → place_in g index 128 1024 ≡ (table_block g index, table_offset index)
place_in_table g index h k =
    let block : (g.inode_table + index * 128 % 2 ^ 32 / 1024) % 2 ^ 32 ≡ table_block g index =
      omega arith in
    let offset : index * 128 % 2 ^ 32 % 1024 ≡ table_offset index = omega arith in
    λ i. (block i, offset i)

mod-lt : (a b : ℕ) → b ≢ 0 → a % b < b
mod-lt a b h = grind arith

-- Inodes of the group have their places.
pub IsTable-Placed :
    {fs : Ext2} {d : Disk} {group : ℕ} {g : Descriptor} (n : ℕ)
    → IsReady fs d
    → IsTable fs d group g
    → n ≢ 0
    → (n - 1) / fs.sb.inodes_per_group ≡ group
    → Placed fs d n
        (table_block g ((n - 1) % fs.sb.inodes_per_group))
        (table_offset ((n - 1) % fs.sb.inodes_per_group))
unfolding inode_place
IsTable-Placed {fs} {d} {group} {g} n r t h e =
    let index : ℕ = (n - 1) % fs.sb.inodes_per_group in
    let lt : index < fs.sb.inodes_per_group = mod-lt (n - 1) fs.sb.inodes_per_group t.some_inodes in
    let tested : (fs.sb.inodes_per_group == 0 || fs.block_size == 0) ≡ false =
      let p = t.some_inodes in let q = r.is_small_block in ground arith in
    let q = t.few_inodes in
    let on = t.on_disk in
    let bound = r.addressable in
    record {
      numbered = h;
      place =
          rw (tested, e, t.described)
            (ap₂ (λ a b. some (place_in g index a b)) t.small_inodes r.is_small_block
              ∙ ap some (place_in_table g index (omega arith) (omega arith)));
      on_disk = omega arith;
      inside = omega arith;
    }

-- Two inodes of a group share no byte.
places_apart :
    (g : Descriptor) (a b : ℕ)
    → a ≢ b
    → (table_block g a ≢ table_block g b)
      ⊎ ((table_offset a + 88 ≤ table_offset b) ⊎ (table_offset b + 88 ≤ table_offset a))
places_apart g a b h = elim (Bool-cases (ltb a b)) [
  | inl lt ↦ elim (Bool-cases (a / 8 == b / 8)) [
    | inl e ↦ inr (inl (ground arith))
    | inr e ↦ inl (ground arith)
  ]
  | inr ge ↦ elim (Bool-cases (a / 8 == b / 8)) [
    | inl e ↦ inr (inr (ground arith))
    | inr e ↦ inl (ground arith)
  ]
]

same_index : (a b p : ℕ) → a / p ≡ b / p → a % p ≡ b % p → a ≡ b
same_index a b p h k = grind arith

module _ (frame : Buffer) (whole : length frame ≡ 1024) {fs : Ext2} {d : Disk} {group : ℕ}
    {g : Descriptor} (r : IsReady fs d) (t : IsTable fs d group g) (i : Inode) (v : IsInode i) where
  -- The disk after inode `n` of the group is written.
  abbrev pub after_write : ℕ → Disk
  after_write n =
      let index = (n - 1) % fs.sb.inodes_per_group in
      put_inode fs d (table_block g index) (table_offset index) i

  after_write-IsReady : (n : ℕ) → IsReady fs (after_write n)
  after_write-IsReady n =
      let index : ℕ = (n - 1) % fs.sb.inodes_per_group in
      put_inode-IsReady r i v.words (table_block g index) (table_offset index) (omega arith)

  after_write-Placed :
      (n m : ℕ)
      → m ≢ 0
      → (m - 1) / fs.sb.inodes_per_group ≡ group
      → Placed fs
          (after_write n)
          m
          (table_block g ((m - 1) % fs.sb.inodes_per_group))
          (table_offset ((m - 1) % fs.sb.inodes_per_group))
  after_write-Placed n m h e =
      let index : ℕ = (n - 1) % fs.sb.inodes_per_group in
      Placed-put_block (table_block g index)
        (patch (table_offset index) (encode_inode i) (block_at fs d (table_block g index)))
        (IsTable-Placed m r t h e)

  read_self :
      (n : ℕ)
      → n ≢ 0
      → (n - 1) / fs.sb.inodes_per_group ≡ group
      → ext2_read_inode frame fs (after_write n) n ≡ some (some i)
  read_self n h e =
      let index : ℕ = (n - 1) % fs.sb.inodes_per_group in
      ext2_read_inode_lem frame whole (after_write-IsReady n) n (table_block g index)
        (table_offset index) (after_write-Placed n n h e)
      ∙ ap (λ x. some (some x))
          (decode_inode-put_inode r i v.words (table_block g index) (table_offset index)
            (omega arith) v)

  read_other :
      (n m : ℕ)
      → m ≢ 0
      → (n - 1) / fs.sb.inodes_per_group ≡ group
      → (m - 1) / fs.sb.inodes_per_group ≡ group
      → (n - 1) ≢ (m - 1)
      → ext2_read_inode frame fs (after_write n) m ≡ ext2_read_inode frame fs d m
  read_other n m h e k ne =
      let a : ℕ = (n - 1) % fs.sb.inodes_per_group in
      let b : ℕ = (m - 1) % fs.sb.inodes_per_group in
      let apart : a ≢ b =
        λ q. ne (same_index (n - 1) (m - 1) fs.sb.inodes_per_group (e ∙ sym k) q) in
      ext2_read_inode_lem frame whole (after_write-IsReady n) m (table_block g b) (table_offset b)
        (after_write-Placed n m h k)
      ∙ ap (λ x. some (some x))
          (decode_inode-put_inode_ne r i v.words (table_block g a) (table_offset a)
            (table_block g b) (table_offset b) (omega arith) (places_apart g a b apart))
      ∙ sym (
          ext2_read_inode_lem frame whole r m (table_block g b) (table_offset b)
            (IsTable-Placed m r t h k))

  -- If the table of a group lies on the disk, writing inode `n` of the group succeeds; afterwards it is read
  -- as written, and every other inode of the group is read as before.
  pub ext2_read_inode-ext2_write_inode :
      (n m : ℕ)
      → n ≢ 0
      → m ≢ 0
      → (n - 1) / fs.sb.inodes_per_group ≡ group
      → (m - 1) / fs.sb.inodes_per_group ≡ group
      → (d' : Disk) × (ext2_write_inode frame fs d n i ≡ some (d', pos 1024))
        × IsReady fs d'
        × (ext2_read_inode frame fs d' m
            ≡ (if m == n then some (some i) else ext2_read_inode frame fs d m))
  ext2_read_inode-ext2_write_inode n m h k e f =
      let index : ℕ = (n - 1) % fs.sb.inodes_per_group in
      (
        after_write n,
        ext2_write_inode_lem frame whole r n (table_block g index) (table_offset index) i
            (IsTable-Placed n r t h e) v.words,
        after_write-IsReady n,
        elim (Bool-cases (m == n)) [
          | inl y ↦ rw y (
              subst (λ x. ext2_read_inode frame fs (after_write n) x ≡ some (some i))
                (sym ((==_iff m n).0 y)) (read_self n h e))
          | inr y ↦ rw y (read_other n m k e f (ground arith))
        ],
      )
