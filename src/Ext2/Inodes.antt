-- ===== src/Ext2/Inodes.antt =====
-- Reading and writing an inode at a place of a block.
use krnel.Base.{
  ℕ, ◌+◌, ◌≤◌, ◌≡◌, ◌≢◌, ◌∙◌, ap, some, arith, length, take-all, ◌⊎◌, inl, inr, Bool-cases, ==_iff,
  subst, ◌==◌, false, take, drop,
}
use krnel.Base.Int.{pos}
use krnel.Base.Slices.{patch, length-patch, get_or-patch_before, get_or-patch_after}
use krnel.CString.{Buffer, ◌>>=◌}
use krnel.Ata.Disk.{Disk}
use krnel.Ext2.{
  Ext2, inode_place, ext2_write_block, ext2_read_inode, ext2_write_inode, take_inode, copy_part,
}
use krnel.Ext2.Layout.{Inode, IsInode, encode_inode, decode_inode, inode_bytes}
use krnel.Ext2.Layout.Codec.{decode_inode-patch, decode_inode-Agree, length-encode_inode}
use krnel.Ext2.Blocks.{
  IsReady, OnDisk, block_at, put_block, length-block_at, ext2_read_block_lem, ext2_write_block_lem,
  put_block-IsReady, block_at-put_block_self, block_at-put_block_ne,
}

-- Inode `n` lies at `off` in block `blk` of the disk.
pub record Placed (fs : Ext2) (d : Disk) (n blk off : ℕ) : Type 0 where
  pub numbered : n ≢ 0
  pub place : inode_place fs n ≡ some (blk, off)
  pub on_disk : OnDisk fs d blk
  pub inside : off + 88 ≤ 1024

-- The disk after inode `i` is written at a place.
abbrev pub put_inode : Ext2 → Disk → ℕ → ℕ → Inode → Disk
put_inode fs d blk off i = put_block fs d blk (patch off (encode_inode i) (block_at fs d blk))

pub copy_part_fits :
    (dest : Buffer) (at : ℕ) (src : Buffer) (from n : ℕ)
    → at + n ≤ length dest
    → from + n ≤ length src
    → copy_part dest at src from n ≡ some (patch at (take n (drop from src)) dest)
copy_part_fits dest at src from n h k = ground arith

pub Placed-put_block :
    {fs : Ext2} {d : Disk} {n blk off : ℕ} (m : ℕ) (b : Buffer)
    → Placed fs d n blk off
    → Placed fs (put_block fs d m b) n blk off
unfolding put_block
Placed-put_block m b p = record {
  numbered = p.numbered;
  place = p.place;
  on_disk = p.on_disk;
  inside = p.inside;
}

copy_part_all :
    (b : Buffer) (off : ℕ) (e : Buffer)
    → length e ≡ inode_bytes
    → off + 88 ≤ length b
    → copy_part b off e 0 inode_bytes ≡ some (patch off e b)
copy_part_all b off e l h =
    copy_part_fits b off e 0 inode_bytes h (omega arith)
    ∙ ap (λ x. some (patch off x b)) (take-all inode_bytes e (omega arith))

take_inode_lem :
    (fs : Ext2) (off : ℕ) (buf : Buffer)
    → fs.block_size ≡ 1024
    → off + 88 ≤ length buf
    → take_inode fs off (pos 1024, buf) ≡ some (some (decode_inode buf off))
take_inode_lem fs off buf e h = ground arith

module _ {fs : Ext2} {d : Disk} (r : IsReady fs d) (i : Inode) (l : length i.block ≡ 15) where
  pub length-patch_inode :
      (blk off : ℕ)
      → off + 88 ≤ 1024
      → length (patch off (encode_inode i) (block_at fs d blk)) ≡ 1024
  length-patch_inode blk off h =
      length-patch off (encode_inode i) (block_at fs d blk)
        (omega (arith, length-encode_inode i l, length-block_at r blk))
      ∙ length-block_at r blk

  pub put_inode-IsReady : (blk off : ℕ) → off + 88 ≤ 1024 → IsReady fs (put_inode fs d blk off i)
  put_inode-IsReady blk off h =
      put_block-IsReady r blk (patch off (encode_inode i) (block_at fs d blk))
        (length-patch_inode blk off h)

  -- Inode `n` at its place after the write.
  pub decode_inode-put_inode :
      (blk off : ℕ)
      → off + 88 ≤ 1024
      → IsInode i
      → decode_inode (block_at fs (put_inode fs d blk off i) blk) off ≡ i
  decode_inode-put_inode blk off h v =
      ap (λ b. decode_inode b off)
        (block_at-put_block_self fs d blk (patch off (encode_inode i) (block_at fs d blk))
          (length-patch_inode blk off h))
      ∙ decode_inode-patch i off (block_at fs d blk) v (omega (arith, length-block_at r blk))

  same_block :
      (blk off off' : ℕ)
      → off + 88 ≤ 1024
      → (off + 88 ≤ off') ⊎ (off' + 88 ≤ off)
      → decode_inode (block_at fs (put_inode fs d blk off i) blk) off'
        ≡ decode_inode (block_at fs d blk) off'
  same_block blk off off' h apart =
      let e = encode_inode i in
      let b = block_at fs d blk in
      let fits : off + length e ≤ length b =
        omega (arith, length-encode_inode i l, length-block_at r blk) in
      ap (λ x. decode_inode x off')
        (block_at-put_block_self fs d blk (patch off e b) (length-patch_inode blk off h))
      ∙ decode_inode-Agree (patch off e b) off' b off' (λ k lt. elim apart [
        | inl after ↦
            get_or-patch_after off e b fits (off' + k) 0 (omega (arith, length-encode_inode i l))
        | inr before ↦ get_or-patch_before off e b fits (off' + k) 0 (omega arith)
      ])

  other_block :
      (blk off blk' off' : ℕ)
      → blk ≢ blk'
      → decode_inode (block_at fs (put_inode fs d blk off i) blk') off'
        ≡ decode_inode (block_at fs d blk') off'
  other_block blk off blk' off' apart =
      ap (λ b. decode_inode b off')
        (block_at-put_block_ne fs d blk blk' (patch off (encode_inode i) (block_at fs d blk)) apart)

  -- Another place keeps its inode.
  pub decode_inode-put_inode_ne :
      (blk off blk' off' : ℕ)
      → off + 88 ≤ 1024
      → (blk ≢ blk') ⊎ ((off + 88 ≤ off') ⊎ (off' + 88 ≤ off))
      → decode_inode (block_at fs (put_inode fs d blk off i) blk') off'
        ≡ decode_inode (block_at fs d blk') off'
  decode_inode-put_inode_ne blk off blk' off' h (inl apart) = other_block blk off blk' off' apart
  decode_inode-put_inode_ne blk off blk' off' h (inr apart) = elim (Bool-cases (blk == blk')) [
    | inl e ↦
        subst
          (λ x.
            decode_inode (block_at fs (put_inode fs d blk off i) x) off'
            ≡ decode_inode (block_at fs d x) off')
          ((==_iff blk blk').0 e) (same_block blk off off' h apart)
    | inr e ↦ other_block blk off blk' off' (ground arith)
  ]

module _ (frame : Buffer) (whole : length frame ≡ 1024) {fs : Ext2} {d : Disk}
    (r : IsReady fs d) where
  pub ext2_read_inode_lem :
      (n blk off : ℕ)
      → Placed fs d n blk off
      → ext2_read_inode frame fs d n ≡ some (some (decode_inode (block_at fs d blk) off))
  unfolding ext2_read_inode
  ext2_read_inode_lem n blk off p =
      let z : (n == 0) ≡ false = let q = p.numbered in ground arith in
      rw (z, p.place, ext2_read_block_lem r blk frame p.on_disk whole)
        (take_inode_lem fs off (block_at fs d blk) r.is_small_block
          (let q = p.inside in omega (arith, length-block_at r blk)))

  pub ext2_write_inode_lem :
      (n blk off : ℕ) (i : Inode)
      → Placed fs d n blk off
      → length i.block ≡ 15
      → ext2_write_inode frame fs d n i ≡ some (put_inode fs d blk off i, pos 1024)
  unfolding ext2_write_inode
  ext2_write_inode_lem n blk off i p l =
      let z : (n == 0) ≡ false = let q = p.numbered in ground arith in
      rw (z, p.place, ext2_read_block_lem r blk frame p.on_disk whole)
        (ap (λ o. o >>= ext2_write_block fs d blk)
            (copy_part_all (block_at fs d blk) off (encode_inode i) (length-encode_inode i l)
              (let q = p.inside in omega (arith, length-block_at r blk)))
          ∙ ext2_write_block_lem r blk (patch off (encode_inode i) (block_at fs d blk)) p.on_disk
              (length-patch_inode r i l blk off p.inside))
