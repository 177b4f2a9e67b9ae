-- ===== src/Ext2/Slots/Adding/Entered.antt =====
-- What the disk holds after `ext2_add_dirent` has written an entry.
use krnel.Base.{
  ℕ, suc, ◌+◌, ◌^◌, ◌<◌, ◌≡◌, ◌≢◌, sym, ◌∙◌, ap, true, some, List, ◌∷◌, arith, length, get_or,
  subst,
}
use krnel.CString.{Buffer, text, terminated}
use krnel.Ata.Disk.{Disk}
use krnel.Ext2.{Ext2, State, ext2_read_inode}
use krnel.Ext2.Layout.{Inode, IsInode, encode_inode}
use krnel.Base.Slices.{patch}
use krnel.Ext2.Blocks.{
  IsReady, OnDisk, block_at, put_block, put_block-IsReady, put_block-sectors,
  block_at-put_block_self, block_at-put_block_ne,
}
use krnel.Ext2.Inodes.{
  Placed, Placed-put_block, put_inode-IsReady, decode_inode-put_inode, ext2_read_inode_lem,
}
use krnel.Ext2.Slots.{Slot, entry, Holds, Slots}
use krnel.Ext2.Slots.Entries.{page_of, length-page_of, page_of-Holds}
use krnel.Ext2.Slots.Adding.{Slots-same}
use krnel.Ext2.Slots.Adding.Steps.{entered}

-- The directory from its place `j` on has the slots `xs`, and what stands in front of `j` is as before.
pub record Added (frame : Buffer) (fs : Ext2) (n k j : ℕ) (s : State) (dir : Inode) (xs : List Slot)
    (s' : State) (dir' : Inode) : Type 0 where
  pub ready : IsReady fs s'.disk
  pub reads : ext2_read_inode frame fs s'.disk n ≡ some (some dir')
  pub slots : Slots k fs s'.disk dir'.block j xs
  pub pointers : (i : ℕ) → i < j → get_or dir'.block i 0 ≡ get_or dir.block i 0
  pub blocks :
      (i : ℕ)
      → i < j
      → get_or dir.block i 0 ≢ 0
      → block_at fs s'.disk (get_or dir.block i 0) ≡ block_at fs s.disk (get_or dir.block i 0)
  pub same_sectors : s'.disk.sectors ≡ s.disk.sectors

module _ (frame : Buffer) (whole : length frame ≡ 1024) (fs : Ext2) (n : ℕ) (name : Buffer)
    (child file_type : ℕ) (ended : terminated name ≡ true) (short : length (text name) < 256)
    (some_inode : child ≢ 0) (inode_lt : child < 2 ^ 32) where
  module _ (d : Disk) (dir : Inode) (p : ℕ) (b : Buffer) (blk off : ℕ) (r : IsReady fs d)
      (placed : Placed fs d n blk off) (valid : IsInode dir) (l : length b ≡ 1024)
      (other : p ≢ blk) where
    abbrev pub end_disk : Disk
    end_disk = entered frame whole fs n name child file_type ended short d p b blk off dir

    abbrev page : Buffer
    page = page_of b name child file_type

    length-page : length page ≡ 1024
    length-page = length-page_of b name child file_type l ended short

    page-IsReady : IsReady fs (put_block fs d p page)
    page-IsReady = put_block-IsReady r p page length-page

    pub end-IsReady : IsReady fs end_disk
    end-IsReady = put_inode-IsReady page-IsReady dir valid.words blk off placed.inside

    pub end_sectors : end_disk.sectors ≡ d.sectors
    end_sectors =
        put_block-sectors fs (put_block fs d p page) blk
          (patch off (encode_inode dir) (block_at fs (put_block fs d p page) blk))
        ∙ put_block-sectors fs d p page

    pub end_reads : ext2_read_inode frame fs end_disk n ≡ some (some dir)
    end_reads =
        ext2_read_inode_lem frame whole end-IsReady n blk off (
          Placed-put_block blk
            (patch off (encode_inode dir) (block_at fs (put_block fs d p page) blk))
            (Placed-put_block p page placed))
        ∙ ap (λ x. some (some x))
            (decode_inode-put_inode page-IsReady dir valid.words blk off placed.inside valid)

    pub end_other : (m : ℕ) → m ≢ p → m ≢ blk → block_at fs end_disk m ≡ block_at fs d m
    end_other m h k =
        block_at-put_block_ne fs (put_block fs d p page) blk m
          (patch off (encode_inode dir) (block_at fs (put_block fs d p page) blk)) (λ e. k (sym e))
        ∙ block_at-put_block_ne fs d p m page (λ e. h (sym e))

    pub end-Holds : Holds (entry (text name) child) (block_at fs end_disk p)
    end-Holds =
        subst (Holds (entry (text name) child))
          (sym (
            block_at-put_block_ne fs (put_block fs d p page) blk p
              (patch off (encode_inode dir) (block_at fs (put_block fs d p page) blk))
              (λ e. other (sym e))
            ∙ block_at-put_block_self fs d p page length-page))
          (page_of-Holds b name child file_type l ended short some_inode inode_lt)

  -- An entry that is written at place `j` is added there.
  pub entered-Added :
      (k j : ℕ) (s s₁ : State) (dir dir₁ : Inode) (b : Buffer) (blk off : ℕ) (xs : List Slot)
      → (r : IsReady fs s₁.disk) → (placed : Placed fs s₁.disk n blk off) → (valid : IsInode dir₁)
      → (l : length b ≡ 1024) → (other : get_or dir₁.block j 0 ≢ blk) → get_or dir₁.block j 0 ≢ 0
      → OnDisk fs s₁.disk (get_or dir₁.block j 0)
      → s₁.disk.sectors ≡ s.disk.sectors
      → ((i : ℕ) → i ≢ j → get_or dir₁.block i 0 ≡ get_or dir.block i 0)
      → ((i : ℕ)
          → i ≢ j
          → i < suc j + k
          → get_or dir.block i 0 ≢ 0
          → (get_or dir.block i 0 ≢ get_or dir₁.block j 0)
            × (get_or dir.block i 0 ≢ blk)
            × (block_at fs s₁.disk (get_or dir.block i 0)
                ≡ block_at fs s.disk (get_or dir.block i 0)))
      → Slots k fs s.disk dir.block (j + 1) xs
      → Added frame fs n
          (suc k)
          j
          s
          dir
          (entry (text name) child ∷ xs)
          (record s₁ {
            disk = end_disk s₁.disk dir₁ (get_or dir₁.block j 0) b blk off r placed valid l other;
          })
          dir₁
  entered-Added k j s s₁ dir dir₁ b blk off xs r placed valid l other used on e same kept rest =
      let p = get_or dir₁.block j 0 in
      let end = end_disk s₁.disk dir₁ p b blk off r placed valid l other in
      let sectors : end.sectors ≡ s.disk.sectors =
        end_sectors s₁.disk dir₁ p b blk off r placed valid l other ∙ e in
      let others : (i : ℕ)
          → i ≢ j
          → i < suc j + k
          → get_or dir.block i 0 ≢ 0
          → block_at fs end (get_or dir.block i 0) ≡ block_at fs s.disk (get_or dir.block i 0) =
        λ i h lt nz.
          end_other s₁.disk dir₁ p b blk off r placed valid l other (get_or dir.block i 0)
            (kept i h lt nz).0 (kept i h lt nz).1
          ∙ (kept i h lt nz).2 in
      record {
        ready = end-IsReady s₁.disk dir₁ p b blk off r placed valid l other;
        reads = end_reads s₁.disk dir₁ p b blk off r placed valid l other;
        slots = (
          used,
          omega (arith, end_sectors s₁.disk dir₁ p b blk off r placed valid l other),
          end-Holds s₁.disk dir₁ p b blk off r placed valid l other,
          Slots-same k fs s.disk end dir.block dir₁.block (j + 1) xs sectors
              (λ i lo hi. same i (omega arith))
              (λ i lo hi nz. others i (omega arith) (omega arith) nz) rest,
        );
        pointers = λ i lt. same i (omega arith);
        blocks = λ i lt nz. others i (omega arith) (omega arith) nz;
        same_sectors = sectors;
      }
