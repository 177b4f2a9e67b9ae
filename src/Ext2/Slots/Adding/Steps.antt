-- ===== src/Ext2/Slots/Adding/Steps.antt =====
-- The steps of `ext2_add_dirent`: opening a block, passing over a full one, writing an entry.
use krnel.Base.{
  ℕ, suc, ◌+◌, ◌%◌, ◌^◌, ◌<◌, ◌≡◌, ◌≢◌, ◌∙◌, ap, true, false, none, some, arith, ◌==◌, length,
  get_or, set, replicate, length-replicate, ◌++◌, get_or-replicate,
}
use krnel.Base.Int.{ℤ, pos}
use krnel.CString.{Buffer, text, terminated, memset}
use krnel.Ata.Disk.{Disk}
use krnel.Ext2.{Ext2, State, ext2_alloc_block}
use krnel.Ext2.Layout.{Inode, load}
use krnel.Ext2.Directory.{rec_len, find_slot, open_block, enter, add_loop, put_dirent}
use krnel.Ext2.Blocks.{
  IsReady, OnDisk, block_at, put_block, length-block_at, ext2_read_block_lem, ext2_write_block_lem,
  put_block-IsReady, drop-all, append_nil,
}
use krnel.Ext2.Inodes.{Placed, Placed-put_block, put_inode, ext2_write_inode_lem}
use krnel.Ext2.Slots.Entries.{
  memset_lem, find_slot_free, find_slot_full, page_of, put_dirent_lem, length-page_of,
}

abbrev pub zeros : Buffer
zeros = replicate 1024 0

pub length-zeros : length zeros ≡ 1024
length-zeros = length-replicate {A = ℕ} 1024 0

pub rec_len-zeros : rec_len zeros 0 ≡ 0
unfolding load
rec_len-zeros = omega (arith, get_or-replicate {A = ℕ} 1024 4 0, get_or-replicate {A = ℕ} 1024 5 0)

zero_fill :
    (buf : Buffer) (size : ℕ)
    → size ≡ 1024
    → length buf ≡ 1024
    → memset buf (pos 0) size ≡ some zeros
zero_fill buf size e l =
    ap (memset buf (pos 0)) e
    ∙ memset_lem buf (pos 0) 1024 (omega arith)
    ∙ ap (λ b. some (zeros ++ b)) (drop-all 1024 buf (omega arith))
    ∙ ap some (append_nil zeros)

-- The state and the inode after a new block is put at pointer `i`.
abbrev pub grown_state : Ext2 → State → State
grown_state fs s = record s {
  disk = put_block fs s.disk s.next_block zeros;
  next_block = (s.next_block + 1) % 2 ^ 32;
}

abbrev pub grown_inode : Ext2 → State → Inode → ℕ → Inode
grown_inode fs s dir i = record dir {
  block = set dir.block i s.next_block;
  size = (dir.size + fs.block_size) % 2 ^ 32;
}

module _ (frame : Buffer) (fs : Ext2) (s : State) (dir : Inode) (i : ℕ) (buf : Buffer)
    (r : IsReady fs s.disk) (l : length buf ≡ 1024) where
  pub open_used :
      get_or dir.block i 0 ≢ 0
      → OnDisk fs s.disk (get_or dir.block i 0)
      → open_block frame fs s dir i buf
        ≡ some (s, some (dir, block_at fs s.disk (get_or dir.block i 0)))
  unfolding open_block
  open_used used on =
      let go : (get_or dir.block i 0 == 0) ≡ false = ground arith in
      rw (go, ext2_read_block_lem r (get_or dir.block i 0) buf on l)

  pub open_new :
      get_or dir.block i 0 ≡ 0
      → s.next_block ≢ 0
      → OnDisk fs s.disk s.next_block
      → open_block frame fs s dir i buf
        ≡ some (grown_state fs s, some (grown_inode fs s dir i, zeros))
  unfolding open_block ext2_alloc_block
  open_new e used on =
      let new : (get_or dir.block i 0 == 0) ≡ true = ground arith in
      let had : (s.next_block == 0) ≡ false = ground arith in
      rw (
        new,
        had,
        zero_fill buf fs.block_size r.is_small_block l,
        ext2_write_block_lem r s.next_block zeros on length-zeros,
      )

slot_free :
    (size : ℕ) (b : Buffer)
    → size ≡ 1024
    → length b ≡ 1024
    → rec_len b 0 ≡ 0
    → find_slot size size b 0 ≡ some (some 0)
slot_free size b e l z = ap (λ x. find_slot x x b 0) e ∙ find_slot_free 1022 b l z

slot_full :
    (size : ℕ) (b : Buffer)
    → size ≡ 1024
    → length b ≡ 1024
    → rec_len b 0 ≡ 1024
    → find_slot size size b 0 ≡ some none
slot_full size b e l z = ap (λ x. find_slot x x b 0) e ∙ find_slot_full 1022 b l z

module _ (frame : Buffer) (whole : length frame ≡ 1024) (fs : Ext2) (n : ℕ) (name : Buffer)
    (child file_type : ℕ) (ended : terminated name ≡ true) (short : length (text name) < 256) where
  -- What is on the disk after an entry in block `p` and the directory's inode are written.
  abbrev pub entered : Disk → ℕ → Buffer → ℕ → ℕ → Inode → Disk
  entered d p b blk off dir =
      put_inode fs (put_block fs d p (page_of b name child file_type)) blk off dir

  pub enter_lem :
      (s : State) (dir : Inode) (i : ℕ) (b : Buffer) (blk off : ℕ)
      → IsReady fs s.disk
      → Placed fs s.disk n blk off
      → length dir.block ≡ 15
      → OnDisk fs s.disk (get_or dir.block i 0)
      → length b ≡ 1024
      → enter frame fs s n dir i b 0 name child file_type
        ≡ some (record s { disk = entered s.disk (get_or dir.block i 0) b blk off dir }, pos 0)
  unfolding enter
  enter_lem s dir i b blk off r p words on l =
      let page = page_of b name child file_type in
      let m = get_or dir.block i 0 in
      let len : length page ≡ 1024 = length-page_of b name child file_type l ended short in
      let put : put_dirent fs.block_size b 0 name child file_type ≡ some page =
        ap (λ x. put_dirent x b 0 name child file_type) r.is_small_block
        ∙ put_dirent_lem b name child file_type l ended short in
      rw (
        put,
        ext2_write_block_lem r m page on len,
        ext2_write_inode_lem frame whole (put_block-IsReady r m page len) n blk off dir
            (Placed-put_block m page p) words,
      )

  -- A full block is passed over.
  pub add_next :
      (k : ℕ) (s : State) (dir : Inode) (j : ℕ) (buf : Buffer)
      → IsReady fs s.disk
      → length buf ≡ 1024
      → get_or dir.block j 0 ≢ 0
      → OnDisk fs s.disk (get_or dir.block j 0)
      → rec_len (block_at fs s.disk (get_or dir.block j 0)) 0 ≡ 1024
      → add_loop frame fs (suc k) s n dir j buf name child file_type
        ≡ add_loop frame fs k s n dir
            (j + 1)
            (block_at fs s.disk (get_or dir.block j 0))
            name
            child
            file_type
  unfolding add_loop
  add_next k s dir j buf r l used on full =
      let m = get_or dir.block j 0 in
      rw (
        open_used frame fs s dir j buf r l used on,
        slot_full fs.block_size (block_at fs s.disk m) r.is_small_block (length-block_at r m) full,
      )

  -- A block is opened whose start is free.
  pub add_here :
      (k : ℕ) (s s' : State) (dir dir' : Inode) (j : ℕ) (buf b : Buffer) (end : State × ℤ)
      → open_block frame fs s dir j buf ≡ some (s', some (dir', b))
      → fs.block_size ≡ 1024
      → length b ≡ 1024
      → rec_len b 0 ≡ 0
      → enter frame fs s' n dir' j b 0 name child file_type ≡ some end
      → add_loop frame fs (suc k) s n dir j buf name child file_type ≡ some end
  unfolding add_loop
  add_here k s s' dir dir' j buf b end opened size l free written =
      rw (opened, slot_free fs.block_size b size l free) written
