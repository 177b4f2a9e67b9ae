-- ===== src/Fs/Operations/RoundTrip.antt =====
-- `fs_write_inode` of kernel/fs.c, and `fs_read_inode` after it.
use krnel.Base.{ℕ, ◌≤◌, ◌<◌, ◌≡◌, ◌∙◌, ap, min, Option, some, arith, length, take, drop, ◌++◌}
use krnel.Base.Int.{pos, negsuc}
use krnel.Base.Slices.{patch}
use krnel.CString.{Buffer, ◌>>=◌}
use krnel.Ata.Disk.{Disk}
use krnel.Ext2.{Ext2, State, ext2_read_inode, ext2_write_inode, ext2_write_file}
use krnel.Ext2.Layout.{Inode, IsInode, encode_inode}
use krnel.Ext2.Blocks.{IsReady, block_at, put_block-sectors, block_at-put_block_ne}
use krnel.Ext2.Inodes.{
  Placed, Placed-put_block, put_inode, put_inode-IsReady, ext2_read_inode_lem, ext2_write_inode_lem,
  decode_inode-put_inode,
}
use krnel.Ext2.Files.{Stored, Stored-same}
use krnel.Ext2.Files.Reading.{ext2_read_file-Stored}
use krnel.Ext2.Files.Writing.{HasRoom}
use krnel.Ext2.Files.RoundTrip.{Written, ext2_write_file-Written}
use krnel.Fs.{FileSystem, on_fs}
use krnel.Fs.Operations.{
  fs_read_inode, fs_write_inode, inode_or, with_inode, write_always, read_to, with_ext,
}

on_fs-some :
    {A : Type 0} {o : Option Ext2} {fs : Ext2} (failed : A) (go : Ext2 → A)
    → o ≡ some fs
    → on_fs o failed go ≡ go fs
on_fs-some failed go e = ap (λ o. on_fs o failed go) e

with_inode_lem :
    (frame : Buffer) (fs : Ext2) (d : Disk) (n : ℕ) (inode : Inode) {A : Type 0}
    (go : ℕ → Inode → Option A) (failed : Option A)
    → ext2_read_inode frame fs d n ≡ some (some inode)
    → with_inode frame fs d go failed (pos n) ≡ go n inode
with_inode_lem frame fs d n inode go failed e = ap (inode_or (go n) failed) e

module _ (frame : Buffer) (whole : length frame ≡ 1024) (fs : Ext2) (s s' : State)
    (inode inode' : Inode) (n blk off size : ℕ) (source : Buffer)
    (placed : Placed fs s.disk n blk off) (w : Written fs s inode size source s' inode')
    (valid : IsInode inode') (table : blk < s.next_block) where
  abbrev pub saved : State
  saved = record s' { disk = put_inode fs s'.disk blk off inode' }

  placed' : Placed fs s'.disk n blk off
  placed' = record {
    numbered = placed.numbered;
    place = placed.place;
    on_disk = let p = placed.on_disk in omega (arith, w.same_sectors);
    inside = placed.inside;
  }

  saves : ext2_write_inode frame fs s'.disk n inode' ≡ some (saved.disk, pos 1024)
  saves = ext2_write_inode_lem frame whole w.ready n blk off inode' placed' w.words

  saved-IsReady : IsReady fs saved.disk
  saved-IsReady = put_inode-IsReady w.ready inode' w.words blk off placed.inside

  reads_saved : ext2_read_inode frame fs saved.disk n ≡ some (some inode')
  reads_saved =
      ext2_read_inode_lem frame whole saved-IsReady n blk off
        (Placed-put_block blk (patch off (encode_inode inode') (block_at fs s'.disk blk)) placed')
      ∙ ap (λ x. some (some x))
          (decode_inode-put_inode w.ready inode' w.words blk off placed.inside valid)

  stored_saved : Stored 12 s.next_block fs saved.disk inode'.block 0 0 size source
  stored_saved =
      let b = patch off (encode_inode inode') (block_at fs s'.disk blk) in
      Stored-same 12 s.next_block fs s'.disk saved.disk inode'.block 0 0 size source
        (put_block-sectors fs s'.disk blk b)
        (λ m h. block_at-put_block_ne fs s'.disk blk m b (omega arith)) w.stored

module _ (frame : Buffer) (whole : length frame ≡ 1024) (fs : Ext2) (f : FileSystem) (inode : Inode)
    (n blk off size : ℕ) (source : Buffer) (mounted : f.fs ≡ some fs)
    (reads : ext2_read_inode frame fs f.ext.disk n ≡ some (some inode)) (valid : IsInode inode)
    (placed : Placed fs f.ext.disk n blk off) (table : blk < f.ext.next_block)
    (room : HasRoom 12 fs f.ext) (fits : size ≤ length source) where
  -- On a mounted disk with room for twelve more blocks, writing the first `size` bytes of a buffer to an
  -- inode that can be read, in a block in front of the next free one, returns 1024; reading it back from the
  -- disk then gives these bytes, up to 12288 of them.
  pub fs_read_inode-fs_write_inode :
      (dest : Buffer)
      → size ≤ length dest
      → (f' : FileSystem) × (fs_write_inode frame f (pos n) source size ≡ some (f', pos 1024))
        × (fs_read_inode frame f' (pos n) dest size
            ≡ some
                (pos (min size 12288), take (min size 12288) source ++ drop (min size 12288) dest))
  unfolding fs_read_inode fs_write_inode
  fs_read_inode-fs_write_inode dest h =
      let (s', inode', e, w) =
        ext2_write_file-Written fs f.ext inode size source room valid.words fits in
      let valid' : IsInode inode' = w.valid valid in
      let end =
        saved frame whole fs f.ext s' inode inode' n blk off size source placed w valid' table in
      (
        record f { ext = end },
        on_fs-some _ _ mounted
            ∙ (ap (λ o. o >>= λ r. some (with_ext f r))
                (with_inode_lem frame fs f.ext.disk n inode
                    (λ m i. ext2_write_file fs f.ext i 0 size source >>= write_always frame fs m)
                    (some (f.ext, negsuc 0)) reads
                  ∙ ap (λ o. o >>= write_always frame fs n) e
                  ∙ ap (λ o. o >>= λ w. some (record s' { disk = w.0 }, w.1))
                      (saves frame whole fs f.ext s' inode inode' n blk off size source placed w
                        valid' table))),
        on_fs-some _ _ mounted
            ∙ (with_inode_lem frame fs end.disk n inode' (read_to frame size dest fs end.disk)
                  (some (negsuc 0, dest))
                  (reads_saved frame whole fs f.ext s' inode inode' n blk off size source placed w
                    valid' table)
                ∙ ap (λ o. o >>= λ r. some (pos r.0, r.1))
                    (ext2_read_file-Stored frame whole
                      (saved-IsReady frame whole fs f.ext s' inode inode' n blk off size source
                        placed w valid' table)
                      f.ext.next_block inode' size source dest
                      (stored_saved frame whole fs f.ext s' inode inode' n blk off size source
                        placed w valid' table)
                      fits h)),
      )
