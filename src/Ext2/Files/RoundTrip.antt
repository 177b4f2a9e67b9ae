-- ===== src/Ext2/Files/RoundTrip.antt =====
-- `ext2_write_file`, and `ext2_read_file` after it.
use krnel.Base.{
  ℕ, ◌+◌, ◌-◌, ◌*◌, ◌/◌, ◌%◌, ◌^◌, ◌≤◌, ◌<◌, ◌≡◌, refl, ◌∙◌, ap, min, some, length, take, drop,
  replicate, arith, length-append, length-drop, length-replicate, ◌++◌,
}
use krnel.Base.Int.{pos}
use krnel.CString.{Buffer, ◌>>=◌}
use krnel.Ext2.{Ext2, State, close_file, clear_blocks, ext2_read_file, ext2_write_file}
use krnel.Ext2.Layout.{Inode, IsInode}
use krnel.Ext2.Layout.Codec.{resized-IsInode, AllLt-append, AllLt-drop}
use krnel.Ext2.Blocks.{IsReady, block_at}
use krnel.Ext2.Files.{Stored}
use krnel.Ext2.Files.Reading.{ext2_read_file-Stored}
use krnel.Ext2.Files.Writing.{HasRoom, write_loop-Wrote}

length-clear_blocks :
    (inode : Inode) → length inode.block ≡ 15 → length (clear_blocks inode).block ≡ 15
length-clear_blocks inode h = omega (
  arith,
  length-append (replicate {A = ℕ} 12 0) (drop 12 inode.block),
  length-replicate {A = ℕ} 12 0,
  length-drop 12 inode.block,
)

-- What a file's inode and the disk are after a write of `size` bytes.
pub record Written (fs : Ext2) (s : State) (inode : Inode) (size : ℕ) (source : Buffer) (s' : State)
    (inode' : Inode) : Type 0 where
  pub ready : IsReady fs s'.disk
  pub stored : Stored 12 s.next_block fs s'.disk inode'.block 0 0 size source
  pub has_size : inode'.size ≡ min size 12288
  pub has_blocks : inode'.blocks ≡ (min size 12288 + 1023) / 1024 * 2
  pub words : length inode'.block ≡ 15
  pub valid : IsInode inode → IsInode inode'
  pub same_blocks : (m : ℕ) → m < s.next_block → block_at fs s'.disk m ≡ block_at fs s.disk m
  pub counted : s.next_block ≤ s'.next_block
  pub same_sectors : s'.disk.sectors ≡ s.disk.sectors
  pub same_inodes : s'.next_inode ≡ s.next_inode

-- The inode with its size and its count of sectors.
abbrev closed : Ext2 → Inode → ℕ → ℕ → Inode
closed fs inode b n = record inode { size = n; blocks = b * (fs.block_size / 512) % 2 ^ 32 }

closed-IsInode :
    (fs : Ext2) (inode : Inode) (b n : ℕ)
    → IsInode inode
    → n < 2 ^ 32
    → IsInode (closed fs inode b n)
closed-IsInode fs inode b n v lt =
    resized-IsInode inode n (b * (fs.block_size / 512) % 2 ^ 32) inode.block v lt (omega arith)
      v.block_lt v.words

clear_blocks-IsInode : (inode : Inode) → IsInode inode → IsInode (clear_blocks inode)
clear_blocks-IsInode inode v =
    resized-IsInode inode inode.size inode.blocks (clear_blocks inode).block v v.size_lt v.blocks_lt
      (AllLt-append (2 ^ 32) (replicate 12 0) (drop 12 inode.block) (omega arith)
        (AllLt-drop (2 ^ 32) 12 inode.block v.block_lt))
      (length-clear_blocks inode v.words)

sectors_used :
    (fs : Ext2) (n b : ℕ)
    → fs.block_size ≡ 1024
    → n ≤ 12288
    → b ≡ (n + 1023) / 1024
    → b * (fs.block_size / 512) % 2 ^ 32 ≡ (n + 1023) / 1024 * 2
sectors_used fs n b e h k = ap (λ x. b * (x / 512) % 2 ^ 32) e ∙ omega arith

module _ (fs : Ext2) (s : State) (inode : Inode) (size : ℕ) (source : Buffer)
    (room : HasRoom 12 fs s) (words : length inode.block ≡ 15) (fits : size ≤ length source) where
  -- Writing a file returns the number of bytes stored and leaves all blocks that were handed out before.
  pub ext2_write_file-Written :
      (s' : State) × (inode' : Inode) × (ext2_write_file fs s inode 0 size source
        ≡ some (s', inode', pos (min size 12288)))
      × Written fs s inode size source s' inode'
  unfolding ext2_write_file
  ext2_write_file-Written =
      let (s', inode', e, v) =
        write_loop-Wrote 12 s.next_block fs s (clear_blocks inode) size 0 0 source room
          (omega arith) (omega (arith, length-clear_blocks inode words)) (omega arith) fits in
      let b : ℕ = 0 + (min size (0 + 12 * 1024) - 0 + 1023) / 1024 in
      let n : min size (0 + 12 * 1024) ≡ min size 12288 = omega arith in
      (
        s',
        closed fs inode' b (min size 12288),
        ap (λ o. o >>= close_file fs) (e ∙ λ i. some (s', inode', b, n i)),
        record {
          ready = v.ready;
          stored = v.stored;
          has_size = refl;
          has_blocks =
              sectors_used fs (min size 12288) b room.ready.is_small_block (omega arith)
                (omega arith);
          words = v.same_length ∙ length-clear_blocks inode words;
          valid = λ h.
              closed-IsInode fs inode' b (min size 12288) (v.valid (clear_blocks-IsInode inode h))
                (omega arith);
          same_blocks = v.same_blocks;
          counted = v.counted;
          same_sectors = v.same_sectors;
          same_inodes = v.same_inodes;
        },
      )

  -- On a disk with room for twelve more blocks, writing the first `size` bytes of a buffer over a file stores
  -- and returns them up to 12288 bytes, which are then the size of the file, and reading that many into
  -- another buffer gives them back.
  pub ext2_read_file-ext2_write_file :
      (frame dest : Buffer)
      → length frame ≡ 1024
      → size ≤ length dest
      → (s' : State) × (inode' : Inode) × (ext2_write_file fs s inode 0 size source
          ≡ some (s', inode', pos (min size 12288)))
        × (inode'.size ≡ min size 12288)
        × (ext2_read_file frame fs s'.disk inode' 0 size dest
            ≡ some (min size 12288, take (min size 12288) source ++ drop (min size 12288) dest))
  ext2_read_file-ext2_write_file frame dest whole h =
      let (s', inode', e, v) = ext2_write_file-Written in
      (
        s',
        inode',
        e,
        v.has_size,
        ext2_read_file-Stored frame whole v.ready s.next_block inode' size source dest v.stored fits
            h,
      )
