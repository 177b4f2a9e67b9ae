-- ===== src/Ext2/Layout/Superblock.antt =====
-- `ext2_superblock_t` of include/ext2.h, 104 bytes, and how it lies in a sector.
use krnel.Base.{ℕ, ◌+◌, [], ◌∷◌, ◌++◌, take, drop}
use krnel.CString.{Buffer}
use krnel.Ext2.Layout.{put_fields, load}

pub record Superblock : Type 0 where
  pub inodes_count : ℕ
  pub blocks_count : ℕ
  pub free_blocks_count : ℕ
  pub free_inodes_count : ℕ
  pub first_data_block : ℕ
  pub log_block_size : ℕ
  pub log_frag_size : ℕ
  pub blocks_per_group : ℕ
  pub frags_per_group : ℕ
  pub inodes_per_group : ℕ
  pub mtime : ℕ
  pub wtime : ℕ
  pub mnt_count : ℕ
  pub max_mnt_count : ℕ
  pub magic : ℕ
  pub state : ℕ
  pub errors : ℕ
  pub minor_rev_level : ℕ
  pub lastcheck : ℕ
  pub checkinterval : ℕ
  pub creator_os : ℕ
  pub rev_level : ℕ
  pub def_resuid : ℕ
  pub def_resgid : ℕ
  pub first_ino : ℕ
  pub inode_size : ℕ
  pub block_group_nr : ℕ
  pub volume_name : Buffer

abbrev pub superblock_bytes : ℕ
superblock_bytes = 104

unfoldable pub decode_superblock : Buffer → ℕ → Superblock
decode_superblock b at = record {
  inodes_count = load 4 b at;
  blocks_count = load 4 b (at + 4);
  free_blocks_count = load 4 b (at + 8);
  free_inodes_count = load 4 b (at + 12);
  first_data_block = load 4 b (at + 16);
  log_block_size = load 4 b (at + 20);
  log_frag_size = load 4 b (at + 24);
  blocks_per_group = load 4 b (at + 28);
  frags_per_group = load 4 b (at + 32);
  inodes_per_group = load 4 b (at + 36);
  mtime = load 4 b (at + 40);
  wtime = load 4 b (at + 44);
  mnt_count = load 2 b (at + 48);
  max_mnt_count = load 2 b (at + 50);
  magic = load 2 b (at + 52);
  state = load 2 b (at + 54);
  errors = load 2 b (at + 56);
  minor_rev_level = load 2 b (at + 58);
  lastcheck = load 4 b (at + 60);
  checkinterval = load 4 b (at + 64);
  creator_os = load 4 b (at + 68);
  rev_level = load 4 b (at + 72);
  def_resuid = load 2 b (at + 76);
  def_resgid = load 2 b (at + 78);
  first_ino = load 4 b (at + 80);
  inode_size = load 2 b (at + 84);
  block_group_nr = load 2 b (at + 86);
  volume_name = take 16 (drop (at + 88) b);
}

unfoldable pub encode_superblock : Superblock → Buffer
encode_superblock s =
    put_fields (
      (4, s.inodes_count)
      ∷ (4, s.blocks_count)
      ∷ (4, s.free_blocks_count)
      ∷ (4, s.free_inodes_count)
      ∷ (4, s.first_data_block)
      ∷ (4, s.log_block_size)
      ∷ (4, s.log_frag_size)
      ∷ (4, s.blocks_per_group)
      ∷ (4, s.frags_per_group)
      ∷ (4, s.inodes_per_group)
      ∷ (4, s.mtime)
      ∷ (4, s.wtime)
      ∷ (2, s.mnt_count)
      ∷ (2, s.max_mnt_count)
      ∷ (2, s.magic)
      ∷ (2, s.state)
      ∷ (2, s.errors)
      ∷ (2, s.minor_rev_level)
      ∷ (4, s.lastcheck)
      ∷ (4, s.checkinterval)
      ∷ (4, s.creator_os)
      ∷ (4, s.rev_level)
      ∷ (2, s.def_resuid)
      ∷ (2, s.def_resgid)
      ∷ (4, s.first_ino)
      ∷ (2, s.inode_size)
      ∷ (2, s.block_group_nr)
      ∷ [])
    ++ s.volume_name
