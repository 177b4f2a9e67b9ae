-- ===== src/Ext2/Layout.antt =====
-- The structures of include/ext2.h as they lie in a block: fields at fixed offsets, low byte first.
pub mod Codec
pub mod Superblock
use krnel.Base.{
  ℕ, zero, suc, ◌+◌, ◌*◌, ◌/◌, ◌%◌, ◌^◌, ◌<◌, ◌≡◌, List, [], ◌∷◌, ◌++◌, get_or, length,
}
use krnel.CString.{Buffer}

-- The `n` bytes of a number.
abbrev pub bytes_of : ℕ → ℕ → Buffer
bytes_of zero k = []
bytes_of (suc n) k = (k % 256) ∷ bytes_of n (k / 256)

-- The number in the `n` bytes at `i`.
unfoldable pub load : ℕ → Buffer → ℕ → ℕ
load zero b i = 0
load (suc n) b i = get_or b i 0 + 256 * load n b (i + 1)

-- Fields of the given sizes one after the other.
abbrev pub put_fields : List (ℕ × ℕ) → Buffer
put_fields [] = []
put_fields ((n, k) ∷ fields) = bytes_of n k ++ put_fields fields

abbrev pub put_words : List ℕ → Buffer
put_words [] = []
put_words (w ∷ ws) = bytes_of 4 w ++ put_words ws

abbrev pub load_words : ℕ → Buffer → ℕ → List ℕ
load_words zero b i = []
load_words (suc n) b i = load 4 b i ∷ load_words n b (i + 4)

-- `ext2_inode_t`, 88 bytes; `block` has 15 words.
pub record Inode : Type 0 where
  pub mode : ℕ
  pub uid : ℕ
  pub size : ℕ
  pub atime : ℕ
  pub ctime : ℕ
  pub mtime : ℕ
  pub gid : ℕ
  pub links_count : ℕ
  pub blocks : ℕ
  pub block : List ℕ

abbrev pub inode_bytes : ℕ
inode_bytes = 88

-- The fields in front of `block`.
abbrev pub encode_head : Inode → Buffer
encode_head i = put_fields (
    (2, i.mode)
    ∷ (2, i.uid)
    ∷ (4, i.size)
    ∷ (4, i.atime)
    ∷ (4, i.ctime)
    ∷ (4, i.mtime)
    ∷ (2, i.gid)
    ∷ (2, i.links_count)
    ∷ (4, i.blocks)
    ∷ [])

unfoldable pub encode_inode : Inode → Buffer
encode_inode i = encode_head i ++ put_words i.block

unfoldable pub decode_inode : Buffer → ℕ → Inode
decode_inode b at = record {
  mode = load 2 b at;
  uid = load 2 b (at + 2);
  size = load 4 b (at + 4);
  atime = load 4 b (at + 8);
  ctime = load 4 b (at + 12);
  mtime = load 4 b (at + 16);
  gid = load 2 b (at + 20);
  links_count = load 2 b (at + 22);
  blocks = load 4 b (at + 24);
  block = load_words 15 b (at + 28);
}

abbrev pub AllLt : ℕ → List ℕ → Type 0
AllLt n [] = Unit {0}
AllLt n (x ∷ xs) = (x < n) × AllLt n xs

-- The fields are in the ranges of their C types.
pub record IsInode (i : Inode) : Type 0 where
  pub mode_lt : i.mode < 2 ^ 16
  pub uid_lt : i.uid < 2 ^ 16
  pub size_lt : i.size < 2 ^ 32
  pub atime_lt : i.atime < 2 ^ 32
  pub ctime_lt : i.ctime < 2 ^ 32
  pub mtime_lt : i.mtime < 2 ^ 32
  pub gid_lt : i.gid < 2 ^ 16
  pub links_count_lt : i.links_count < 2 ^ 16
  pub blocks_lt : i.blocks < 2 ^ 32
  pub block_lt : AllLt (2 ^ 32) i.block
  pub words : length i.block ≡ 15

-- `ext2_bgdesc_t`, 20 bytes.
pub record Descriptor : Type 0 where
  pub block_bitmap : ℕ
  pub inode_bitmap : ℕ
  pub inode_table : ℕ
  pub free_blocks_count : ℕ
  pub free_inodes_count : ℕ
  pub used_dirs_count : ℕ
  pub pad : ℕ

abbrev pub descriptor_bytes : ℕ
descriptor_bytes = 20

unfoldable pub decode_descriptor : Buffer → ℕ → Descriptor
decode_descriptor b at = record {
  block_bitmap = load 4 b at;
  inode_bitmap = load 4 b (at + 4);
  inode_table = load 4 b (at + 8);
  free_blocks_count = load 2 b (at + 12);
  free_inodes_count = load 2 b (at + 14);
  used_dirs_count = load 2 b (at + 16);
  pad = load 2 b (at + 18);
}

-- `bgdt[0]` … `bgdt[n - 1]`
unfoldable pub descriptors : ℕ → Buffer → ℕ → List Descriptor
unfolding decode_descriptor
descriptors zero b at = []
descriptors (suc n) b at = decode_descriptor b at ∷ descriptors n b (at + descriptor_bytes)
