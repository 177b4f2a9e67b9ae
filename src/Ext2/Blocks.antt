-- ===== src/Ext2/Blocks.antt =====
-- Reading and writing the blocks of a mounted file system.
use krnel.Base.{
  ℕ, suc, ◌+◌, ◌*◌, ◌%◌, ◌^◌, ◌≤◌, ◌<◌, ◌≡◌, ◌≢◌, refl, ◌∙◌, ap, ap₂, ltb, true, some, List, [],
  ◌∷◌, ◌++◌, arith, length, drop, inl, inr, Bool-cases, zero,
}
use krnel.Base.Int.{pos}
use krnel.CString.{Buffer}
use krnel.Ata.Disk.{Disk, range, put_range, accepts, read_sectors, write_sectors}
use krnel.Ata.Disk.Laws.{
  length-put_range, accepts_lem, read_sectors_lem, write_sectors_lem, put_range-outside,
  range-put_range, range_ext, length-range,
}
use krnel.Ext2.{Ext2, block_to_lba, ext2_read_block, ext2_write_block}

-- A disk that answers, with whole sectors that 28 bits address, and a file system of 1024-byte blocks.
pub record IsReady (fs : Ext2) (d : Disk) : Type 0 where
  pub is_present : d.present ≢ 0
  pub addressable : d.sectors ≤ 2 ^ 28
  pub full : (s : ℕ) → length (d.sector s) ≡ 512
  pub is_small_block : fs.block_size ≡ 1024
  pub two_sectors : fs.sectors_per_block ≡ 2

-- Block `n` lies on the disk.
abbrev pub OnDisk : Ext2 → Disk → ℕ → Type 0
OnDisk fs d n = fs.partition_start + n * 2 + 2 ≤ d.sectors

-- The bytes of block `n`.
unfoldable pub block_at : Ext2 → Disk → ℕ → Buffer
block_at fs d n = range d.sector (fs.partition_start + n * 2) 2

unfoldable pub put_block : Ext2 → Disk → ℕ → Buffer → Disk
put_block fs d n b = record d { sector = put_range d.sector (fs.partition_start + n * 2) 2 b }

pub put_block-sectors :
    (fs : Ext2) (d : Disk) (n : ℕ) (b : Buffer) → (put_block fs d n b).sectors ≡ d.sectors
unfolding put_block
put_block-sectors fs d n b = refl

pub drop-all {ℓ} : {A : Type ℓ} (n : ℕ) (xs : List A) → length xs ≤ n → drop n xs ≡ []
drop-all zero [] h = refl
drop-all zero (x ∷ xs) h = absurd (omega arith)
drop-all (suc n) [] h = refl
drop-all (suc n) (x ∷ xs) h = drop-all n xs (omega arith)

pub append_nil {ℓ} : {A : Type ℓ} (xs : List A) → xs ++ [] ≡ xs
append_nil [] = refl
append_nil (x ∷ xs) = ap (λ ys. x ∷ ys) (append_nil xs)

module _ {fs : Ext2} {d : Disk} (r : IsReady fs d) where
  lba : (n : ℕ) → OnDisk fs d n → block_to_lba fs n ≡ fs.partition_start + n * 2
  lba n h =
      ap (λ k. (fs.partition_start + n * k) % 2 ^ 32) r.two_sectors
      ∙ (let q = r.addressable in omega arith)

  count : fs.sectors_per_block % 256 ≡ 2
  count = ap (λ k. k % 256) r.two_sectors

  taken : (n : ℕ) → OnDisk fs d n → accepts d (fs.partition_start + n * 2) 2 ≡ true
  taken n h =
      accepts_lem d (fs.partition_start + n * 2) 2 r.is_present (omega arith) h r.addressable

  small : (n : ℕ) → OnDisk fs d n → fs.partition_start + n * 2 < 2 ^ 28
  small n h = let q = r.addressable in omega arith

  pub length-block_at : (n : ℕ) → length (block_at fs d n) ≡ 1024
  unfolding block_at
  length-block_at n = length-range d.sector (fs.partition_start + n * 2) 2 r.full

  pub ext2_read_block_lem :
      (n : ℕ) (buffer : Buffer)
      → OnDisk fs d n
      → length buffer ≡ 1024
      → ext2_read_block fs d n buffer ≡ some (pos 1024, block_at fs d n)
  unfolding ext2_read_block block_at
  ext2_read_block_lem n buffer h l =
      ap₂ (λ a c. read_sectors d a c buffer) (lba n h) count
      ∙ read_sectors_lem d (fs.partition_start + n * 2) 2 buffer (taken n h) (small n h)
          (omega arith)
      ∙ ap (λ b. some (pos 1024, block_at fs d n ++ b)) (drop-all 1024 buffer (omega arith))
      ∙ ap (λ b. some (pos 1024, b)) (append_nil (block_at fs d n))

  pub ext2_write_block_lem :
      (n : ℕ) (b : Buffer)
      → OnDisk fs d n
      → length b ≡ 1024
      → ext2_write_block fs d n b ≡ some (put_block fs d n b, pos 1024)
  unfolding ext2_write_block put_block
  ext2_write_block_lem n b h l =
      ap₂ (λ a c. write_sectors d a c b) (lba n h) count
      ∙ write_sectors_lem d (fs.partition_start + n * 2) 2 b (taken n h) (small n h) (omega arith)

  pub put_block-IsReady : (n : ℕ) (b : Buffer) → length b ≡ 1024 → IsReady fs (put_block fs d n b)
  unfolding put_block
  put_block-IsReady n b l = record {
    is_present = r.is_present;
    addressable = r.addressable;
    full = length-put_range d.sector (fs.partition_start + n * 2) 2 b r.full l;
    is_small_block = r.is_small_block;
    two_sectors = r.two_sectors;
  }

pub block_at-put_block_self :
    (fs : Ext2) (d : Disk) (n : ℕ) (b : Buffer)
    → length b ≡ 1024
    → block_at fs (put_block fs d n b) n ≡ b
unfolding block_at put_block
block_at-put_block_self fs d n b l = range-put_range d.sector (fs.partition_start + n * 2) 2 b l

pub block_at-put_block_ne :
    (fs : Ext2) (d : Disk) (n m : ℕ) (b : Buffer)
    → n ≢ m
    → block_at fs (put_block fs d n b) m ≡ block_at fs d m
unfolding block_at put_block
block_at-put_block_ne fs d n m b h =
    range_ext (put_range d.sector (fs.partition_start + n * 2) 2 b) d.sector
      (fs.partition_start + m * 2) 2
      (λ t p q.
        put_range-outside d.sector (fs.partition_start + n * 2) 2 b t (elim (Bool-cases (ltb n m)) [
          | inl before ↦ inr (ground arith)
          | inr after ↦ inl (ground arith)
        ]))
