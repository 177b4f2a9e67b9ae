-- ===== src/Ext2/Files.antt =====
-- The contents of a file: the blocks that `ext2_write_file` fills, and what `ext2_read_file` reads there.
pub mod Reading
pub mod Writing
pub mod RoundTrip
use krnel.Base.{ℕ, zero, suc, ◌+◌, ◌-◌, ◌<◌, ◌≤◌, ◌≡◌, ◌≢◌, min, List, get_or, arith, ap, ◌∙◌}
use krnel.CString.{Buffer}
use krnel.Ata.Disk.{Disk}
use krnel.Ext2.{Ext2}
use krnel.Ext2.Blocks.{OnDisk, block_at}

-- The `n` bytes of `source` from `from` on are at the front of block `m`.
abbrev pub Page : Ext2 → Disk → ℕ → Buffer → ℕ → ℕ → Type 0
Page fs d m source from n =
    (i : ℕ) → i < n → get_or (block_at fs d m) i 0 ≡ get_or source (from + i) 0

-- The bytes of `source` from `from` up to `size` are in the `k` blocks of which the numbers stand in `block`
-- from `j` on, as far as these go; the numbers are `low` at least.
abbrev pub Stored : ℕ → ℕ → Ext2 → Disk → List ℕ → ℕ → ℕ → ℕ → Buffer → Type 0
Stored zero low fs d block j from size source = Unit {0}
Stored (suc k) low fs d block j from size source =
    from < size
    → (get_or block j 0 ≢ 0)
      × (low ≤ get_or block j 0)
      × OnDisk fs d (get_or block j 0)
      × Page fs d (get_or block j 0) source from (min 1024 (size - from))
      × Stored k low fs d block (j + 1) (from + min 1024 (size - from)) size source

-- What is stored depends on its own blocks only.
pub Stored-same :
    (k low : ℕ) (fs : Ext2) (d d' : Disk) (block : List ℕ) (j from size : ℕ) (source : Buffer)
    → d'.sectors ≡ d.sectors
    → ((m : ℕ) → low ≤ m → block_at fs d' m ≡ block_at fs d m)
    → Stored k low fs d block j from size source
    → Stored k low fs d' block j from size source
Stored-same zero low fs d d' block j from size source e same h = tt
Stored-same (suc k) low fs d d' block j from size source e same h = λ more.
    let (used, high, on, page, rest) = h more in
    (
      used,
      high,
      omega (arith, e),
      λ i lt. ap (λ b. get_or b i 0) (same (get_or block j 0) high) ∙ page i lt,
      Stored-same k low fs d d' block (j + 1) (from + min 1024 (size - from)) size source e same
          rest,
    )
