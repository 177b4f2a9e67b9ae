-- ===== src/Ata/Disk.antt =====
-- What the transfers of kernel/ata.c promise: a disk is the bytes of its sectors, and a transfer copies
-- whole sectors. `none` is an access outside the caller's buffer.
pub mod Laws
use krnel.Base.{
  ℕ, zero, suc, ◌+◌, ◌*◌, ◌%◌, ◌^◌, ◌≡◌, Bool, not, ◌&&◌, Option, none, some, [], ◌++◌, leb, ◌==◌,
  if◌then◌else◌, length, take, drop,
}
use krnel.Base.Int.{ℤ, pos, negsuc}
use krnel.CString.{Buffer}

abbrev pub sector_size : ℕ
sector_size = 512

-- `sector` gives the 512 bytes of each sector.
pub record Disk : Type 0 where
  pub present : ℕ
  pub sectors : ℕ
  pub sector : ℕ → Buffer

-- The bytes of `n` sectors from `s` on.
unfoldable pub range : (ℕ → Buffer) → ℕ → ℕ → Buffer
range f s zero = []
range f s (suc n) = f s ++ range f (s + 1) n

abbrev pub put_sector : (ℕ → Buffer) → ℕ → Buffer → ℕ → Buffer
put_sector f s b t = if t == s then b else f t

-- The sectors after a write of `n` of them from `s` on.
unfoldable pub put_range : (ℕ → Buffer) → ℕ → ℕ → Buffer → ℕ → Buffer
put_range f s zero b = f
put_range f s (suc n) b = put_range (put_sector f s (take 512 b)) (s + 1) n (drop 512 b)

-- The three tests in front of a transfer; the sum is one of `u32`.
unfoldable pub accepts : Disk → ℕ → ℕ → Bool
accepts d lba count =
    not (d.present == 0) && (not (count == 0) && leb ((lba + count) % 2 ^ 32) d.sectors)

-- The drive is sent the low 28 bits of the address.
unfoldable pub read_sectors : Disk → ℕ → ℕ → Buffer → Option (ℤ × Buffer)
unfolding accepts range
read_sectors d lba count buffer =
    if accepts d lba count
    then if leb (count * sector_size) (length buffer)
      then some (
        pos (count * sector_size),
        range d.sector (lba % 2 ^ 28) count ++ drop (count * sector_size) buffer,
      )
      else none
    else some (negsuc 0, buffer)

unfoldable pub write_sectors : Disk → ℕ → ℕ → Buffer → Option (Disk × ℤ)
unfolding accepts put_range
write_sectors d lba count buffer =
    if accepts d lba count
    then if leb (count * sector_size) (length buffer)
      then some (
        record d { sector = put_range d.sector (lba % 2 ^ 28) count buffer },
        pos (count * sector_size),
      )
      else none
    else some (d, negsuc 0)
