-- ===== src/Fs/Listing/Bounds.antt =====
-- What `fs_list` of kernel/fs.c writes to its caller's buffer.
use krnel.Base.{ℕ, ◌+◌, ◌≡◌, Option, none, some, length}
use krnel.Ata.Disk.{Disk}
use krnel.Ext2.{Ext2}
use krnel.Fs.Listing.{Listed}

-- What is written and what is left make up `n` bytes, where there is a result.
abbrev pub Fits : ℕ → Option Listed → Type 0
Fits n none = Unit {0}
Fits n (some p) = length p.out + p.left ≡ n
