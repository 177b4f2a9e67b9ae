-- ===== src/Ext2/Slots/Adding.antt =====
-- The directories that `ext2_add_dirent` is run on, and those that have room.
pub mod Steps
pub mod Entered
pub mod Loop
pub mod Results
use krnel.Base.{
  ℕ, zero, suc, ◌+◌, ◌-◌, ◌%◌, ◌^◌, ◌≤◌, ◌<◌, ◌≡◌, ◌≢◌, refl, sym, ◌∙◌, ap, subst, Bool, true,
  false, none, some, List, [], ◌∷◌, arith, get_or, length,
}
use krnel.Base.Int.{ℤ, pos, negsuc}
use krnel.CString.{Buffer}
use krnel.Ata.Disk.{Disk}
use krnel.Ext2.{Ext2, State, ext2_read_inode}
use krnel.Ext2.Layout.{Inode, IsInode}
use krnel.Ext2.Blocks.{IsReady, OnDisk, block_at}
use krnel.Ext2.Inodes.{Placed}
use krnel.Ext2.Slots.{Slot, blank, dead, entry, Holds, Slots}

-- A directory's inode `n` lies in block `blk`, its own blocks are distinct and were handed out before, and
-- there is a block to hand out.
pub record IsDirectory (fs : Ext2) (s : State) (n blk off : ℕ) (dir : Inode) : Type 0 where
  pub ready : IsReady fs s.disk
  pub placed : Placed fs s.disk n blk off
  pub valid : IsInode dir
  pub handed_out : (i : ℕ) → i < 12 → get_or dir.block i 0 < s.next_block
  pub apart : (i : ℕ) → i < 12 → get_or dir.block i 0 ≢ 0 → get_or dir.block i 0 ≢ blk
  pub distinct :
      (i j : ℕ)
      → i < j
      → j < 12
      → get_or dir.block i 0 ≢ 0
      → get_or dir.block i 0 ≢ get_or dir.block j 0
  pub before : blk < s.next_block
  pub free : OnDisk fs s.disk s.next_block

-- There is a free slot, or a pointer for a new one.
abbrev pub has_room : ℕ → List Slot → Bool
has_room zero xs = false
has_room (suc k) [] = true
has_room (suc k) (blank ∷ xs) = true
has_room (suc k) (dead ∷ xs) = has_room k xs
has_room (suc k) (entry name n ∷ xs) = has_room k xs

-- Slots are the same where the pointers and their blocks are.
pub Slots-same :
    (k : ℕ) (fs : Ext2) (d d' : Disk) (block block' : List ℕ) (j : ℕ) (xs : List Slot)
    → d'.sectors ≡ d.sectors
    → ((i : ℕ) → j ≤ i → i < j + k → get_or block' i 0 ≡ get_or block i 0)
    → ((i : ℕ)
        → j ≤ i
        → i < j + k
        → get_or block i 0 ≢ 0
        → block_at fs d' (get_or block i 0) ≡ block_at fs d (get_or block i 0))
    → Slots k fs d block j xs
    → Slots k fs d' block' j xs
Slots-same zero fs d d' block block' j [] e p b h = tt
Slots-same zero fs d d' block block' j (x ∷ xs) e p b h = h
Slots-same (suc k) fs d d' block block' j [] e p b h = (
  p j (omega arith) (omega arith) ∙ h.0,
  Slots-same k fs d d' block block' (j + 1) [] e (λ i lo hi. p i (omega arith) (omega arith))
      (λ i lo hi. b i (omega arith) (omega arith)) h.1,
)
Slots-same (suc k) fs d d' block block' j (x ∷ xs) e p b (used, on, holds, rest) =
    let q : get_or block' j 0 ≡ get_or block j 0 = p j (omega arith) (omega arith) in
    (
      rw q used,
      rw q (omega (arith, e)),
      rw q (subst (Holds x) (sym (b j (omega arith) (omega arith) used)) holds),
      Slots-same k fs d d' block block' (j + 1) xs e (λ i lo hi. p i (omega arith) (omega arith))
          (λ i lo hi. b i (omega arith) (omega arith)) rest,
    )
