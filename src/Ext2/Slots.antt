-- ===== src/Ext2/Slots.antt =====
-- The abstract view of a directory: one slot for each of its blocks, since an entry takes the whole block.
pub mod Finding
pub mod Entries
pub mod Adding
use krnel.Base.{
  ℕ, zero, suc, ◌+◌, ◌<◌, ◌≡◌, ◌≢◌, Bool, true, false, ◌&&◌, Option, none, some, List, [], ◌∷◌,
  ◌==◌, if◌then◌else◌, get_or, drop, length,
}
use krnel.CString.{Buffer}
use krnel.Ata.Disk.{Disk}
use krnel.Ext2.{Ext2}
use krnel.Ext2.Layout.{load}
use krnel.Ext2.Blocks.{OnDisk, block_at}

-- A block with no entry yet, one of which the entry was removed, and a name with its inode.
pub data Slot : Type 0 where
  blank : Slot
  dead : Slot
  entry : List ℕ → ℕ → Slot

abbrev pub same_list : List ℕ → List ℕ → Bool
same_list [] [] = true
same_list [] (y ∷ ys) = false
same_list (x ∷ xs) [] = false
same_list (x ∷ xs) (y ∷ ys) = x == y && same_list xs ys

abbrev pub found_in : Slot → List ℕ → Option ℕ
found_in blank name = none
found_in dead name = none
found_in (entry other n) name = if same_list other name then some n else none

abbrev pub or_else : Option ℕ → Option ℕ → Option ℕ
or_else none o = o
or_else (some n) o = some n

-- The inode of the first entry with a name.
unfoldable pub lookup_name : List Slot → List ℕ → Option ℕ
lookup_name [] name = none
lookup_name (x ∷ xs) name = or_else (found_in x name) (lookup_name xs name)

-- The first blank slot takes the entry, or a new one behind the others.
unfoldable pub add_entry : List Slot → List ℕ → ℕ → List Slot
add_entry [] name n = entry name n ∷ []
add_entry (blank ∷ xs) name n = entry name n ∷ xs
add_entry (dead ∷ xs) name n = dead ∷ add_entry xs name n
add_entry (entry other m ∷ xs) name n = entry other m ∷ add_entry xs name n

-- The list is at the front of the buffer.
abbrev pub Starts : List ℕ → Buffer → Type 0
Starts [] b = Unit {0}
Starts (c ∷ x) [] = ⊥
Starts (c ∷ x) (e ∷ b) = (e ≡ c) × Starts x b

-- What a block holds.
abbrev pub Holds : Slot → Buffer → Type 0
Holds blank b = (load 4 b 0 ≡ 0) × (load 2 b 4 ≡ 0)
Holds dead b = (load 4 b 0 ≡ 0) × (load 2 b 4 ≡ 1024)
Holds (entry name n) b =
    (load 4 b 0 ≡ n)
    × (n ≢ 0)
    × (load 2 b 4 ≡ 1024)
    × (get_or b 6 0 ≡ length name)
    × (length name < 256)
    × Starts name (drop 8 b)

-- The `k` pointers from `j` on lead to the slots, and are 0 behind them.
abbrev pub Slots : ℕ → Ext2 → Disk → List ℕ → ℕ → List Slot → Type 0
Slots zero fs d block j [] = Unit {0}
Slots zero fs d block j (x ∷ xs) = ⊥
Slots (suc k) fs d block j [] = (get_or block j 0 ≡ 0) × Slots k fs d block (j + 1) []
Slots (suc k) fs d block j (x ∷ xs) =
    (get_or block j 0 ≢ 0)
    × OnDisk fs d (get_or block j 0)
    × Holds x (block_at fs d (get_or block j 0))
    × Slots k fs d block (j + 1) xs
