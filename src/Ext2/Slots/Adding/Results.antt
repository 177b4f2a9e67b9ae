-- ===== src/Ext2/Slots/Adding/Results.antt =====
-- `ext2_add_dirent` on a whole directory, and looking up what it added.
use krnel.Base.{
  ℕ, ◌^◌, ◌<◌, ◌≡◌, ◌≢◌, refl, sym, ◌∙◌, ap, subst, ltb, Bool, true, false, Option, none, some,
  List, [], ◌∷◌, arith, length, if◌then◌else◌, Bool-cases, inl, inr,
}
use krnel.Base.Int.{ℤ, pos, negsuc}
use krnel.CString.{Buffer, ◌>>=◌, text, terminated}
use krnel.Ext2.{Ext2, State, ext2_read_inode}
use krnel.Ext2.Layout.{Inode}
use krnel.Ext2.Directory.{add_in, ext2_add_dirent}
use krnel.Ext2.Lookup.{ext2_find_inode}
use krnel.Ext2.Blocks.{IsReady}
use krnel.Ext2.Slots.{Slot, blank, dead, entry, Slots, add_entry, lookup_name, same_list}
use krnel.Ext2.Slots.Finding.{ext2_find_inode-Slots, found_number}
use krnel.Ext2.Slots.Adding.{IsDirectory, has_room}
use krnel.Ext2.Slots.Adding.Loop.{add_loop-Added, add_loop-full}

pub same_list_eq : (x y : List ℕ) → same_list x y ≡ true → x ≡ y
same_list_eq [] [] h = refl
same_list_eq [] (q ∷ y) h = cc
same_list_eq (p ∷ x) [] h = cc
same_list_eq (p ∷ x) (q ∷ y) h = elim (Bool-cases (same_list x y)) [
  | inl e ↦ ground (arith, same_list_eq x y e)
  | inr e ↦ ground (arith, e)
]

not_same :
    (x : List ℕ) (m : ℕ) (xs : List Slot) (name : List ℕ)
    → lookup_name (entry x m ∷ xs) name ≡ none
    → same_list x name ≡ false
unfolding lookup_name
not_same x m xs name h = elim (Bool-cases (same_list x name)) [
  | inl e ↦ let q : some m ≡ none = rw e at h in cc q
  | inr e ↦ e
]

-- Adding a name that is not there: it is found, and every other name as before.
pub lookup_name-add_entry :
    (xs : List Slot) (name other : List ℕ) (n : ℕ)
    → lookup_name xs name ≡ none
    → lookup_name (add_entry xs name n) other
      ≡ (if same_list name other then some n else lookup_name xs other)
unfolding lookup_name add_entry
lookup_name-add_entry [] name other n h = elim (Bool-cases (same_list name other)) [
  | inl e ↦ rw e
  | inr e ↦ rw e
]
lookup_name-add_entry (blank ∷ xs) name other n h = elim (Bool-cases (same_list name other)) [
  | inl e ↦ rw e
  | inr e ↦ rw e
]
lookup_name-add_entry (dead ∷ xs) name other n h = lookup_name-add_entry xs name other n h
lookup_name-add_entry (entry x m ∷ xs) name other n h =
    let apart : same_list x name ≡ false = not_same x m xs name h in
    let rest : lookup_name xs name ≡ none = rw apart at h in
    elim (Bool-cases (same_list x other)) [
      | inl e ↦ elim (Bool-cases (same_list name other)) [
        | inl f ↦
            let q : same_list x name ≡ true =
              subst (λ o. same_list x o ≡ true) (sym (same_list_eq name other f)) e in
            cc (apart, q)
        | inr f ↦ rw (e, f)
      ]
      | inr e ↦ rw e (lookup_name-add_entry xs name other n rest)
    ]

chosen :
    (child : ℕ) (o : Option ℕ) (found : Option (ℤ × Option Inode)) (b : Bool)
    → child < 2 ^ 31
    → found ≡ some (found_number o, none)
    → ◌≡◌ {A = Option (ℤ × Option Inode)}
        (some (found_number (if b then some child else o), none))
        (if b then some (pos child, none) else found)
chosen child o found true lt e =
    let positive : ltb child (2 ^ 31) ≡ true = ground arith in rw positive
chosen child o found false lt e = sym e

module _ (frame : Buffer) (whole : length frame ≡ 1024) (fs : Ext2) (n : ℕ) (name : Buffer)
    (child file_type : ℕ) (ended : terminated name ≡ true) (short : length (text name) < 256)
    (s : State) (dir : Inode) (blk off : ℕ) (h : IsDirectory fs s n blk off dir) (xs : List Slot)
    (reads : ext2_read_inode frame fs s.disk n ≡ some (some dir))
    (slots : Slots 12 fs s.disk dir.block 0 xs) where
  -- Adding a new name of fewer than 256 bytes to a directory with room succeeds; afterwards the name is found
  -- with its inode, and every other such name as before.
  pub ext2_find_inode-ext2_add_dirent :
      child ≢ 0
      → child < 2 ^ 31
      → has_room 12 xs ≡ true
      → lookup_name xs (text name) ≡ none
      → (other : Buffer) → terminated other ≡ true
      → length (text other) < 256
      → (s' : State) × (ext2_add_dirent frame fs s n name child file_type ≡ some (s', pos 0))
        × (ext2_find_inode frame fs s'.disk n other none ≡ (
            if same_list (text name) (text other)
            then some (pos child, none)
            else ext2_find_inode frame fs s.disk n other none))
  unfolding ext2_add_dirent
  ext2_find_inode-ext2_add_dirent nz lt room absent other ended' short' =
      let (s', dir', e, a) =
        add_loop-Added frame whole fs n name child file_type ended short nz (omega arith) s dir blk
          off h 12 0 xs frame refl slots whole room in
      let before : ext2_find_inode frame fs s.disk n other none
          ≡ some (found_number (lookup_name xs (text other)), none) =
        ext2_find_inode-Slots frame n dir xs other whole h.ready reads slots ended' short' in
      (
        s',
        rw reads e,
        ext2_find_inode-Slots frame n dir' (add_entry xs (text name) child) other whole a.ready
              a.reads a.slots ended' short'
            ∙ ap (λ o. some (found_number o, none))
                (lookup_name-add_entry xs (text name) (text other) child absent)
            ∙ chosen child (lookup_name xs (text other))
                (ext2_find_inode frame fs s.disk n other none) (same_list (text name) (text other))
                lt before,
      )

-- A directory of which all twelve blocks hold an entry or a removed one takes no other name: the result is
-- -1, and nothing is written.
pub ext2_add_dirent-full :
    (frame : Buffer) (fs : Ext2) (n : ℕ) (name : Buffer) (child file_type : ℕ) (s : State)
    (dir : Inode) (xs : List Slot)
    → length frame ≡ 1024
    → terminated name ≡ true
    → length (text name) < 256
    → IsReady fs s.disk
    → ext2_read_inode frame fs s.disk n ≡ some (some dir)
    → Slots 12 fs s.disk dir.block 0 xs
    → has_room 12 xs ≡ false
    → ext2_add_dirent frame fs s n name child file_type ≡ some (s, negsuc 0)
unfolding ext2_add_dirent
ext2_add_dirent-full frame fs n name child file_type s dir xs whole ended short ready reads slots
      full =
    ap (λ o. o >>= add_in frame fs s n name child file_type) reads
    ∙ add_loop-full frame whole fs n name child file_type ended short s dir ready 12 0 xs frame
        slots whole full
