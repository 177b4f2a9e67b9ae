-- ===== src/Ext2/Slots/Finding.antt =====
-- `ext2_find_inode` on the slots of a directory.
use krnel.Base.{
  ℕ, zero, suc, ◌+◌, ◌%◌, ◌<◌, ◌≡◌, ◌≢◌, refl, ◌∙◌, ap, true, false, Option, none, some, List, [],
  ◌∷◌, arith, ◌==◌, length, get_or, drop, Bool-cases, inl, inr, leb, ltb, ◌⊎◌, ==_iff,
}
use krnel.Base.Int.{ℤ, negsuc}
use krnel.CString.{Buffer, text, terminated}
use krnel.CString.Compare.{memcmp}
use krnel.CString.Copy.{strlen-text}
use krnel.Ata.Disk.{Disk}
use krnel.Ext2.{Ext2, ext2_read_inode}
use krnel.Ext2.Layout.{Inode, load}
use krnel.Ext2.Directory.{rec_len}
use krnel.Ext2.Lookup.{
  is_entry, is_same, scan_block, found_or, find_loop, ext2_find_inode, give_inode, to_int,
}
use krnel.Ext2.Blocks.{IsReady, OnDisk, block_at, length-block_at, ext2_read_block_lem}
use krnel.Ext2.Slots.{
  Slot, blank, dead, entry, same_list, found_in, or_else, lookup_name, Starts, Holds, Slots,
}

-- `memcmp` of two buffers that start with lists of one length compares these.
is_same-memcmp :
    (x y : List ℕ) (a b : Buffer)
    → Starts x a
    → Starts y b
    → length x ≡ length y
    → is_same (memcmp a b (length y)) ≡ some (same_list x y)
unfolding memcmp
is_same-memcmp [] [] a b h k e = refl
is_same-memcmp [] (q ∷ y) a b h k e = absurd (omega arith)
is_same-memcmp (p ∷ x) [] a b h k e = absurd (omega arith)
is_same-memcmp (p ∷ x) (q ∷ y) [] b h k e = absurd h
is_same-memcmp (p ∷ x) (q ∷ y) (c ∷ a) [] h k e = absurd k
is_same-memcmp (p ∷ x) (q ∷ y) (c ∷ a) (f ∷ b) (h, hs) (k, ks) e =
    ground (arith, is_same-memcmp x y a b hs ks)

same_list-length : (x y : List ℕ) → length x ≢ length y → same_list x y ≡ false
same_list-length [] [] h = absurd (h refl)
same_list-length [] (q ∷ y) h = refl
same_list-length (p ∷ x) [] h = refl
same_list-length (p ∷ x) (q ∷ y) h = ground (arith, same_list-length x y)

pub Starts-text : (s : Buffer) → terminated s ≡ true → Starts (text s) s
Starts-text [] h = cc
Starts-text (c ∷ s) h = elim (Bool-cases (c == 0)) [
  | inl e ↦ rw e tt
  | inr e ↦ rw e (refl, Starts-text s (rw e at h))
]

module _ (name : Buffer) (ended : terminated name ≡ true) (short : length (text name) < 256) where
  is_entry-Holds :
      (b : Buffer) (other : List ℕ) (n : ℕ)
      → length b ≡ 1024
      → Holds (entry other n) b
      → is_entry b 0 name (length (text name)) ≡ some (same_list other (text name))
  unfolding is_entry
  is_entry-Holds b other n l h =
      let room₄ : leb 4 (length b) ≡ true = ground arith in
      let room₇ : leb 7 (length b) ≡ true = ground arith in
      let used : (load 4 b 0 == 0) ≡ false = let (a, c, _, _, _, _) = h in ground arith in
      rw (room₄, used, room₇)
        (elim (Bool-cases (length other == length (text name))) [
          | inl e ↦
              let eq : length other ≡ length (text name) = (==_iff _ _).0 e in
              let len : (get_or b 6 0 == length (text name) % 256) ≡ true =
                let (_, _, _, q, _, _) = h in ground arith in
              rw len
                (is_same-memcmp other (text name) (drop 8 b) name h.5 (Starts-text name ended) eq)
          | inr e ↦
              let ne : length other ≢ length (text name) = ground arith in
              let len : (get_or b 6 0 == length (text name) % 256) ≡ false =
                let (_, _, _, q, _, _) = h in ground arith in
              rw (len, same_list-length other (text name) ne)
        ])

  is_entry-unused :
      (b : Buffer)
      → length b ≡ 1024
      → load 4 b 0 ≡ 0
      → is_entry b 0 name (length (text name)) ≡ some false
  unfolding is_entry
  is_entry-unused b l e =
      let room : leb 4 (length b) ≡ true = ground arith in
      let unused : (load 4 b 0 == 0) ≡ true = ground arith in rw (room, unused)

  scan_end :
      (k : ℕ) (b : Buffer)
      → length b ≡ 1024
      → is_entry b 0 name (length (text name)) ≡ some false
      → (rec_len b 0 ≡ 0) ⊎ (rec_len b 0 ≡ 1024)
      → scan_block (suc (suc k)) b name (length (text name)) 0 ≡ some none
  unfolding scan_block
  scan_end k b l e (inl z) =
      let room : leb 6 (length b) ≡ true = ground arith in
      let stop : (rec_len b 0 == 0) ≡ true = ground arith in rw (e, room, stop)
  scan_end k b l e (inr z) =
      let room : leb 6 (length b) ≡ true = ground arith in
      let go : (rec_len b 0 == 0) ≡ false = ground arith in
      let out : ltb (0 + rec_len b 0) 1024 ≡ false = ground arith in rw (e, room, go, out)

  scan_found :
      (k : ℕ) (b : Buffer)
      → is_entry b 0 name (length (text name)) ≡ some true
      → scan_block (suc (suc k)) b name (length (text name)) 0 ≡ some (some (load 4 b 0))
  unfolding scan_block
  scan_found k b e = rw e

  scan_block-Holds :
      (k : ℕ) (x : Slot) (b : Buffer)
      → length b ≡ 1024
      → Holds x b
      → scan_block (suc (suc k)) b name (length (text name)) 0 ≡ some (found_in x (text name))
  scan_block-Holds k blank b l h = scan_end k b l (is_entry-unused b l h.0) (inl h.1)
  scan_block-Holds k dead b l h = scan_end k b l (is_entry-unused b l h.0) (inr h.1)
  scan_block-Holds k (entry other n) b l h = elim (Bool-cases (same_list other (text name))) [
    | inl e ↦
        rw e
          (scan_found k b (is_entry-Holds b other n l h ∙ ap some e) ∙ ap (λ m. some (some m)) h.0)
    | inr e ↦ rw e (scan_end k b l (is_entry-Holds b other n l h ∙ ap some e) (inr h.2))
  ]

  module _ (fs : Ext2) (d : Disk) (r : IsReady fs d) (dir : Inode) where
    find_step :
        (k j : ℕ) (buf : Buffer) (found : Option ℕ)
        → length buf ≡ 1024
        → get_or dir.block j 0 ≢ 0
        → OnDisk fs d (get_or dir.block j 0)
        → scan_block 1024 (block_at fs d (get_or dir.block j 0)) name (length (text name)) 0
          ≡ some found
        → find_loop (suc k) fs d dir name (length (text name)) j buf
          ≡ found_or
              (find_loop k fs d dir name
                (length (text name))
                (j + 1)
                (block_at fs d (get_or dir.block j 0)))
              found
    unfolding find_loop
    find_step k j buf found l used on e =
        let go : (get_or dir.block j 0 == 0) ≡ false = ground arith in
        rw (go, ext2_read_block_lem r (get_or dir.block j 0) buf on l, e)

    found_or-or_else :
        (found : Option ℕ) (o : Option ℕ) → found_or (some o) found ≡ some (or_else found o)
    found_or-or_else none o = refl
    found_or-or_else (some n) o = refl

    pub find_loop-Slots :
        (k j : ℕ) (xs : List Slot) (buf : Buffer)
        → length buf ≡ 1024
        → Slots k fs d dir.block j xs
        → find_loop k fs d dir name (length (text name)) j buf ≡ some (lookup_name xs (text name))
    unfolding find_loop lookup_name
    find_loop-Slots zero j [] buf l h = refl
    find_loop-Slots zero j (x ∷ xs) buf l h = absurd h
    find_loop-Slots (suc k) j [] buf l h =
        let z : get_or dir.block j 0 ≡ 0 = h.0 in
        let stop : (get_or dir.block j 0 == 0) ≡ true = ground arith in rw stop
    find_loop-Slots (suc k) j (x ∷ xs) buf l (used, on, holds, rest) =
        let b = block_at fs d (get_or dir.block j 0) in
        find_step k j buf (found_in x (text name)) l used on
          (scan_block-Holds 1022 x b (length-block_at r (get_or dir.block j 0)) holds)
        ∙ ap (λ o. found_or o (found_in x (text name)))
            (find_loop-Slots k (j + 1) xs b (length-block_at r (get_or dir.block j 0)) rest)
        ∙ found_or-or_else (found_in x (text name)) (lookup_name xs (text name))

-- What `ext2_find_inode` returns for the inode found.
abbrev pub found_number : Option ℕ → ℤ
found_number none = negsuc 0
found_number (some n) = to_int n

-- On a directory whose blocks hold a list of slots, ext2_find_inode of a name of fewer than 256 bytes returns
-- what looking it up in the list gives, -1 where that is nothing.
pub ext2_find_inode-Slots :
    (frame : Buffer) {fs : Ext2} {d : Disk} (n : ℕ) (dir : Inode) (xs : List Slot) (name : Buffer)
    → length frame ≡ 1024
    → IsReady fs d
    → ext2_read_inode frame fs d n ≡ some (some dir)
    → Slots 12 fs d dir.block 0 xs
    → terminated name ≡ true
    → length (text name) < 256
    → ext2_find_inode frame fs d n name none
      ≡ some (found_number (lookup_name xs (text name)), none)
unfolding ext2_find_inode
ext2_find_inode-Slots frame {fs} {d} n dir xs name whole r e h ended short =
    rw
      (
        e,
        (strlen-text name ended).0,
        find_loop-Slots name ended short fs d r dir 12 0 xs frame whole h,
      )
      (given frame fs d (lookup_name xs (text name)))
  where
    given :
        (frame : Buffer) (fs : Ext2) (d : Disk) (o : Option ℕ)
        → give_inode frame fs d none o ≡ some (found_number o, none)
    given frame fs d none = refl
    given frame fs d (some n) = refl
