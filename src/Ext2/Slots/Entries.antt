-- ===== src/Ext2/Slots/Entries.antt =====
-- Where `ext2_add_dirent` puts an entry in a block, and what the block holds then.
use krnel.Base.{
  ℕ, zero, suc, ◌+◌, ◌%◌, ◌^◌, ◌≤◌, ◌<◌, ◌≡◌, ◌≢◌, refl, true, false, none, some, List, [], ◌∷◌,
  ◌++◌, arith, leb, ltb, length, drop, replicate, length-append, length-drop,
}
use krnel.Base.Int.{ℤ, low_byte}
use krnel.CString.{Buffer, text, terminated, memset}
use krnel.CString.Copy.{strlen-text, strcpy_fits}
use krnel.Ext2.Layout.{load, bytes_of}
use krnel.Ext2.Directory.{rec_len, find_slot, put_dirent}
use krnel.Ext2.Slots.{entry, Starts, Holds}

pub memset_lem :
    (d : Buffer) (v : ℤ) (n : ℕ)
    → n ≤ length d
    → memset d v n ≡ some (replicate n (low_byte v) ++ drop n d)
unfolding memset
memset_lem d v zero h = refl
memset_lem [] v (suc n) h = absurd (omega arith)
memset_lem (x ∷ d) v (suc n) h = rw (memset_lem d v n (omega arith))

-- A block without a length takes an entry at its start.
pub find_slot_free :
    (k : ℕ) (b : Buffer)
    → length b ≡ 1024
    → rec_len b 0 ≡ 0
    → find_slot (suc (suc k)) 1024 b 0 ≡ some (some 0)
unfolding find_slot
find_slot_free k b l e =
    let room : leb 6 (length b) ≡ true = ground arith in
    let free : ltb (rec_len b 0) 8 ≡ true = ground arith in rw (room, free)

-- A block that one entry fills takes none.
pub find_slot_full :
    (k : ℕ) (b : Buffer)
    → length b ≡ 1024
    → rec_len b 0 ≡ 1024
    → find_slot (suc (suc k)) 1024 b 0 ≡ some none
unfolding find_slot
find_slot_full k b l e =
    let room : leb 6 (length b) ≡ true = ground arith in
    let used : ltb (rec_len b 0) 8 ≡ false = ground arith in
    let out : ltb (0 + rec_len b 0) 1024 ≡ false = ground arith in rw (room, used, out)

-- The block with one entry at its start.
abbrev pub page_of : Buffer → Buffer → ℕ → ℕ → Buffer
page_of b name child file_type =
    bytes_of 4 child
    ++ (bytes_of 2 1024
        ++ ((length (text name) % 256)
            ∷ file_type
            ∷ (text name ++ 0 ∷ drop (suc (length (text name))) (drop 8 b))))

Starts-append : (x y : List ℕ) → Starts x (x ++ y)
Starts-append [] y = tt
Starts-append (c ∷ x) y = (refl, Starts-append x y)

module _ (b name : Buffer) (child file_type : ℕ) (l : length b ≡ 1024)
    (ended : terminated name ≡ true) (fits : length (text name) < 256) where
  pub put_dirent_lem :
      put_dirent 1024 b 0 name child file_type ≡ some (page_of b name child file_type)
  unfolding put_dirent
  put_dirent_lem =
      let room : length (text name) < length (drop 8 b) = omega (arith, length-drop 8 b) in
      rw ((strlen-text name ended).0, strcpy_fits (drop 8 b) name ended room)

  pub length-page_of : length (page_of b name child file_type) ≡ 1024
  length-page_of = omega (
    arith,
    length-append (text name) (0 ∷ drop (suc (length (text name))) (drop 8 b)),
    length-drop (suc (length (text name))) (drop 8 b),
    length-drop 8 b,
  )

  pub page_of-Holds :
      child ≢ 0 → child < 2 ^ 32 → Holds (entry (text name) child) (page_of b name child file_type)
  unfolding load
  page_of-Holds h k = (
    omega arith,
    h,
    omega arith,
    omega arith,
    fits,
    Starts-append (text name) (0 ∷ drop (suc (length (text name))) (drop 8 b)),
  )
