-- ===== src/Ext2/Files/Reading.antt =====
-- The loop of `ext2_read_file`.
use krnel.Base.{
  ℕ, zero, suc, ◌+◌, ◌-◌, ◌*◌, ◌/◌, ◌%◌, ◌≤◌, ◌<◌, ◌≡◌, ◌≢◌, refl, sym, ◌∙◌, ap, min, some, true,
  false, arith, length, get_or, take, drop, get_or_ext, length-append, length-take, length-drop,
  Bool-cases, subst, ltb, ltb→lt, ◌==◌, ◌⊎◌, inl, inr, ◌++◌,
}
use krnel.Base.Slices.{
  patch, length-patch, get_or-patch_in, get_or-patch_before, get_or-patch_after, get_or-take,
  get_or-drop, get_or-append_left, get_or-append_right,
}
use krnel.CString.{Buffer}
use krnel.Ata.Disk.{Disk}
use krnel.Ext2.{Ext2, read_loop, ext2_read_file, copy_part}
use krnel.Ext2.Layout.{Inode}
use krnel.Ext2.Blocks.{IsReady, OnDisk, block_at, length-block_at, ext2_read_block_lem}
use krnel.Ext2.Inodes.{copy_part_fits}
use krnel.Ext2.Files.{Page, Stored}

-- From `w` to `n` the buffer holds the source, elsewhere what it held before.
pub record Filled (w n : ℕ) (source dest dest' : Buffer) : Type 0 where
  pub same_length : length dest' ≡ length dest
  pub copied : (i : ℕ) → w ≤ i → i < n → get_or dest' i 0 ≡ get_or source i 0
  pub kept : (i : ℕ) → (i < w) ⊎ (n ≤ i) → get_or dest' i 0 ≡ get_or dest i 0

-- The whole buffer when it is filled from its start.
pub Filled-eq :
    (n : ℕ) (source dest dest' : Buffer)
    → Filled 0 n source dest dest'
    → n ≤ length source
    → n ≤ length dest
    → dest' ≡ take n source ++ drop n dest
Filled-eq n source dest dest' f h k =
    get_or_ext dest' (take n source ++ drop n dest) 0
      (omega (
        arith,
        f.same_length,
        length-append (take n source) (drop n dest),
        length-take n source,
        length-drop n dest,
      ))
      (λ i lt. elim (Bool-cases (ltb i n)) [
        | inl front ↦
            f.copied i (omega arith) (ltb→lt i n front)
            ∙ sym (
                get_or-append_left (take n source) (drop n dest) i 0
                  (omega (arith, ltb→lt i n front, length-take n source))
                ∙ get_or-take n source i 0 (ltb→lt i n front))
        | inr back ↦
            f.kept i (inr (ground arith))
            ∙ sym (
                ap (λ x. get_or (take n source ++ drop n dest) x 0)
                  (let e : i ≡ length (take n source) + (i - n) =
                      let q : n ≤ i = ground arith in omega (arith, length-take n source) in
                    e)
                ∙ get_or-append_right (take n source) (drop n dest) (i - n) 0
                ∙ get_or-drop n dest (i - n) 0
                ∙ ap (λ x. get_or dest x 0) (let q : n ≤ i = ground arith in omega arith))
      ])

Filled-trans :
    (w m n : ℕ) (source dest dest₁ dest₂ : Buffer)
    → Filled w m source dest dest₁
    → Filled m n source dest₁ dest₂
    → w ≤ m
    → m ≤ n
    → Filled w n source dest dest₂
Filled-trans w m n source dest dest₁ dest₂ f g le le' = record {
  same_length = g.same_length ∙ f.same_length;
  copied = λ i lo hi. elim (Bool-cases (ltb i m)) [
    | inl front ↦ g.kept i (inl (ltb→lt i m front)) ∙ f.copied i lo (ltb→lt i m front)
    | inr back ↦ g.copied i (ground arith) hi
  ];
  kept = λ i out. elim out [
    | inl lo ↦ g.kept i (inl (omega arith)) ∙ f.kept i (inl lo)
    | inr hi ↦ g.kept i (inr hi) ∙ f.kept i (inr (omega arith))
  ];
}

module _ (frame : Buffer) (whole : length frame ≡ 1024) {fs : Ext2} {d : Disk}
    (r : IsReady fs d) where
  -- The part of one block.
  part_Filled :
      (m w n size : ℕ) (source dest : Buffer)
      → Page fs d m source w n
      → n ≤ 1024
      → w + n ≤ length dest
      → (dest' : Buffer) × (copy_part dest w (block_at fs d m) 0 n ≡ some dest')
        × Filled w (w + n) source dest dest'
  part_Filled m w n size source dest p h k =
      let b = block_at fs d m in
      let t = take n b in
      let len : length t ≡ n = omega (arith, length-take n b, length-block_at r m) in
      let fits : w + length t ≤ length dest = omega arith in
      (
        patch w t dest,
        copy_part_fits dest w b 0 n k (omega (arith, length-block_at r m)),
        record {
          same_length = length-patch w t dest fits;
          copied = λ i lo hi.
              ap (λ x. get_or (patch w t dest) x 0) (omega arith)
              ∙ get_or-patch_in w t dest fits (i - w) 0 (omega arith)
              ∙ get_or-take n b (i - w) 0 (omega arith)
              ∙ p (i - w) (omega arith)
              ∙ ap (λ x. get_or source x 0) (omega arith);
          kept = λ i out. elim out [
            | inl lo ↦ get_or-patch_before w t dest fits i 0 lo
            | inr hi ↦ get_or-patch_after w t dest fits i 0 (omega arith)
          ];
        },
      )

  -- One round of the loop.
  read_step :
      (k : ℕ) (inode : Inode) (size j w n : ℕ) (dest dest₁ : Buffer) (end : ℕ × Buffer)
      → ltb w size ≡ true
      → get_or inode.block j 0 ≢ 0
      → OnDisk fs d (get_or inode.block j 0)
      → min (fs.block_size - 0) (size - w) ≡ n
      → copy_part dest w (block_at fs d (get_or inode.block j 0)) 0 n ≡ some dest₁
      → read_loop frame k fs d inode size (j + 1) 0 (w + n) dest₁ ≡ some end
      → read_loop frame (suc k) fs d inode size j 0 w dest ≡ some end
  unfolding read_loop
  read_step k inode size j w n dest dest₁ end more used on whole_block copied rest =
      let nonzero : (get_or inode.block j 0 == 0) ≡ false = ground arith in
      rw
        (
          more,
          nonzero,
          ext2_read_block_lem r (get_or inode.block j 0) frame on whole,
          whole_block,
          copied,
        )
        rest

  pub read_loop-Filled :
      (k low : ℕ) (inode : Inode) (size j w : ℕ) (source dest : Buffer)
      → Stored k low fs d inode.block j w size source
      → w ≤ size
      → size ≤ length dest
      → (dest' : Buffer) × (read_loop frame k fs d inode size j 0 w dest
          ≡ some (min size (w + k * 1024), dest'))
        × Filled w (min size (w + k * 1024)) source dest dest'
  unfolding read_loop
  read_loop-Filled zero low inode size j w source dest s h l = (
    dest,
    ap (λ x. some (x, dest)) (omega arith),
    record { same_length = refl; copied = λ i lo hi. absurd (omega arith); kept = λ i out. refl },
  )
  read_loop-Filled (suc k) low inode size j w source dest s h l = elim (Bool-cases (ltb w size)) [
    | inl more ↦
        let (used, high, on, page, rest) = s (ltb→lt w size more) in
        let m = get_or inode.block j 0 in
        let n = min 1024 (size - w) in
        let (dest₁, e₁, f₁) =
          part_Filled m w n size source dest page (omega arith)
            (omega (arith, ltb→lt w size more)) in
        let (dest₂, e₂, f₂) =
          read_loop-Filled k low inode size (j + 1) (w + n) source dest₁ rest
            (omega (arith, ltb→lt w size more)) (let q = f₁.same_length in omega arith) in
        let end : min size (w + n + k * 1024) ≡ min size (w + suc k * 1024) = omega arith in
        let block_size : min (fs.block_size - 0) (size - w) ≡ n =
          ap (λ x. min (x - 0) (size - w)) r.is_small_block in
        (
          dest₂,
          read_step k inode size j w n dest dest₁ (min size (w + suc k * 1024), dest₂) more used on
              block_size e₁ (e₂ ∙ ap (λ x. some (x, dest₂)) end),
          subst (λ x. Filled w x source dest dest₂) end
              (Filled-trans w (w + n) (min size (w + n + k * 1024)) source dest dest₁ dest₂ f₁ f₂
                (omega arith) (omega (arith, ltb→lt w size more))),
        )
    | inr done ↦ (
      dest,
      rw done (ap (λ x. some (x, dest)) (ground arith)),
      record {
        same_length = refl;
        copied = λ i lo hi. absurd (ground arith);
        kept = λ i out. refl;
      },
    )
  ]

  -- Reading from the start gives the bytes that are stored, as many as are asked for, at most 12288.
  pub ext2_read_file-Stored :
      (low : ℕ) (inode : Inode) (size : ℕ) (source dest : Buffer)
      → Stored 12 low fs d inode.block 0 0 size source
      → size ≤ length source
      → size ≤ length dest
      → ext2_read_file frame fs d inode 0 size dest
        ≡ some (min size 12288, take (min size 12288) source ++ drop (min size 12288) dest)
  unfolding ext2_read_file
  ext2_read_file-Stored low inode size source dest s h k =
      let (dest₁, e, f) = read_loop-Filled 12 low inode size 0 0 source dest s (omega arith) k in
      let used : (fs.block_size == 0) ≡ false = let q = r.is_small_block in ground arith in
      let start : 0 / fs.block_size ≡ 0 = ap (λ b. 0 / b) r.is_small_block in
      let offset : 0 % fs.block_size ≡ 0 = ap (λ b. 0 % b) r.is_small_block in
      let n : min size (0 + 12 * 1024) ≡ min size 12288 = omega arith in
      rw (used, start, offset, e, n)
        (ap (λ b. some (min size 12288, b))
          (Filled-eq (min size 12288) source dest dest₁
            (subst (λ x. Filled 0 x source dest dest₁) n f) (omega arith) (omega arith)))
