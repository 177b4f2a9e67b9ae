-- ===== src/Ata/Disk/Laws.antt =====
-- Reading and writing sectors of the disk of Ata/Disk.
use krnel.Base.{
  ℕ, zero, suc, ◌+◌, ◌*◌, ◌≤◌, ◌<◌, ◌%◌, ◌^◌, ◌≢◌, leb, some, ◌≡◌, refl, ◌∙◌, ap₂, true, [], ◌∷◌,
  ◌++◌, arith, length, take, drop, length-append, length-take, length-drop, ◌⊎◌, inl, inr,
}
use krnel.Base.Int.{pos}
use krnel.Base.Slices.{take-append-drop}
use krnel.CString.{Buffer}
use krnel.Ata.Disk.{Disk, range, put_range, put_sector, accepts, read_sectors, write_sectors}

pub put_range-outside :
    (f : ℕ → Buffer) (s n : ℕ) (b : Buffer) (t : ℕ)
    → (t < s) ⊎ (s + n ≤ t)
    → put_range f s n b t ≡ f t
unfolding put_range
put_range-outside f s zero b t h = refl
put_range-outside f s (suc n) b t (inl h) =
    put_range-outside (put_sector f s (take 512 b)) (s + 1) n (drop 512 b) t (inl (omega arith))
    ∙ ground arith
put_range-outside f s (suc n) b t (inr h) =
    put_range-outside (put_sector f s (take 512 b)) (s + 1) n (drop 512 b) t (inr (omega arith))
    ∙ ground arith

pub range_ext :
    (f g : ℕ → Buffer) (s n : ℕ)
    → ((t : ℕ) → s ≤ t → t < s + n → f t ≡ g t)
    → range f s n ≡ range g s n
unfolding range
range_ext f g s zero h = refl
range_ext f g s (suc n) h =
    ap₂ ◌++◌ (h s (omega arith) (omega arith))
      (range_ext f g (s + 1) n (λ t p q. h t (omega arith) (omega arith)))

put_sector_self : (f : ℕ → Buffer) (s : ℕ) (b : Buffer) → put_sector f s b s ≡ b
put_sector_self f s b = ground arith

length-put_sector :
    (f : ℕ → Buffer) (s : ℕ) (b : Buffer)
    → ((t : ℕ) → length (f t) ≡ 512)
    → length b ≡ 512
    → (t : ℕ) → length (put_sector f s b t) ≡ 512
length-put_sector f s b h l t = ground (arith, h t)

pub range-put_range :
    (f : ℕ → Buffer) (s n : ℕ) (b : Buffer) → length b ≡ n * 512 → range (put_range f s n b) s n ≡ b
unfolding range put_range
range-put_range f s zero [] h = refl
range-put_range f s zero (c ∷ b) h = absurd (omega arith)
range-put_range f s (suc n) b h =
    ap₂ ◌++◌
      (put_range-outside (put_sector f s (take 512 b)) (s + 1) n (drop 512 b) s (inl (omega arith))
        ∙ put_sector_self f s (take 512 b))
      (range-put_range (put_sector f s (take 512 b)) (s + 1) n (drop 512 b)
        (omega (arith, length-drop 512 b)))
    ∙ take-append-drop 512 b

pub length-range :
    (f : ℕ → Buffer) (s n : ℕ) → ((t : ℕ) → length (f t) ≡ 512) → length (range f s n) ≡ n * 512
unfolding range
length-range f s zero h = omega arith
length-range f s (suc n) h =
    omega (arith, length-append (f s) (range f (s + 1) n), h s, length-range f (s + 1) n h)

pub length-put_range :
    (f : ℕ → Buffer) (s n : ℕ) (b : Buffer)
    → ((t : ℕ) → length (f t) ≡ 512)
    → length b ≡ n * 512
    → (t : ℕ) → length (put_range f s n b t) ≡ 512
unfolding put_range
length-put_range f s zero b h l t = h t
length-put_range f s (suc n) b h l t =
    length-put_range (put_sector f s (take 512 b)) (s + 1) n (drop 512 b)
      (length-put_sector f s (take 512 b) h (omega (arith, length-take 512 b)))
      (omega (arith, length-drop 512 b)) t

pub accepts_lem :
    (d : Disk) (lba count : ℕ)
    → d.present ≢ 0
    → 0 < count
    → lba + count ≤ d.sectors
    → d.sectors ≤ 2 ^ 28
    → accepts d lba count ≡ true
unfolding accepts
accepts_lem d lba count p c h q =
    let small : (lba + count) % 2 ^ 32 ≡ lba + count = omega arith in rw small (ground arith)

-- A transfer that fits the disk and the buffer.
module _ (d : Disk) (lba count : ℕ) (buffer : Buffer) (taken : accepts d lba count ≡ true)
    (small : lba < 2 ^ 28) (room : count * 512 ≤ length buffer) where
  same_address : lba % 2 ^ 28 ≡ lba
  same_address = omega arith

  has_room : leb (count * 512) (length buffer) ≡ true
  has_room = ground arith

  pub read_sectors_lem :
      read_sectors d lba count buffer
      ≡ some (pos (count * 512), range d.sector lba count ++ drop (count * 512) buffer)
  unfolding read_sectors
  read_sectors_lem = rw (taken, has_room, same_address)

  pub write_sectors_lem :
      write_sectors d lba count buffer
      ≡ some (record d { sector = put_range d.sector lba count buffer }, pos (count * 512))
  unfolding write_sectors
  write_sectors_lem = rw (taken, has_room, same_address)
