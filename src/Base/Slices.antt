-- ===== src/Base/Slices.antt =====
-- Parts of a list read and written in place: splitting, and bytes copied over the middle of an object.
use Prim.Native.Nat.{ℕ, zero, suc, ◌+◌, ◌-◌, ◌<◌, ◌≤◌}
use mathlib.Core.Path.{◌≡◌, refl, ap, ◌∙◌}
use mathlib.Core.List.{List, [], ◌∷◌, ◌++◌}
use native.Mathlib.Omega.{arith}
use krnel.Base.Lists.{length, take, drop, get_or, length-append, length-take, length-drop}

module _ {ℓ} {A : Type ℓ} where
  -- `s` copied over `d` from `off` on.
  abbrev pub patch : ℕ → List A → List A → List A
  patch off s d = take off d ++ (s ++ drop (off + length s) d)

  pub take-append-drop : (n : ℕ) (xs : List A) → take n xs ++ drop n xs ≡ xs
  take-append-drop zero xs = refl
  take-append-drop (suc n) [] = refl
  take-append-drop (suc n) (x ∷ xs) = ap (λ ys. x ∷ ys) (take-append-drop n xs)

  pub get_or-append_left :
      (xs ys : List A) (i : ℕ) (d : A) → i < length xs → get_or (xs ++ ys) i d ≡ get_or xs i d
  get_or-append_left [] ys i d h = absurd (omega arith)
  get_or-append_left (x ∷ xs) ys zero d h = refl
  get_or-append_left (x ∷ xs) ys (suc i) d h = get_or-append_left xs ys i d (omega arith)

  pub get_or-append_right :
      (xs ys : List A) (i : ℕ) (d : A) → get_or (xs ++ ys) (length xs + i) d ≡ get_or ys i d
  get_or-append_right [] ys i d = ap (λ k. get_or ys k d) (omega arith)
  get_or-append_right (x ∷ xs) ys i d =
      let e : suc (length xs) + i ≡ suc (length xs + i) = omega arith in
      rw e (get_or-append_right xs ys i d)

  pub get_or-take :
      (n : ℕ) (xs : List A) (i : ℕ) (d : A) → i < n → get_or (take n xs) i d ≡ get_or xs i d
  get_or-take zero xs i d h = absurd (omega arith)
  get_or-take (suc n) [] i d h = refl
  get_or-take (suc n) (x ∷ xs) zero d h = refl
  get_or-take (suc n) (x ∷ xs) (suc i) d h = get_or-take n xs i d (omega arith)

  pub get_or-drop :
      (n : ℕ) (xs : List A) (i : ℕ) (d : A) → get_or (drop n xs) i d ≡ get_or xs (n + i) d
  get_or-drop zero xs i d = ap (λ k. get_or xs k d) (omega arith)
  get_or-drop (suc n) [] i d = refl
  get_or-drop (suc n) (x ∷ xs) i d =
      let e : suc n + i ≡ suc (n + i) = omega arith in rw e (get_or-drop n xs i d)

  pub length-patch :
      (off : ℕ) (s d : List A) → off + length s ≤ length d → length (patch off s d) ≡ length d
  length-patch off s d h = omega (
    arith,
    length-append (take off d) (s ++ drop (off + length s) d),
    length-append s (drop (off + length s) d),
    length-take off d,
    length-drop (off + length s) d,
  )

  module _ (off : ℕ) (s d : List A) (fits : off + length s ≤ length d) where
    length_front : length (take off d) ≡ off
    length_front = omega (arith, length-take off d)

    pub get_or-patch_in :
        (i : ℕ) (x : A) → i < length s → get_or (patch off s d) (off + i) x ≡ get_or s i x
    get_or-patch_in i x h =
        ap (λ k. get_or (patch off s d) (k + i) x) (omega (arith, length_front))
        ∙ get_or-append_right (take off d) (s ++ drop (off + length s) d) i x
        ∙ get_or-append_left s (drop (off + length s) d) i x h

    pub get_or-patch_before : (i : ℕ) (x : A) → i < off → get_or (patch off s d) i x ≡ get_or d i x
    get_or-patch_before i x h =
        get_or-append_left (take off d) (s ++ drop (off + length s) d) i x
          (omega (arith, length_front))
        ∙ get_or-take off d i x h

    pub get_or-patch_after :
        (i : ℕ) (x : A) → off + length s ≤ i → get_or (patch off s d) i x ≡ get_or d i x
    get_or-patch_after i x h =
        ap (λ k. get_or (patch off s d) k x) (omega (arith, length_front))
        ∙ get_or-append_right (take off d) (s ++ drop (off + length s) d) (i - off) x
        ∙ ap (λ k. get_or (s ++ drop (off + length s) d) k x) (omega arith)
        ∙ get_or-append_right s (drop (off + length s) d) (i - off - length s) x
        ∙ get_or-drop (off + length s) d (i - off - length s) x
        ∙ ap (λ k. get_or d k x) (omega arith)
