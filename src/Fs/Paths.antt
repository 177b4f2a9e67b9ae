-- ===== src/Fs/Paths.antt =====
-- The fuel of the loops of kernel/fs.c over a path.
use krnel.Base.{
  ℕ, zero, suc, ◌+◌, ◌≤◌, ◌<◌, ◌≡◌, refl, ap, false, ◌||◌, Bool-cases, inl, inr, Option, none, some,
  List, [], ◌∷◌, ◌++◌, arith, ◌==◌, if◌then◌else◌, length, drop,
}
use krnel.Base.Int.{ℤ, pos, negsuc}
use krnel.CString.{Buffer, ◌>>=◌}
use krnel.CString.Compare.{strchr}
use krnel.Ata.Disk.{Disk}
use krnel.Ext2.{Ext2, State}
use krnel.Ext2.Blocks.{drop-all}
use krnel.Ext2.Lookup.{ext2_find_inode}
use krnel.Fs.{
  is_negative, to_nat, first, cons_component, take_component, skip_slash, resolve_next,
  resolve_loop, partial_path, make_one, mkdirp_next, mkdirp_loop,
}

bind_ext :
    {A B : Type 0} (o : Option A) (f g : A → Option B)
    → ((a : A) → f a ≡ g a)
    → (o >>= f) ≡ (o >>= g)
bind_ext none f g h = refl
bind_ext (some a) f g h = h a

-- What is left of a path behind a component is not longer than the path.
abbrev IsRest : ℕ → Option (List ℕ × Buffer) → Type 0
IsRest n none = Unit {0}
IsRest n (some (component, p)) = length p ≤ n

IsRest-cons : (c n : ℕ) (o : Option (List ℕ × Buffer)) → IsRest n o → IsRest n (cons_component c o)
IsRest-cons c n none h = tt
IsRest-cons c n (some (component, p)) h = h

take_component-IsRest : (room : ℕ) (p : Buffer) → IsRest (length p) (take_component room p)
unfolding take_component
take_component-IsRest room [] = tt
take_component-IsRest zero (c ∷ p) = omega arith
take_component-IsRest (suc room) (c ∷ p) = elim (Bool-cases (c == 0 || c == b'/')) [
  | inl y ↦ rw y (omega arith)
  | inr n ↦ rw n (
      IsRest-cons c (suc (length p)) (take_component room p)
        (longer (take_component room p) (take_component-IsRest room p)))
]
  where
    longer : (o : Option (List ℕ × Buffer)) → IsRest (length p) o → IsRest (suc (length p)) o
    longer none h = tt
    longer (some (component, q)) h = omega arith

length-skip_slash : (p : Buffer) → length (skip_slash p) ≤ length p
length-skip_slash [] = omega arith
length-skip_slash (c ∷ p) = elim (Bool-cases (c == b'/')) [
  | inl y ↦ rw y (omega arith)
  | inr n ↦ rw n (omega arith)
]

-- What is left behind a component and its slash is shorter than the path.
abbrev IsNext : ℕ → Option (List ℕ × Buffer) → Type 0
IsNext n none = Unit {0}
IsNext n (some (component, p)) = length (skip_slash p) ≤ n

IsNext-cons : (c n : ℕ) (o : Option (List ℕ × Buffer)) → IsRest n o → IsNext n (cons_component c o)
IsNext-cons c n none h = tt
IsNext-cons c n (some (component, p)) h = omega (arith, length-skip_slash p)

take_component-IsNext :
    (room c : ℕ) (p : Buffer)
    → (c == 0) ≡ false
    → IsNext (length p) (take_component (suc room) (c ∷ p))
unfolding take_component
take_component-IsNext room c p e = elim (Bool-cases (c == b'/')) [
  | inl y ↦ rw (e, y) (rw y (omega arith))
  | inr n ↦
      rw (e, n) (IsNext-cons c (length p) (take_component room p) (take_component-IsRest room p))
]

module _ (frame : Buffer) (fs : Ext2) where
  resolve_next_ext :
      (d : Disk) (n l : ℕ) (f g : ℕ → Buffer → Option ℤ) (o : Option (List ℕ × Buffer))
      → IsNext l o
      → ((m : ℕ) (q : Buffer) → length q ≤ l → f m q ≡ g m q)
      → (o >>= resolve_next frame fs d n f) ≡ (o >>= resolve_next frame fs d n g)
  resolve_next_ext d n l f g none h same = refl
  resolve_next_ext d n l f g (some ([], p)) h same = same n (skip_slash p) h
  resolve_next_ext d n l f g (some (c ∷ t, p)) h same =
      bind_ext (ext2_find_inode frame fs d n ((c ∷ t) ++ 0 ∷ []) none)
        (λ r. if is_negative r.0 then some (negsuc 0) else f (to_nat r.0) (skip_slash p))
        (λ r. if is_negative r.0 then some (negsuc 0) else g (to_nat r.0) (skip_slash p))
        (λ r.
          ap (λ x. if is_negative r.0 then some (negsuc 0) else x)
            (same (to_nat r.0) (skip_slash p) h))

  -- Fuel of the length of the path is enough to resolve it: more fuel gives the same result.
  pub resolve_loop_fuel :
      (f g : ℕ) (d : Disk) (n : ℕ) (p : Buffer)
      → length p ≤ f
      → length p ≤ g
      → resolve_loop frame fs f d n p ≡ resolve_loop frame fs g d n p
  unfolding resolve_loop
  resolve_loop_fuel zero zero d n p h k = refl
  resolve_loop_fuel zero (suc g) d n [] h k = refl
  resolve_loop_fuel zero (suc g) d n (c ∷ p) h k = absurd (omega arith)
  resolve_loop_fuel (suc f) zero d n [] h k = refl
  resolve_loop_fuel (suc f) zero d n (c ∷ p) h k = absurd (omega arith)
  resolve_loop_fuel (suc f) (suc g) d n [] h k = refl
  resolve_loop_fuel (suc f) (suc g) d n (c ∷ p) h k = elim (Bool-cases (c == 0)) [
    | inl y ↦ rw y refl
    | inr e ↦ rw e (
        resolve_next_ext d n (length p) (resolve_loop frame fs f d) (resolve_loop frame fs g d)
          (take_component 63 (c ∷ p)) (take_component-IsNext 62 c p e)
          (λ m q l. resolve_loop_fuel f g d m q (omega arith) (omega arith)))
  ]

  mkdirp_next_ext :
      (s : State) (cwd_inode : ℕ) (buf : Buffer) (p : ℕ) (f g : State → ℕ → Option State)
      (o : Option ℕ)
      → ((t : State) (q : ℕ) → p < q → f t q ≡ g t q)
      → mkdirp_next frame fs s cwd_inode buf p f o ≡ mkdirp_next frame fs s cwd_inode buf p g o
  mkdirp_next_ext s cwd_inode buf p f g none same = refl
  mkdirp_next_ext s cwd_inode buf p f g (some slash) same =
      bind_ext (make_one frame fs s cwd_inode (partial_path frame fs buf (p + slash)))
        (λ t. f t (p + slash + 1)) (λ t. g t (p + slash + 1))
        (λ t. same t (p + slash + 1) (omega arith))

  -- Fuel of the length of the buffer is enough for the loop of `fs_mkdirp`: more fuel gives the same result.
  pub mkdirp_loop_fuel :
      (f g : ℕ) (s : State) (cwd_inode : ℕ) (buf : Buffer) (p : ℕ)
      → length buf ≤ p + f
      → length buf ≤ p + g
      → mkdirp_loop frame fs f s cwd_inode buf p ≡ mkdirp_loop frame fs g s cwd_inode buf p
  unfolding mkdirp_loop
  mkdirp_loop_fuel zero zero s cwd_inode buf p h k = refl
  mkdirp_loop_fuel zero (suc g) s cwd_inode buf p h k = rw (drop-all p buf (omega arith)) refl
  mkdirp_loop_fuel (suc f) zero s cwd_inode buf p h k = rw (drop-all p buf (omega arith)) refl
  mkdirp_loop_fuel (suc f) (suc g) s cwd_inode buf p h k = bind_ext (first (drop p buf)) _ _ (λ c.
      ap (λ x. if c == 0 then some s else x)
        (bind_ext (strchr (drop p buf) (pos b'/')) _ _ (λ o.
          mkdirp_next_ext s cwd_inode buf p (λ t q. mkdirp_loop frame fs f t cwd_inode buf q)
            (λ t q. mkdirp_loop frame fs g t cwd_inode buf q) o
            (λ t q lt. mkdirp_loop_fuel f g t cwd_inode buf q (omega arith) (omega arith)))))
