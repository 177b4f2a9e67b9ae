-- ===== src/Vga/Cells.antt =====
-- The loops of kernel/vga.c over the video memory.
use krnel.Base.{
  ℕ, zero, suc, ◌+◌, ◌-◌, ◌≤◌, ◌<◌, ◌≡◌, refl, ◌∙◌, ap, subst, ◌&&◌, Option, none, some, [], ◌∷◌,
  get_elem?, List, ◌==◌, ltb, leb, if◌then◌else◌, length, get_or, set, length-set, get_or-set_self,
  get_or-set_ne, arith, Bool-cases, inl, inr,
}
use krnel.CString.{Buffer, ◌>>=◌}
use krnel.Vga.{fill, shift_rows, char_at, draw_cells, cell_of, screen_width}

pub get-set :
    (v : List ℕ) (i j x : ℕ)
    → i < length v
    → get_or (set v i x) j 0 ≡ (if j == i then x else get_or v j 0)
get-set v i j x lt = elim (Bool-cases (j == i)) [
  | inl y ↦ let e : i ≡ j = ground arith in rw (y, ← e) (get_or-set_self v i x 0 lt)
  | inr n ↦ rw n (get_or-set_ne v i j x 0 (ground arith))
]

pub length-fill : (n : ℕ) (v : List ℕ) (i x : ℕ) → length (fill n v i x) ≡ length v
unfolding fill
length-fill zero v i x = refl
length-fill (suc n) v i x = length-fill n (set v i x) (i + 1) x ∙ length-set v i x

pub get-fill :
    (n : ℕ) (v : List ℕ) (i x j : ℕ)
    → i + n ≤ length v
    → get_or (fill n v i x) j 0 ≡ (if leb i j && ltb j (i + n) then x else get_or v j 0)
unfolding fill
get-fill zero v i x j fit = ground arith
get-fill (suc n) v i x j fit = ground (
  arith,
  get-fill n (set v i x) (i + 1) x j (omega (arith, length-set v i x)),
  get-set v i j x (omega arith),
)

pub length-shift_rows : (n : ℕ) (v : List ℕ) (i : ℕ) → length (shift_rows n v i) ≡ length v
unfolding shift_rows
length-shift_rows zero v i = refl
length-shift_rows (suc n) v i =
    length-shift_rows n (set v i (get_or v (i + screen_width) 0)) (i + 1)
    ∙ length-set v i (get_or v (i + screen_width) 0)

pub get-shift_rows :
    (n : ℕ) (v : List ℕ) (i j : ℕ)
    → i + n + screen_width ≤ length v
    → get_or (shift_rows n v i) j 0
      ≡ (if leb i j && ltb j (i + n) then get_or v (j + screen_width) 0 else get_or v j 0)
unfolding shift_rows
get-shift_rows zero v i j fit = ground arith
get-shift_rows (suc n) v i j fit =
    let x = get_or v (i + screen_width) 0 in
    let same : (j ≡ i) → get_or v (j + screen_width) 0 ≡ x =
      λ e. ap (λ k. get_or v (k + screen_width) 0) e in
    elim (Bool-cases (j == i)) [
      | inl y ↦ ground (
        arith,
        get-shift_rows n (set v i x) (i + 1) j (omega (arith, length-set v i x)),
        get-set v i j x (omega arith),
        same (ground arith),
      )
      | inr z ↦ ground (
        arith,
        get-shift_rows n (set v i x) (i + 1) j (omega (arith, length-set v i x)),
        get-set v i j x (omega arith),
        get-set v i (j + screen_width) x (omega arith),
      )
    ]

-- The cell that `vga_draw_row` puts into column `i`.
abbrev pub drawn : Buffer → ℕ → ℕ → ℕ → ℕ
drawn str len color i = cell_of color (if ltb i len then get_or str i 0 else b' ')

-- The video memory after the loop of `vga_draw_row`, if the loop stays in the text.
pub drawn_cells : ℕ → List ℕ → ℕ → ℕ → Buffer → ℕ → ℕ → List ℕ
drawn_cells zero v start i str len color = v
drawn_cells (suc n) v start i str len color =
    drawn_cells n (set v (start + i) (drawn str len color i)) start (i + 1) str len color

get_elem?-get_or : (str : Buffer) (i : ℕ) → i < length str → get_elem? str i ≡ some (get_or str i 0)
get_elem?-get_or [] i lt = absurd (omega arith)
get_elem?-get_or (c ∷ str) zero lt = refl
get_elem?-get_or (c ∷ str) (suc i) lt = get_elem?-get_or str i (omega arith)

char_at_lem :
    (str : Buffer) (len i : ℕ)
    → len ≤ length str
    → char_at str len i ≡ some (if ltb i len then get_or str i 0 else b' ')
char_at_lem str len i le = elim (Bool-cases (ltb i len)) [
  | inl y ↦ rw y (get_elem?-get_or str i (ground arith))
  | inr n ↦ rw n refl
]

pub draw_cells-drawn_cells :
    (n : ℕ) (v : List ℕ) (start i : ℕ) (str : Buffer) (len color : ℕ)
    → len ≤ length str
    → draw_cells n v start i str len color ≡ some (drawn_cells n v start i str len color)
unfolding draw_cells drawn_cells
draw_cells-drawn_cells zero v start i str len color le = refl
draw_cells-drawn_cells (suc n) v start i str len color le =
    ap
      (λ o.
        o >>= λ ch. draw_cells n (set v (start + i) (cell_of color ch)) start (i + 1) str len color)
      (char_at_lem str len i le)
    ∙ draw_cells-drawn_cells n (set v (start + i) (drawn str len color i)) start (i + 1) str len
        color le

-- A result of the loop is as long as the video memory.
abbrev pub IsLong : ℕ → Option (List ℕ) → Type 0
IsLong l none = Unit {0}
IsLong l (some v) = length v ≡ l

IsLong-bind :
    (l : ℕ) (o : Option ℕ) (go : ℕ → Option (List ℕ))
    → ((ch : ℕ) → IsLong l (go ch))
    → IsLong l (o >>= go)
IsLong-bind l none go h = tt
IsLong-bind l (some ch) go h = h ch

pub draw_cells-IsLong :
    (n : ℕ) (v : List ℕ) (start i : ℕ) (str : Buffer) (len color : ℕ)
    → IsLong (length v) (draw_cells n v start i str len color)
unfolding draw_cells
draw_cells-IsLong zero v start i str len color = refl
draw_cells-IsLong (suc n) v start i str len color =
    IsLong-bind (length v) (char_at str len i)
      (λ ch. draw_cells n (set v (start + i) (cell_of color ch)) start (i + 1) str len color)
      (λ ch.
        subst
          (λ l.
            IsLong l
              (draw_cells n (set v (start + i) (cell_of color ch)) start (i + 1) str len color))
          (length-set v (start + i) (cell_of color ch))
          (draw_cells-IsLong n (set v (start + i) (cell_of color ch)) start (i + 1) str len color))

pub get-drawn_cells :
    (n : ℕ) (v : List ℕ) (start i : ℕ) (str : Buffer) (len color j : ℕ)
    → start + i + n ≤ length v
    → get_or (drawn_cells n v start i str len color) j 0 ≡ (
        if leb (start + i) j && ltb j (start + i + n)
        then drawn str len color (j - start)
        else get_or v j 0)
unfolding drawn_cells
get-drawn_cells zero v start i str len color j fit = ground arith
get-drawn_cells (suc n) v start i str len color j fit =
    let x = drawn str len color i in
    let rest =
      get-drawn_cells n (set v (start + i) x) start (i + 1) str len color j
        (omega (arith, length-set v (start + i) x)) in
    elim (Bool-cases (j == start + i)) [
      | inl y ↦
          let e : j - start ≡ i = ground arith in
          rw e (ground (arith, rest, get-set v (start + i) j x (omega arith)))
      | inr z ↦ ground (arith, rest, get-set v (start + i) j x (omega arith))
    ]
