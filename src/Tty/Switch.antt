-- ===== src/Tty/Switch.antt =====
-- `tty_switch` of kernel/tty.c: saving and restoring the screens of the terminals.
use krnel.Base.{
  ℕ, zero, suc, ◌+◌, ◌≤◌, ◌<◌, ◌≡◌, ◌≢◌, refl, ◌∙◌, sym, ap, Bool, false, ◌||◌, if◌then◌else◌, some,
  List, ◌==◌, leb, length, get_or, set, length-set, get_or-set_self, get_or-set_ne, get_or_ext,
  arith, subst, Bool-cases, inl, inr,
}
use krnel.Base.Int.{ℤ, pos, negsuc}
use krnel.Vga.{Screen, screen_cells, clamp, vga_set_pos, IsValid}
use krnel.Tty.{
  max_ttys, Tty, Console, ShellCall, no_tty, tty, copy_cells, tty_save_screen, tty_restore_screen,
  swap_screens, tty_switch,
}

pub length-copy_cells :
    (n : ℕ) (to from : List ℕ) (i : ℕ) → length (copy_cells n to from i) ≡ length to
unfolding copy_cells
length-copy_cells zero to from i = refl
length-copy_cells (suc n) to from i =
    length-copy_cells n (set to i (get_or from i 0)) from (i + 1)
    ∙ length-set to i (get_or from i 0)

copy_cells_below :
    (n : ℕ) (to from : List ℕ) (i j : ℕ)
    → j < i
    → get_or (copy_cells n to from i) j 0 ≡ get_or to j 0
unfolding copy_cells
copy_cells_below zero to from i j lt = refl
copy_cells_below (suc n) to from i j lt =
    copy_cells_below n (set to i (get_or from i 0)) from (i + 1) j (omega arith)
    ∙ get_or-set_ne to i j (get_or from i 0) 0 (omega arith)

get-copy_cells :
    (n : ℕ) (to from : List ℕ) (i j : ℕ)
    → i ≤ j
    → j < i + n
    → j < length to
    → get_or (copy_cells n to from i) j 0 ≡ get_or from j 0
unfolding copy_cells
get-copy_cells zero to from i j le lt l = absurd (omega arith)
get-copy_cells (suc n) to from i j le lt l =
    let w = length-set to i (get_or from i 0) in
    elim (Bool-cases (i == j)) [
      | inl y ↦
          let e : i ≡ j = ground arith in
          copy_cells_below n (set to i (get_or from i 0)) from (i + 1) j (omega arith)
          ∙ ap (λ k. get_or (set to i (get_or from i 0)) k 0) (sym e)
          ∙ get_or-set_self to i (get_or from i 0) 0 (omega arith)
          ∙ ap (λ k. get_or from k 0) e
      | inr other ↦
          let ne : i ≢ j = ground arith in
          get-copy_cells n (set to i (get_or from i 0)) from (i + 1) j (omega arith) (omega arith)
            (omega arith)
    ]

-- A whole screen is copied, whatever was there before.
pub copy_cells_lem :
    (to from : List ℕ)
    → length to ≡ screen_cells
    → length from ≡ screen_cells
    → copy_cells screen_cells to from 0 ≡ from
copy_cells_lem to from l m =
    let w = length-copy_cells screen_cells to from 0 in
    get_or_ext (copy_cells screen_cells to from 0) from 0 (omega arith)
      (λ j lt. get-copy_cells screen_cells to from 0 j (omega arith) (omega arith) (omega arith))

-- The saved screen of a terminal has the size of the screen, and its cursor is on it.
pub record IsSaved (t : Tty) : Type 0 where
  pub saved_length : length t.screen_buf ≡ screen_cells
  pub x_lt : t.cursor_x < 80
  pub y_lt : t.cursor_y < 25

pub record IsConsole (s : Console) : Type 0 where
  pub tty_count : length s.ttys ≡ max_ttys
  pub current_lt : s.current_tty < max_ttys
  pub saved : (i : ℕ) → i < max_ttys → IsSaved (tty s i)
  pub screen_valid : IsValid s.screen

clamp_lt : (n limit : ℕ) → n < limit → clamp (pos n) limit ≡ n
clamp_lt n limit lt = ground arith

-- Saving the screen to a terminal and restoring it on any other screen later shows the saved cells and cursor.
pub restore-save :
    (t : Tty) (s s' : Screen)
    → length t.screen_buf ≡ screen_cells
    → IsValid s
    → IsValid s'
    → (tty_restore_screen (tty_save_screen s t) s').video ≡ s.video
      × ((tty_restore_screen (tty_save_screen s t) s').cursor_x ≡ s.cursor_x)
      × ((tty_restore_screen (tty_save_screen s t) s').cursor_y ≡ s.cursor_y)
unfolding tty_restore_screen tty_save_screen vga_set_pos
restore-save t s s' l v v' =
    let saved = copy_cells_lem t.screen_buf s.video l v.video_length in
    (
      ap (λ b. copy_cells screen_cells s'.video b 0) saved
          ∙ copy_cells_lem s'.video s.video v'.video_length v.video_length,
      clamp_lt s.cursor_x 80 v.x_lt,
      clamp_lt s.cursor_y 25 v.y_lt,
    )

abbrev pub Looks : Screen → Screen → Type 0
Looks s s' = (s.video ≡ s'.video) × (s.cursor_x ≡ s'.cursor_x) × (s.cursor_y ≡ s'.cursor_y)

abbrev pub call_of : Bool → ShellCall
call_of logged_in = if logged_in then ShellCall.prompt_redraw else ShellCall.init

tty_switch_other :
    (logged_in : Bool) (s : Console) (n : ℕ)
    → n < max_ttys
    → n ≢ s.current_tty
    → tty_switch logged_in s (pos n) ≡ (swap_screens s n, some (call_of logged_in))
unfolding tty_switch
tty_switch_other logged_in s n lt ne =
    let other : (leb max_ttys n || n == s.current_tty) ≡ false = ground arith in rw other refl

-- A switch to another terminal hands over to the shell there; whatever is then done with the console but to the
-- saved screen of the terminal that was left, a switch back to that one hands over to the shell with the screen
-- and the cursor as they were before the first switch.
pub tty_switch-tty_switch :
    (logged_in logged_in' : Bool) (s t : Console) (n : ℕ)
    → IsConsole s
    → n < max_ttys
    → n ≢ s.current_tty
    → tty t s.current_tty ≡ tty (tty_switch logged_in s (pos n)).0 s.current_tty
    → t.current_tty ≡ n
    → IsValid t.screen
    → ((tty_switch logged_in s (pos n)).1 ≡ some (call_of logged_in))
      × ((tty_switch logged_in' t (pos s.current_tty)).1 ≡ some (call_of logged_in'))
      × ((tty_switch logged_in' t (pos s.current_tty)).0.current_tty ≡ s.current_tty)
      × Looks (tty_switch logged_in' t (pos s.current_tty)).0.screen s.screen
unfolding swap_screens
tty_switch-tty_switch logged_in logged_in' s t n v lt ne same at w =
    let c : ℕ = s.current_tty in
    let mine : Tty = tty_save_screen s.screen (tty s c) in
    let other : Tty = tty_save_screen t.screen (tty t t.current_tty) in
    let there = tty_switch_other logged_in s n lt ne in
    let back = tty_switch_other logged_in' t c v.current_lt (λ e. ne (sym (e ∙ at))) in
    let kept : tty t c ≡ mine =
      same
      ∙ ap (λ o. tty o.0 c) there
      ∙ get_or-set_self s.ttys c mine no_tty (omega (arith, v.tty_count, v.current_lt)) in
    let shown : get_or (set t.ttys t.current_tty other) c no_tty ≡ mine =
      get_or-set_ne t.ttys t.current_tty c other no_tty (λ e. ne (sym at ∙ e)) ∙ kept in
    (
      ap (λ o. o.1) there,
      ap (λ o. o.1) back,
      ap (λ o. o.0.current_tty) back,
      subst (λ o. Looks o.0.screen s.screen) (sym back)
          (subst (λ x. Looks (tty_restore_screen x t.screen) s.screen) (sym shown)
            (restore-save (tty s c) s.screen t.screen (v.saved c v.current_lt).saved_length
              v.screen_valid w)),
    )

save_IsSaved :
    (t : Tty) (s : Screen)
    → length t.screen_buf ≡ screen_cells
    → IsValid s
    → IsSaved (tty_save_screen s t)
unfolding tty_save_screen
save_IsSaved t s l v = record {
  saved_length = length-copy_cells screen_cells t.screen_buf s.video 0 ∙ l;
  x_lt = v.x_lt;
  y_lt = v.y_lt;
}

restore_IsValid : (t : Tty) (s : Screen) → IsSaved t → IsValid s → IsValid (tty_restore_screen t s)
unfolding tty_restore_screen vga_set_pos
restore_IsValid t s w v = record {
  video_length = length-copy_cells screen_cells s.video t.screen_buf 0 ∙ v.video_length;
  x_lt = subst (λ x. x < 80) (sym (clamp_lt t.cursor_x 80 w.x_lt)) w.x_lt;
  y_lt = subst (λ y. y < 25) (sym (clamp_lt t.cursor_y 25 w.y_lt)) w.y_lt;
}

set_saved :
    (ts : List Tty) (c i : ℕ) (t : Tty)
    → c < length ts
    → IsSaved t
    → IsSaved (get_or ts i no_tty)
    → IsSaved (get_or (set ts c t) i no_tty)
set_saved ts c i t lt w old = elim (Bool-cases (c == i)) [
  | inl y ↦
      let e : c ≡ i = ground arith in
      subst IsSaved
        (sym (ap (λ k. get_or (set ts c t) k no_tty) (sym e) ∙ get_or-set_self ts c t no_tty lt)) w
  | inr other ↦ subst IsSaved (sym (get_or-set_ne ts c i t no_tty (ground arith))) old
]

swap_screens-IsConsole :
    (s : Console) (n : ℕ) → IsConsole s → n < max_ttys → IsConsole (swap_screens s n)
unfolding swap_screens
swap_screens-IsConsole s n v lt =
    let c = s.current_tty in
    let mine = tty_save_screen s.screen (tty s c) in
    let mine_saved =
      save_IsSaved (tty s c) s.screen (v.saved c v.current_lt).saved_length v.screen_valid in
    let saved : (i : ℕ) → i < max_ttys → IsSaved (get_or (set s.ttys c mine) i no_tty) = λ i i_lt.
      set_saved s.ttys c i mine (omega (arith, v.tty_count, v.current_lt)) mine_saved
        (v.saved i i_lt) in
    record {
      tty_count = length-set s.ttys c mine ∙ v.tty_count;
      current_lt = lt;
      saved = saved;
      screen_valid =
          restore_IsValid (get_or (set s.ttys c mine) n no_tty) s.screen (saved n lt)
            v.screen_valid;
    }

-- `tty_switch` hands over a well-formed console, or returns with one, for any number it is given.
pub tty_switch-IsConsole :
    (logged_in : Bool) (s : Console) (n : ℤ) → IsConsole s → IsConsole (tty_switch logged_in s n).0
unfolding tty_switch
tty_switch-IsConsole logged_in s (negsuc n) v = v
tty_switch-IsConsole logged_in s (pos n) v =
    elim (Bool-cases (leb max_ttys n || n == s.current_tty)) [
      | inl y ↦ rw y v
      | inr other ↦ rw other (swap_screens-IsConsole s n v (ground arith))
    ]
