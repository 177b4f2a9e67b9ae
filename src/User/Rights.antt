-- ===== src/User/Rights.antt =====
-- The getters of kernel/user.c: who the user at the console is.
use krnel.Base.{
  ℕ, ◌+◌, ◌-◌, ◌%◌, ◌^◌, ◌==◌, ◌&&◌, not, set, Bool, true, false, Option, none, some, [], ◌∷◌,
  if◌then◌else◌, get_or,
}
use krnel.CString.{Buffer, strncpy}
use krnel.User.{User, Users, no_user, same, root_path}

-- "root" and "nobody"
abbrev pub root_name : Buffer
root_name = b'r' ∷ b'o' ∷ b'o' ∷ b't' ∷ 0 ∷ []

abbrev pub nobody_name : Buffer
nobody_name = b'n' ∷ b'o' ∷ b'b' ∷ b'o' ∷ b'd' ∷ b'y' ∷ 0 ∷ []

module _ {F : Type 0} where
  abbrev pub user_at : Users F → ℕ → User
  user_at s i = get_or s.users i no_user

  -- What a getter answers: `up` if rights are elevated, `nobody` if no user is logged in.
  abbrev pub of_current : {A : Type 0} → Users F → A → A → (User → A) → A
  of_current s up nobody f =
      if s.sudo_elevated
      then up
      else elim s.current_user [ none ↦ nobody | some i ↦ f (user_at s i) ]

  unfoldable pub user_get_name : Users F → Buffer
  user_get_name s = of_current s root_name nobody_name (λ u. u.username)

  abbrev pub user_get_home : Users F → Buffer
  user_get_home s = of_current s root_path root_path (λ u. u.home)

  abbrev pub user_get_uid : Users F → ℕ
  user_get_uid s = of_current s 0 65534 (λ u. u.uid)

  unfoldable pub user_is_root : Users F → ℕ
  user_is_root s = of_current s 1 0 (λ u. u.is_root)

  abbrev pub users_real_is_root : Users F → ℕ
  users_real_is_root s = elim s.current_user [ none ↦ 0 | some i ↦ (user_at s i).is_root ]

  unfoldable pub user_check_password : Users F → Buffer → Option Bool
  user_check_password s password = elim s.current_user [
    | none ↦ some false
    | some i ↦ same (user_at s i).password password
  ]

  abbrev pub user_sudo_elevate : Users F → Users F
  user_sudo_elevate s = record s { sudo_elevated = true }

  abbrev pub user_sudo_drop : Users F → Users F
  user_sudo_drop s = record s { sudo_elevated = false }

  -- `username` is the caller's buffer of `size` bytes; a `size` of 0 wraps.
  abbrev pub user_current : Users F → Buffer → ℕ → Option Buffer
  user_current s username size =
      let last = (size + 2 ^ 32 - 1) % 2 ^ 32 in
      elim (strncpy username (user_get_name s) last) [
        | none ↦ none
        | some name ↦ some (set name last 0)
      ]

  -- `is_root | in_sudo`, as a truth value.
  abbrev pub user_is_sudo : Users F → Bool
  user_is_sudo s = elim s.current_user [
    | none ↦ false
    | some i ↦ not ((user_at s i).is_root == 0 && (user_at s i).in_sudo == 0)
  ]
