-- ===== src/User/Tests.antt =====
-- Runs of kernel/user.c, and instances of what is proved of it, on a table of three users.
use krnel.Base.{ℕ, zero, suc, ◌+◌, ◌<◌, ◌≡◌, refl, ◌⊎◌, false, none, some, [], ◌∷◌, arith}
use krnel.Base.Int.{pos, negsuc}
use krnel.CString.{text}
use krnel.User.{
  User, Files, Users, no_user, find_user, save_loop, users_save, user_add, remove, user_del,
  user_add_sudo, user_login,
}
use krnel.User.Rights.{user_at}
use krnel.User.Load.{load_users}
use krnel.User.Identity.{Terminated, Matches, IsLogin, user_login_lem}

-- Files that do nothing and succeed.
abbrev no_files : Files ℕ
no_files = record {
  fs_mkdir = λ f path. (f, pos 0);
  fs_create_home = λ f name. (f, pos 0);
  fs_chdir = λ f path. (f, pos 0);
  fs_write = λ f path text n. (f + 1, pos 0);
}

abbrev a_user : ℕ → ℕ → User
a_user c root = record no_user { username = c ∷ 0 ∷ []; password = c ∷ 0 ∷ []; is_root = root }

-- The root and two others, the first of whom is logged in.
abbrev users : Users ℕ
users = record {
  users = a_user b'r' 1 ∷ a_user b'a' 0 ∷ a_user b'b' 0 ∷ [];
  user_count = 3;
  current_user = some 1;
  sudo_elevated = false;
  files = 0;
}

users-Terminated : Terminated users
users-Terminated zero lt = (refl, refl)
users-Terminated (suc zero) lt = (refl, refl)
users-Terminated (suc (suc zero)) lt = (refl, refl)
users-Terminated (suc (suc (suc i))) lt = absurd (omega arith)

abbrev empty : Users ℕ
empty = record users { users = []; user_count = 0; current_user = none }

test_users_save : users_save no_files empty ≡ some (record empty { files = 1 })
unfolding users_save save_loop
test_users_save = refl

test_user_del : user_del no_files empty (b'a' ∷ 0 ∷ []) ≡ some (empty, negsuc 0)
unfolding user_del find_user
test_user_del = refl

test_user_add_sudo : user_add_sudo no_files empty (b'a' ∷ 0 ∷ []) ≡ some (empty, negsuc 0)
unfolding user_add_sudo find_user
test_user_add_sudo = refl

-- The fifty-first user is refused.
test_user_add :
    user_add no_files (record empty { user_count = 50 }) (b'a' ∷ 0 ∷ []) (0 ∷ []) 0
    ≡ some (record empty { user_count = 50 }, negsuc 0)
unfolding user_add
test_user_add = refl

test_load_users : load_users 1 (0 ∷ []) [] 0 ≡ some ([], 0)
unfolding load_users
test_load_users = refl

user_login_lem_example :
    (user_login no_files users (b'b' ∷ 0 ∷ []) (b'b' ∷ 0 ∷ []) ≡ some (users, negsuc 0))
      × ((i : ℕ)
          → i < users.user_count
          → ¬ Matches (b'b' ∷ 0 ∷ []) (b'b' ∷ 0 ∷ []) (user_at users i))
    ⊎ (t : Users ℕ) × (user_login no_files users (b'b' ∷ 0 ∷ []) (b'b' ∷ 0 ∷ []) ≡ some (t, pos 0))
      × IsLogin users (b'b' ∷ 0 ∷ []) (b'b' ∷ 0 ∷ []) t
user_login_lem_example =
    user_login_lem no_files users (b'b' ∷ 0 ∷ []) (b'b' ∷ 0 ∷ []) refl refl users-Terminated

-- The root and three others, the second of whom is logged in.
abbrev four_users : Users ℕ
four_users = record users {
  users = a_user b'r' 1 ∷ a_user b'a' 0 ∷ a_user b'b' 0 ∷ a_user b'd' 1 ∷ [];
  user_count = 4;
  current_user = some 2;
}

three_left : Users ℕ
three_left = record (remove no_files four_users 1) { files = 1 }
