-- ===== src/User.antt =====
-- kernel/user.c: the table of users, logging in and out, and the rights of the user at the console.
pub mod Rights
pub mod Load
pub mod Identity
pub mod Deletion
mod Tests
use krnel.Base.{
  ℕ, zero, suc, ◌+◌, ◌-◌, ◌%◌, ◌^◌, ◌≤◌, ◌<◌, ◌≡◌, Bool, true, false, ◌&&◌, Option, none, some,
  List, [], ◌∷◌, ◌++◌, ◌==◌, leb, ltb, if◌then◌else◌, length, get_or, set, take, drop, replicate,
}
use krnel.Base.Int.{ℤ, pos, negsuc}
use krnel.CString.{Buffer, ◌>>=◌, strncpy, strcpy}
use krnel.CString.Compare.{strcmp}
use krnel.CString.Format.{Arg, vsnprintf}

abbrev pub max_users : ℕ
max_users = 50

-- `user_t`; the sizes of its strings are 32, 32, 40 and 32.
pub record User : Type 0 where
  pub username : Buffer
  pub password : Buffer
  pub uid : ℕ
  pub gid : ℕ
  pub is_root : ℕ
  pub in_sudo : ℕ
  pub home : Buffer
  pub shell : Buffer

-- The operations of kernel/fs.c that the file calls, on the state `F` of the file system.
pub record Files (F : Type 0) : Type 0 where
  pub fs_mkdir : F → Buffer → F × ℤ
  pub fs_create_home : F → Buffer → F × ℤ
  pub fs_chdir : F → Buffer → F × ℤ
  pub fs_write : F → Buffer → Buffer → ℕ → F × ℤ

-- The variables of the file; `current_user` is `none` for -1.
pub record Users (F : Type 0) : Type 0 where
  pub users : List User
  pub user_count : ℕ
  pub current_user : Option ℕ
  pub sudo_elevated : Bool
  pub files : F

-- A slot of the table that is not used yet.
abbrev pub no_user : User
no_user = record {
  username = replicate 32 0;
  password = replicate 32 0;
  uid = 0;
  gid = 0;
  is_root = 0;
  in_sudo = 0;
  home = replicate 40 0;
  shell = replicate 32 0;
}

abbrev pub is_zero : ℤ → Bool
is_zero (pos n) = n == 0
is_zero (negsuc n) = false

abbrev pub is_negative : ℤ → Bool
is_negative (pos n) = false
is_negative (negsuc n) = true

-- `strcmp(s, t) == 0`
abbrev pub same : Buffer → Buffer → Option Bool
same s t = strcmp s t >>= λ c. some (is_zero c)

-- `for (i = 0; i < user_count; i++) if (test) …`: the first user that passes the test.
pub find_user : (User → Option Bool) → ℕ → List User → ℕ → Option (Option ℕ)
find_user test zero users i = some none
find_user test (suc n) users i = elim (test (get_or users i no_user)) [
  | none ↦ none
  | some found ↦ elim found [ true ↦ some (some i) | false ↦ find_user test n users (i + 1) ]
]

abbrev pub has_name : Buffer → User → Option Bool
has_name name u = same u.username name

-- Both names and passwords; the second is compared only if the first agree.
abbrev pub has_login : Buffer → Buffer → User → Option Bool
has_login name password u =
    same u.username name >>= λ b. elim b [ true ↦ same u.password password | false ↦ some false ]

-- "/etc/passwd", "/", "/bin/ksh", "/home/%s" and "%s:%s:%u:%u:%d:%d:%s:%s\n"
abbrev pub passwd_path : Buffer
passwd_path = b'/' ∷ b'e' ∷ b't' ∷ b'c' ∷ b'/' ∷ b'p' ∷ b'a' ∷ b's' ∷ b's' ∷ b'w' ∷ b'd' ∷ 0 ∷ []

abbrev pub root_path : Buffer
root_path = b'/' ∷ 0 ∷ []

abbrev pub ksh_path : Buffer
ksh_path = b'/' ∷ b'b' ∷ b'i' ∷ b'n' ∷ b'/' ∷ b'k' ∷ b's' ∷ b'h' ∷ 0 ∷ []

abbrev pub home_format : Buffer
home_format = b'/' ∷ b'h' ∷ b'o' ∷ b'm' ∷ b'e' ∷ b'/' ∷ b'%' ∷ b's' ∷ 0 ∷ []

abbrev pub line_format : Buffer
line_format =
    b'%' ∷ b's' ∷ b':' ∷ b'%' ∷ b's' ∷ b':' ∷ b'%' ∷ b'u' ∷ b':' ∷ b'%' ∷ b'u' ∷ b':' ∷ b'%' ∷ b'd'
    ∷ b':' ∷ b'%' ∷ b'd' ∷ b':' ∷ b'%' ∷ b's' ∷ b':' ∷ b'%' ∷ b's' ∷ b'\n' ∷ 0 ∷ []

abbrev pub line_args : User → List Arg
line_args u =
    Arg.string (some u.username)
    ∷ Arg.string (some u.password)
    ∷ Arg.unsigned u.uid
    ∷ Arg.unsigned u.gid
    ∷ Arg.int (pos u.is_root)
    ∷ Arg.int (pos u.in_sudo)
    ∷ Arg.string (some u.home)
    ∷ Arg.string (some u.shell)
    ∷ []

-- The loop of `users_save` from user `i` on, with its buffer and `pos`.
pub save_loop : ℕ → List User → ℕ → Buffer → ℕ → Option (Buffer × ℕ)
save_loop zero users i buffer at = some (buffer, at)
save_loop (suc n) users i buffer at =
    elim (vsnprintf (drop at buffer) (4096 - at) line_format (line_args (get_or users i no_user))) [
      | none ↦ none
      | some r ↦ save_loop n users (i + 1) (take at buffer ++ r.0) (at + r.1)
    ]

-- The `memmove` of the users behind slot `i` onto it: the last slot in use keeps its bytes.
abbrev pub close_gap : List User → ℕ → ℕ → List User
close_gap users count i =
    take i users ++ (take (count - i - 1) (drop (i + 1) users) ++ drop (count - 1) users)

module _ {F : Type 0} (fs : Files F) where
  pub users_save : Users F → Option (Users F)
  users_save s = elim (save_loop s.user_count s.users 0 (replicate 4096 0) 0) [
    | none ↦ none
    | some r ↦ some (record s { files = (fs.fs_write s.files passwd_path r.0 r.1).0 })
  ]

  -- Saves, and returns 0.
  abbrev pub saved : Users F → Option (Users F × ℤ)
  saved s = users_save s >>= λ t. some (t, pos 0)

  abbrev pub home_of : ℕ → Buffer → Buffer → Option Buffer
  home_of is_root home name =
      if is_root == 0
      then (vsnprintf home 40 home_format (Arg.string (some name) ∷ []) >>= λ r. some r.0)
      else strcpy home root_path

  -- The home of a user but root is made in the file system, by `fs_mkdir` if `fs_create_home` fails.
  abbrev pub make_home : ℕ → Buffer → F → Option F
  make_home is_root name f =
      if is_root == 0
      then (let (f', r) = fs.fs_create_home f name in
          if is_negative r
          then (vsnprintf (replicate 64 0) 64 home_format (Arg.string (some name) ∷ []) >>= λ p.
              some (fs.fs_mkdir f' p.0).0)
          else some f')
      else some f

  -- The slot of the new user; the table's slot may hold what an earlier user left.
  abbrev pub new_user : Users F → Buffer → Buffer → ℕ → Option User
  new_user s name password is_root =
      let old = get_or s.users s.user_count no_user in
      let uid = if is_root == 0 then 999 + s.user_count else 0 in
      strncpy old.username name 31 >>= λ username. strncpy old.password password 31 >>= λ pass.
      home_of is_root old.home name >>= λ home. strcpy old.shell ksh_path >>= λ shell.
      some (record {
        username = username;
        password = pass;
        uid = uid;
        gid = uid;
        is_root = is_root;
        in_sudo = 0;
        home = home;
        shell = shell;
      })

  pub user_add : Users F → Buffer → Buffer → ℕ → Option (Users F × ℤ)
  user_add s name password is_root =
      if leb max_users s.user_count
      then some (s, negsuc 0)
      else elim (find_user (has_name name) s.user_count s.users 0) [
        | none ↦ none
        | some (some i) ↦ some (s, negsuc 0)
        | some none ↦ ◌>>=◌ {B = Users F × ℤ} (new_user s name password is_root) (λ u.
            ◌>>=◌ {B = Users F × ℤ} (make_home is_root name s.files) (λ f. saved (record s {
              users = set s.users s.user_count u;
              user_count = s.user_count + 1;
              files = f;
            })))
      ]

  abbrev pub logged_out : Users F → Users F
  logged_out s = record s { current_user = none; sudo_elevated = false }

  abbrev pub user_logout : Users F → Users F × ℤ
  user_logout s = (logged_out s, pos 0)

  abbrev pub is_current : Users F → ℕ → Bool
  is_current s i = elim s.current_user [ none ↦ false | some c ↦ i == c ]

  -- The slot of the user found is emptied, and the user logged out if it is the one at the console.
  abbrev pub remove : Users F → ℕ → Users F
  remove s i =
      let t = if is_current s i then logged_out s else s in
      record t { users = close_gap s.users s.user_count i; user_count = s.user_count - 1 }

  -- What `user_del` does with what its search finds.
  abbrev pub delete : Users F → Option (Option ℕ) → Option (Users F × ℤ)
  delete s none = none
  delete s (some none) = some (s, negsuc 0)
  delete s (some (some i)) =
      if (get_or s.users i no_user).is_root == 0 then saved (remove s i) else some (s, negsuc 0)

  pub user_del : Users F → Buffer → Option (Users F × ℤ)
  user_del s name = delete s (find_user (has_name name) s.user_count s.users 0)

  pub user_add_sudo : Users F → Buffer → Option (Users F × ℤ)
  user_add_sudo s name = elim (find_user (has_name name) s.user_count s.users 0) [
    | none ↦ none
    | some none ↦ some (s, negsuc 0)
    | some (some i) ↦
        saved
          (record s { users = set s.users i (record (get_or s.users i no_user) { in_sudo = 1 }) })
  ]

  -- What `user_login` does with what its search finds.
  abbrev pub log_in : Users F → Option (Option ℕ) → Option (Users F × ℤ)
  log_in s none = none
  log_in s (some none) = some (s, negsuc 0)
  log_in s (some (some i)) = some (
    record s {
      current_user = some i;
      sudo_elevated = false;
      files = (fs.fs_chdir s.files (get_or s.users i no_user).home).0;
    },
    pos 0,
  )

  pub user_login : Users F → Buffer → Buffer → Option (Users F × ℤ)
  user_login s name password = log_in s (find_user (has_login name password) s.user_count s.users 0)
