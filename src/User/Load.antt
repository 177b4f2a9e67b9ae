-- ===== src/User/Load.antt =====
-- `users_load` of kernel/user.c: the table from the text of /etc/passwd.
use krnel.Base.{
  ℕ, zero, suc, ◌+◌, ◌-◌, ◌%◌, ◌^◌, Bool, true, false, Option, none, some, List, [], ◌∷◌, ◌==◌,
  if◌then◌else◌, get_or, set, drop, length,
}
use krnel.Base.Int.{ℤ, pos, negsuc}
use krnel.CString.{Buffer, ◌>>=◌, strncpy, strcpy}
use krnel.CString.Compare.{strchr}
use krnel.CString.Number.{atoi}
use krnel.CString.Token.{strtok}
use krnel.User.{User, Users, no_user, max_users, root_path, ksh_path}

-- `strtok(line, ":")`, and `n` calls of `strtok(NULL, ":")` after it.
abbrev pub fields : ℕ → Option Buffer → Option (List (Option Buffer))
fields zero str = some []
fields (suc n) str = elim (strtok str (b':' ∷ 0 ∷ [])) [
  | none ↦ none
  | some r ↦ elim (fields n r.1) [ none ↦ none | some more ↦ some (r.0 ∷ more) ]
]

-- A cast of an `int` to an unsigned type of `m` values.
abbrev pub cast : ℕ → ℤ → ℕ
cast m (pos n) = n % m
cast m (negsuc n) = m - 1 - n % m

-- `s ? (…)atoi(s) : 0`
abbrev pub number_or_zero : ℕ → Option Buffer → Option ℕ
number_or_zero m none = some 0
number_or_zero m (some s) = atoi s >>= λ n. some (cast m n)

abbrev pub or_default : Option Buffer → Buffer → Buffer
or_default none d = d
or_default (some s) d = s

-- The slot `old` filled from the fields of a line.
abbrev pub fill_user : User → Buffer → Buffer → List (Option Buffer) → Option User
fill_user old uname pass fs = strncpy old.username uname 31 >>= λ username.
    strncpy old.password pass 31 >>= λ password.
    number_or_zero (2 ^ 32) (get_or fs 2 none) >>= λ uid.
    number_or_zero (2 ^ 32) (get_or fs 3 none) >>= λ gid.
    number_or_zero 256 (get_or fs 4 none) >>= λ is_root.
    number_or_zero 256 (get_or fs 5 none) >>= λ in_sudo.
    (if is_root == 0
      then strncpy old.home (or_default (get_or fs 6 none) root_path) 39
      else strcpy old.home root_path)
    >>= λ home. strncpy old.shell (or_default (get_or fs 7 none) ksh_path) 31 >>= λ shell.
        some (record {
          username = username;
          password = password;
          uid = uid;
          gid = gid;
          is_root = is_root;
          in_sudo = in_sudo;
          home = home;
          shell = shell;
        })

abbrev pub Table : Type 0
Table = List User × ℕ

-- A line without a name or a password is passed over.
abbrev pub load_line : Buffer → List User → ℕ → Option Table
load_line line users n = elim (fields 8 (some line)) [
  | none ↦ none
  | some fs ↦ elim (get_or fs 0 none) [
    | none ↦ some (users, n)
    | some uname ↦ elim (get_or fs 1 none) [
      | none ↦ some (users, n)
      | some pass ↦ elim (fill_user (get_or users n no_user) uname pass fs) [
        | none ↦ none
        | some u ↦ some (set users n u, n + 1)
      ]
    ]
  ]
]

-- The loop on the lines. Each round goes behind a line's end, so the length of the text is fuel enough; out of
-- fuel is `none`.
unfoldable pub load_users : ℕ → Buffer → List User → ℕ → Option Table
load_users zero line users n = none
load_users (suc fuel) [] users n = none
load_users (suc fuel) (c ∷ line) users n =
    if c == 0
    then some (users, n)
    else if n == max_users
    then some (users, n)
    else elim (strchr (c ∷ line) (pos b'\n')) [
      | none ↦ none
      | some none ↦ load_line (c ∷ line) users n
      | some (some i) ↦ elim (load_line (set (c ∷ line) i 0) users n) [
        | none ↦ none
        | some r ↦ load_users fuel (drop (i + 1) (c ∷ line)) r.0 r.1
      ]
    ]

-- `file` is the text that `fs_read` gave, with its NUL, and `none` if it gave none: then the result is that this
-- is the first boot, and the table stays.
abbrev pub users_load : {F : Type 0} → Option Buffer → Users F → Option (Users F × Bool)
users_load none s = some (s, true)
users_load (some buffer) s = elim (load_users (length buffer) buffer s.users 0) [
  | none ↦ none
  | some r ↦ some (record s { users = r.0; user_count = r.1 }, false)
]
