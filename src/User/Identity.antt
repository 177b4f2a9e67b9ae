-- ===== src/User/Identity.antt =====
-- `user_login` of kernel/user.c, and the searches of the table of users.
use krnel.Base.{
  ℕ, zero, suc, ◌+◌, ◌≤◌, ◌<◌, ◌≡◌, refl, ◌∙◌, ap, subst, Bool, true, false, Option, none, some,
  List, ◌==◌, get_or, arith, Bool-cases, inl, inr, ◌⊎◌,
}
use krnel.Base.Int.{ℤ, pos, negsuc}
use krnel.CString.{Buffer, text, terminated}
use krnel.CString.Compare.{strcmp, order, strcmp-order, strcmp-eq}
use krnel.User.{User, Files, Users, no_user, same, find_user, has_login, log_in, user_login}
use krnel.User.Rights.{user_at, user_get_name, user_check_password}

-- A test that answers, and says whether `P` holds.
abbrev pub Decides : Option Bool → Type 0 → Type 0
Decides o P = (o ≡ some true) × P ⊎ (o ≡ some false) × ¬ P

same_by :
    (s t : Buffer) (z : ℤ)
    → terminated s ≡ true
    → terminated t ≡ true
    → strcmp s t ≡ some z
    → Decides (same s t) (text s ≡ text t)
same_by s t (pos zero) h k e = inl (rw e refl, (strcmp-eq s t h k).0 e)
same_by s t (pos (suc n)) h k e =
    let w : (suc n == 0) ≡ false = ground arith in
    inr (rw e (ap some w), λ p. let z = (strcmp-eq s t h k).1 p in cc)
same_by s t (negsuc n) h k e = inr (rw e refl, λ p. let z = (strcmp-eq s t h k).1 p in cc)

-- The code's comparison of two C strings compares their texts.
pub same_lem :
    (s t : Buffer)
    → terminated s ≡ true
    → terminated t ≡ true
    → Decides (same s t) (text s ≡ text t)
same_lem s t h k = same_by s t (order (text s) (text t)) h k (strcmp-order s t h k)

same-true :
    (s t : Buffer)
    → terminated s ≡ true
    → terminated t ≡ true
    → text s ≡ text t
    → same s t ≡ some true
same-true s t h k e = elim (same_lem s t h k) [ inl y ↦ y.0 | inr other ↦ absurd (other.1 e) ]

-- The search answers with the first user of those from `i` on that has `P`, if there is one.
abbrev pub Finds : (User → Type 0) → ℕ → List User → ℕ → Option (Option ℕ) → Type 0
Finds P n users i o =
    (o ≡ some none) × ((j : ℕ) → i ≤ j → j < i + n → ¬ P (get_or users j no_user))
    ⊎ (j : ℕ) × (o ≡ some (some j))
      × P (get_or users j no_user)
      × (i ≤ j)
      × (j < i + n)
      × ((k : ℕ) → i ≤ k → k < j → ¬ P (get_or users k no_user))

next_user :
    (test : User → Option Bool) (n : ℕ) (users : List User) (i : ℕ) (b : Bool)
    → test (get_or users i no_user) ≡ some b
    → find_user test (suc n) users i
      ≡ (elim b [ true ↦ some (some i) | false ↦ find_user test n users (i + 1) ])
unfolding find_user
next_user test n users i b e =
    ap
      (λ o. elim o [
        | none ↦ none
        | some found ↦ elim found [ true ↦ some (some i) | false ↦ find_user test n users (i + 1) ]
      ])
      e

pub find_user-Finds :
    (test : User → Option Bool) (P : User → Type 0) (n : ℕ) (users : List User) (i : ℕ)
    → ((j : ℕ)
        → i ≤ j
        → j < i + n
        → Decides (test (get_or users j no_user)) (P (get_or users j no_user)))
    → Finds P n users i (find_user test n users i)
unfolding find_user
find_user-Finds test P zero users i d = inl (refl, λ j le lt. absurd (omega arith))
find_user-Finds test P (suc n) users i d = elim (d i (omega arith) (omega arith)) [
  | inl y ↦ inr (
    i,
    next_user test n users i true y.0,
    y.1,
    omega arith,
    omega arith,
    λ k le lt. absurd (omega arith),
  )
  | inr fails ↦
      let here : (j : ℕ)
          → i ≤ j
          → (i + 1 ≤ j → ¬ P (get_or users j no_user))
          → ¬ P (get_or users j no_user) =
        λ j le later. elim (Bool-cases (i == j)) [
          | inl y ↦ subst (λ k. ¬ P (get_or users k no_user)) (ground arith) fails.1
          | inr x ↦ later (ground arith)
        ] in
      elim (find_user-Finds test P n users (i + 1) (λ j le lt. d j (omega arith) (omega arith))) [
        | inl none_left ↦ inl (
          next_user test n users i false fails.0 ∙ none_left.0,
          λ j le lt. here j le (λ le'. none_left.1 j le' (omega arith)),
        )
        | inr (j, e, p, le, lt, before) ↦ inr (
          j,
          next_user test n users i false fails.0 ∙ e,
          p,
          omega arith,
          omega arith,
          λ k le' lt'. here k le' (λ le''. before k le'' lt'),
        )
      ]
]

-- The strings of the users in the table end.
abbrev pub Terminated : {F : Type 0} → Users F → Type 0
Terminated s =
    (i : ℕ)
    → i < s.user_count
    → (terminated (user_at s i).username ≡ true) × (terminated (user_at s i).password ≡ true)

abbrev pub Matches : Buffer → Buffer → User → Type 0
Matches name password u = (text u.username ≡ text name) × (text u.password ≡ text password)

has_login_lem :
    (name password : Buffer) (u : User)
    → terminated name ≡ true
    → terminated password ≡ true
    → terminated u.username ≡ true
    → terminated u.password ≡ true
    → Decides (has_login name password u) (Matches name password u)
has_login_lem name password u a b c d = elim (same_lem u.username name c a) [
  | inr other ↦ inr (rw other.0 refl, λ m. other.1 m.0)
  | inl y ↦ elim (same_lem u.password password d b) [
    | inl y' ↦ inl (rw y.0 y'.0, (y.1, y'.1))
    | inr other ↦ inr (rw y.0 other.0, λ m. other.1 m.1)
  ]
]

-- The user is logged in: the console's user has the name and the password given, and no rights but its own.
abbrev pub IsLogin : {F : Type 0} → Users F → Buffer → Buffer → Users F → Type 0
IsLogin s name password t =
    (text (user_get_name t) ≡ text name)
    × (user_check_password t password ≡ some true)
    × (t.sudo_elevated ≡ false)
    × (t.users ≡ s.users)

-- A login with C strings ends with -1 and changes nothing if no user has the name and the password; else it
-- ends with 0, and the user at the console has that name and password and no elevated rights.
pub user_login_lem :
    {F : Type 0} (fs : Files F) (s : Users F) (name password : Buffer)
    → terminated name ≡ true
    → terminated password ≡ true
    → Terminated s
    → (user_login fs s name password ≡ some (s, negsuc 0))
        × ((i : ℕ) → i < s.user_count → ¬ Matches name password (user_at s i))
      ⊎ (t : Users F) × (user_login fs s name password ≡ some (t, pos 0))
        × IsLogin s name password t
unfolding user_login user_get_name user_check_password
user_login_lem {F} fs s name password a b ends =
    elim (find_user-Finds (has_login name password) (Matches name password) s.user_count s.users 0
      (λ j le lt.
        has_login_lem name password (user_at s j) a b (ends j (omega arith)).0
          (ends j (omega arith)).1)) [
            | inl absent ↦
                inl (ap (log_in fs s) absent.0, λ i lt. absent.1 i (omega arith) (omega arith))
            | inr (j, e, m, le, lt, before) ↦
                let t = record s {
                  current_user = some j;
                  sudo_elevated = false;
                  files = (fs.fs_chdir s.files (user_at s j).home).0;
                } in
                inr (
                  t,
                  ap (log_in fs s) e,
                  (
                    m.0,
                    same-true (user_at s j).password password (ends j (omega arith)).1 b m.1,
                    refl,
                    refl,
                  ),
                )
          ]
