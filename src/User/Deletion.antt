-- ===== src/User/Deletion.antt =====
-- `user_del` of kernel/user.c: which user it deletes, and what becomes of the user at the console.
use krnel.Base.{ℕ, ◌<◌, ◌≡◌}
use krnel.CString.{Buffer, text}
use krnel.User.{User, Users}
use krnel.User.Rights.{user_at}

-- User `i` is the first of the table with the name.
abbrev pub IsFirst : {F : Type 0} → Users F → Buffer → ℕ → Type 0
IsFirst s name i =
    (text (user_at s i).username ≡ text name)
    × ((k : ℕ) → k < i → ¬ (text (user_at s k).username ≡ text name))
