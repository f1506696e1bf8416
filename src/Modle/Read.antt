-- ===== src/Modle/Read.antt =====
-- What the two queries find in the rows of their tables.
use zqim.Prelude.{
  ℕ, ◌≡◌, refl, ap, ◌∙◌, true, some, List, [], ◌∷◌, map, if◌then◌else◌, inl, inr, Bool-cases,
}
use zqim.Sql.{Table, friends, groupchat_users, num, Row, eq, Gorm, num_of}
use zqim.Sql.Laws.{IsSql, holds, matches, select}
use zqim.Modle.{friends_query, users_query, get_friends, get_groupchat_user, unless_failed}

-- The friends of a user among the rows.
unfoldable pub friends_of : ℕ → List Row → List ℕ
friends_of uid [] = []
friends_of uid (row ∷ rows) =
    let rest = friends_of uid rows in
    if holds (eq "userid" (num uid)) row then num_of "friendid" row ∷ rest else rest

-- The members of a group.
unfoldable pub users_of : ℕ → List Row → List ℕ
users_of gid [] = []
users_of gid (row ∷ rows) =
    let rest = users_of gid rows in
    if holds (eq "groupid" (num gid)) row then num_of "userid" row ∷ rest else rest

select-friends_of :
    (uid : ℕ) (rows : List Row)
    → map (λ row. num_of "friendid" row) (select (matches (eq "userid" (num uid) ∷ [])) rows)
      ≡ friends_of uid rows
unfolding friends_of
select-friends_of uid [] = refl
select-friends_of uid (row ∷ rows) = elim (Bool-cases (holds (eq "userid" (num uid)) row)) [
  | inl h ↦ rw (h, friends_of) ((ap (◌∷◌ (num_of "friendid" row)) (select-friends_of uid rows)))
  | inr h ↦ rw (h, friends_of) ((select-friends_of uid rows))
]

select-users_of :
    (gid : ℕ) (rows : List Row)
    → map (λ row. num_of "userid" row) (select (matches (eq "groupid" (num gid) ∷ [])) rows)
      ≡ users_of gid rows
unfolding users_of
select-users_of gid [] = refl
select-users_of gid (row ∷ rows) = elim (Bool-cases (holds (eq "groupid" (num gid)) row)) [
  | inl h ↦ rw (h, users_of) ((ap (◌∷◌ (num_of "userid" row)) (select-users_of gid rows)))
  | inr h ↦ rw (h, users_of) ((select-users_of gid rows))
]

module _ {D : Type 0} (gm : Gorm D) (rows : Table → D → List Row) (sql : IsSql gm rows)
    (d : D) where
  -- GetFriends finds the friends, if its query goes well.
  pub get_friends-friends_of :
      (uid : ℕ)
      → (gm.scan (friends_query uid) d).1 ≡ true
      → unless_failed (get_friends gm uid d) ≡ some (friends_of uid (rows friends d))
  unfolding get_friends
  get_friends-friends_of uid ok = rw ok (
      ap some (
        ap (map (λ row. num_of "friendid" row))
          (sql.scanned friends (eq "userid" (num uid) ∷ []) d refl ok)
        ∙ select-friends_of uid (rows friends d)))

  -- GetGroupchatUser finds the members, if its query goes well.
  pub get_groupchat_user-users_of :
      (gid : ℕ)
      → (gm.scan (users_query gid) d).1 ≡ true
      → unless_failed (get_groupchat_user gm gid d) ≡ some (users_of gid (rows groupchat_users d))
  unfolding get_groupchat_user
  get_groupchat_user-users_of gid ok = rw ok (
      ap some (
        ap (map (λ row. num_of "userid" row))
          (sql.scanned groupchat_users (eq "groupid" (num gid) ∷ []) d refl ok)
        ∙ select-users_of gid (rows groupchat_users d)))
