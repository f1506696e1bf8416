-- ===== src/Modle.antt =====
-- comit/modle/friends.go and groupchat.go: the connection server's queries of the web server's
-- tables. The columns that Select names are the ones that are read.
pub mod Read
use zqim.Prelude.{ℕ, Bool, Option, none, some, List, [], ◌∷◌, map, if◌then◌else◌}
use zqim.Sql.{friends, groupchat_users, num, Query, where_all, eq, Gorm, num_of}

abbrev pub friends_query : ℕ → Query
friends_query uid = where_all friends (eq "userid" (num uid) ∷ [])

abbrev pub users_query : ℕ → Query
users_query gid = where_all groupchat_users (eq "groupid" (num gid) ∷ [])

module _ {D : Type 0} (gm : Gorm D) where
  -- The ids, with whether the query went well.
  unfoldable pub get_friends : ℕ → D → List ℕ × Bool
  get_friends uid d =
      let (rows, ok) = gm.scan (friends_query uid) d in
      (map (λ row. num_of "friendid" row) rows, ok)

  unfoldable pub get_groupchat_user : ℕ → D → List ℕ × Bool
  get_groupchat_user gid d =
      let (rows, ok) = gm.scan (users_query gid) d in (map (λ row. num_of "userid" row) rows, ok)

-- The ids for a caller that stops at an error.
abbrev pub unless_failed : List ℕ × Bool → Option (List ℕ)
unless_failed (ids, ok) = if ok then some ids else none
