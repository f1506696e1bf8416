-- ===== src/Groups.antt =====
-- logic/models/groupchat.go: groups and their members.
pub mod Api
pub mod Quit
pub mod Removed
pub mod Unchecked
mod Tests
use Prim.Native.String.{String}
use zqim.Prelude.{
  ℕ, ◌+◌, ◌-◌, Bool, true, false, Option, none, some, List, [], ◌∷◌, ◌++◌, map, ◌==◌, if◌then◌else◌,
}
use zqim.Services.{Piece, text, number}
use zqim.Sql.{
  Table, groupchats, groupchat_users, Value, num, txt, Row, Cond, eq, is_in, Query, where_all,
  Found, found, record_not_found, failed, Gorm, num_of, txt_of,
}
use zqim.Web.{Web, Redis, begin, commit, grouper_delete}
use zqim.Friends.{page_of}

pub record Groupchat : Type 0 where
  pub id : ℕ
  pub group_name : List ℕ
  pub owner : ℕ
  pub avatar : List ℕ

abbrev pub zero_group : Groupchat
zero_group = record { id = 0; group_name = []; owner = 0; avatar = [] }

abbrev pub group_of : Row → Groupchat
group_of row = record {
  id = num_of "id" row;
  group_name = txt_of "group_name" row;
  owner = num_of "owner" row;
  avatar = txt_of "avatar" row;
}

abbrev pub member_row : ℕ → ℕ → Row
member_row gid uid = ("groupid", num gid) ∷ ("userid", num uid) ∷ []

abbrev pub of_group : ℕ → Query
of_group gid = where_all groupchat_users (eq "groupid" (num gid) ∷ [])

abbrev pub membership : ℕ → ℕ → Query
membership gid uid = where_all groupchat_users (eq "groupid" (num gid) ∷ eq "userid" (num uid) ∷ [])

-- The errors of the models, with the texts that they carry.
pub data GroupError : Type 0 where
  database cache not_in_group not_owner : GroupError

-- The statement of Invitation.
unfoldable pub values : ℕ → List ℕ → List Piece
values gid [] = []
values gid (v ∷ []) = text "(" ∷ number gid ∷ text "," ∷ number v ∷ text ");" ∷ []
values gid (v ∷ w ∷ vs) =
    text "(" ∷ number gid ∷ text "," ∷ number v ∷ text ")," ∷ values gid (w ∷ vs)

-- How the change of an owner ends. `no_other` is the return of `err` after First has failed, and
-- that is the error of GetGroup, which is nil.
pub data Handed (D : Type 0) : Type 0 where
  handed : D → Handed D
  no_other : Handed D
  not_handed : Handed D

module _ {D : Type 0} (gm : Gorm D) where
  -- The loop of GroupCreate over the members.
  unfoldable pub add_members : ℕ → List ℕ → D → Option D
  add_members gid [] d = some d
  add_members gid (v ∷ vs) d = elim (gm.create groupchat_users (member_row gid v) d) [
    | none ↦ none
    | some (i, d') ↦ add_members gid vs d'
  ]

  -- The statements of GroupCreate's transaction, with the id that the group gets.
  unfoldable pub group_rows : Groupchat → List ℕ → D → Option (ℕ × D)
  unfolding add_members
  group_rows group members d =
      elim (gm.create groupchats
        (("group_name", txt group.group_name)
          ∷ ("notice", txt [])
          ∷ ("owner", num group.owner)
          ∷ ("avatar", txt group.avatar)
          ∷ [])
        d) [
          | none ↦ none
          | some (gid, d₁) ↦ elim (add_members gid (members ++ group.owner ∷ []) d₁) [
            | none ↦ none
            | some d₂ ↦ some (gid, d₂)
          ]
        ]

  abbrev or_zero : Found → Groupchat
  or_zero (found row) = group_of row
  or_zero record_not_found = zero_group
  or_zero failed = zero_group

  -- The error of First is not looked at.
  unfoldable pub get_group : ℕ → ℕ → D → Option Groupchat
  get_group gid uid d =
      if gm.built_not_found (membership gid uid) d
      then none
      else some (or_zero (gm.first (where_all groupchats (eq "id" (num gid) ∷ [])) d))

  unfoldable pub get_group_members : ℕ → ℕ → ℕ → D → Option (List Row × Bool × ℕ)
  get_group_members gid uid page d =
      let q = record (page_of (of_group gid) page) {
        joins = some "left join users on users.id=groupchat_users.userid";
      } in
      let (users, ok) = gm.scan q d in
      if gm.built_not_found (membership gid uid) d
      then none
      else some (users, ok, gm.count (of_group gid) d)

  unfoldable pub get_group_all_members : ℕ → ℕ → D → Option (List ℕ × Bool)
  get_group_all_members gid uid d =
      let (groupuser, ok) = gm.scan (of_group gid) d in
      if gm.built_not_found (membership gid uid) d
      then none
      else some (map (λ row. num_of "userid" row) groupuser, ok)

  -- What QuitGroup does for an owner, in its transaction: the update has no Where.
  abbrev or_not : Option D → Handed D
  or_not none = not_handed
  or_not (some d) = handed d

  unfoldable pub new_owner : ℕ → D → Handed D
  new_owner gid d = elim (gm.first (of_group gid) d) [
    | record_not_found ↦ no_other
    | failed ↦ no_other
    | found row ↦
        let heir = num_of "userid" row in
        if heir == 0
        then or_not (gm.delete (where_all groupchats (eq "groupid" (num gid) ∷ [])) d)
        else or_not (gm.update (where_all groupchats []) "owner" (num heir) d)
  ]

module _ {D R : Type 0} (gm : Gorm D) (rd : Redis R) where
  abbrev commit_group : Option (ℕ × D) → Web D R → Web D R × Option ℕ
  commit_group none w = (w, none)
  commit_group (some (gid, d)) w =
      (commit (gm.commit d) d w, if gm.commit d then some gid else none)

  -- The group's id, or an error.
  unfoldable pub group_create : Groupchat → List ℕ → Web D R → Web D R × Option ℕ
  unfolding group_rows
  group_create group members w = commit_group (group_rows gm group members w.db) (begin w)

  abbrev ended : D → Web D R → Web D R × Option GroupError
  ended d w = (commit (gm.commit d) d w, if gm.commit d then none else some database)

  abbrev after_owner : Handed D → Web D R → Web D R × Option GroupError
  after_owner no_other w = (w, none)
  after_owner not_handed w = (w, some database)
  after_owner (handed d) w = ended d w

  abbrev left_group : ℕ → ℕ → D → Option Groupchat → Web D R → Web D R × Option GroupError
  left_group gid uid d none w = (w, some not_in_group)
  left_group gid uid d (some group) w =
      if group.owner == uid then after_owner (new_owner gm gid d) w else ended d w

  -- GetGroup reads outside the transaction.
  unfoldable pub quit_group : ℕ → ℕ → Web D R → Web D R × Option GroupError
  unfolding get_group new_owner
  quit_group gid uid w = elim (grouper_delete rd gid w.cache) [
    | none ↦ (begin w, some cache)
    | some r ↦
        let begun : Web D R = record (begin w) { cache = r } in
        elim (gm.delete (membership gid uid) w.db) [
          | none ↦ (begun, some database)
          | some d ↦ left_group gid uid d (get_group gm gid uid w.db) begun
        ]
  ]

  unfoldable pub delete_group : ℕ → ℕ → Web D R → Web D R × Option GroupError
  delete_group gid uid w = elim (grouper_delete rd gid w.cache) [
    | none ↦ (begin w, some cache)
    | some r ↦
        let begun : Web D R = record (begin w) { cache = r } in
        elim (gm.delete (where_all groupchats (eq "groupid" (num gid) ∷ eq "owner" (num uid) ∷ []))
          w.db) [ none ↦ (begun, some database) | some d ↦ ended d begun ]
  ]

  abbrev stored : Option D → Web D R → Web D R × Option GroupError
  stored none w = (w, some database)
  stored (some d) w = (record w { db = d }, none)

  unfoldable pub invitation : ℕ → ℕ → List ℕ → Web D R → Web D R × Option GroupError
  unfolding values
  invitation gid uid members w =
      let checked : Web D R × Option GroupError = elim (grouper_delete rd gid w.cache) [
        | none ↦ (w, some cache)
        | some r ↦
            stored
              (gm.exec
                (text "INSERT INTO groupchat_users (groupid,userid) VALUES" ∷ values gid members)
                w.db)
              (record w { cache = r })
      ] in
      if gm.built_not_found (membership gid uid) w.db then (w, some not_in_group) else checked

  unfoldable pub removemembers : ℕ → ℕ → List ℕ → Web D R → Web D R × Option GroupError
  removemembers gid uid members w =
      let checked : Web D R × Option GroupError = elim (grouper_delete rd gid w.cache) [
        | none ↦ (w, some cache)
        | some r ↦
            stored
              (gm.delete
                (where_all groupchat_users (eq "groupid" (num gid) ∷ is_in "userid" members ∷ []))
                w.db)
              (record w { cache = r })
      ] in
      if gm.built_not_found (where_all groupchats (eq "id" (num gid) ∷ eq "owner" (num uid) ∷ []))
        w.db
      then (w, some not_owner)
      else checked
