-- ===== src/Groups/Api.antt =====
-- logic/controller/groupController.go, with the parameters of logic/request/groupRequest.go. A
-- handler gets the user id of the token and what ShouldBind made of the request.
use zqim.Prelude.{ℕ, Bool, true, false, Option, none, some, List}
use zqim.Sql.{Row, Gorm}
use zqim.Web.{Web, Redis, Response, response_error, response_success, db_error}
use zqim.Groups.{
  Groupchat, GroupError, group_create, quit_group, delete_group, get_group, invitation,
  get_group_members, get_group_all_members, removemembers,
}

pub record CreateGroupParam : Type 0 where
  pub group_name : List ℕ
  pub members : List ℕ
  pub avatar : List ℕ

pub record InvitationParm : Type 0 where
  pub group_id : ℕ
  pub members : List ℕ

pub record GetMembersParm : Type 0 where
  pub group_id : ℕ
  pub page : ℕ

module _ {D R : Type 0} (gm : Gorm D) (rd : Redis R) where
  abbrev group_made : Groupchat → Web D R × Option ℕ → Web D R × Response Groupchat
  group_made group (w, none) = (w, response_error 2001)
  group_made group (w, some gid) = (w, response_success (record group { id = gid }))

  unfoldable pub create_group_handler :
      ℕ → Option CreateGroupParam → Web D R → Web D R × Response Groupchat
  unfolding group_create
  create_group_handler uid none w = (w, response_error 500)
  create_group_handler uid (some parm) w =
      let group : Groupchat = record {
        id = 0;
        group_name = parm.group_name;
        owner = uid;
        avatar = parm.avatar;
      } in
      group_made group (group_create gm rd group parm.members w)

  -- An error of the model is answered with a code, by ResponseError or by DBerror.
  abbrev answer : Response (Unit {0}) → Web D R × Option GroupError → Web D R × Response (Unit {0})
  answer r (w, none) = (w, response_success tt)
  answer r (w, some e) = (w, r)

  unfoldable pub quit_group_handler : ℕ → Option ℕ → Web D R → Web D R × Response (Unit {0})
  unfolding quit_group
  quit_group_handler uid none w = (w, response_error 500)
  quit_group_handler uid (some gid) w = answer db_error (quit_group gm rd gid uid w)

  unfoldable pub delete_group_handler : ℕ → Option ℕ → Web D R → Web D R × Response (Unit {0})
  unfolding delete_group
  delete_group_handler uid none w = (w, response_error 500)
  delete_group_handler uid (some gid) w = answer (response_error 500) (delete_group gm rd gid uid w)

  unfoldable pub get_group_handler : ℕ → Option ℕ → Web D R → Response Groupchat
  unfolding get_group
  get_group_handler uid none w = response_error 500
  get_group_handler uid (some gid) w = elim (get_group gm gid uid w.db) [
    | none ↦ response_error 500
    | some group ↦ response_success group
  ]

  unfoldable pub invitation_handler :
      ℕ → Option InvitationParm → Web D R → Web D R × Response (Unit {0})
  unfolding invitation
  invitation_handler uid none w = (w, response_error 500)
  invitation_handler uid (some parm) w =
      answer (response_error 500) (invitation gm rd parm.group_id uid parm.members w)

  abbrev members_answer : Option (List Row × Bool × ℕ) → Response (List Row × ℕ)
  members_answer none = response_error 500
  members_answer (some (users, false, count)) = response_error 500
  members_answer (some (users, true, count)) = response_success (users, count)

  unfoldable pub get_members_handler : ℕ → Option GetMembersParm → Web D R → Response (List Row × ℕ)
  unfolding get_group_members
  get_members_handler uid none w = response_error 500
  get_members_handler uid (some parm) w =
      members_answer (get_group_members gm parm.group_id uid parm.page w.db)

  abbrev all_answer : Option (List ℕ × Bool) → Response (List ℕ)
  all_answer none = response_error 500
  all_answer (some (uids, false)) = response_error 500
  all_answer (some (uids, true)) = response_success uids

  unfoldable pub get_all_members_handler : ℕ → Option ℕ → Web D R → Response (List ℕ)
  unfolding get_group_all_members
  get_all_members_handler uid none w = response_error 500
  get_all_members_handler uid (some gid) w = all_answer (get_group_all_members gm gid uid w.db)

  unfoldable pub removemembers_handler :
      ℕ → Option InvitationParm → Web D R → Web D R × Response (Unit {0})
  unfolding removemembers
  removemembers_handler uid none w = (w, response_error 500)
  removemembers_handler uid (some parm) w =
      answer (response_error 500) (removemembers gm rd parm.group_id uid parm.members w)
