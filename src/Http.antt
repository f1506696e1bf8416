-- ===== src/Http.antt =====
-- logic/router/router.go: the requests, the routes and the answers of the web server. gin is a
-- parameter.
pub mod Table
pub mod Serve
pub mod Guard
pub mod Anonymous
pub mod Session
mod Tests
use Prim.Native.String.{String}
use zqim.Prelude.{ℕ, Bool, true, false, Option, none, some, List, [], ◌∷◌, if◌then◌else◌}
use zqim.Sql.{Row, Gorm}
use zqim.Web.{Web, Redis, Response, response_error}
use zqim.Token.{Jwt, auth_middle, getuid}
use zqim.Users.{
  LoginInput, RegisterParm, LoginAnswer, login, register, get_user_handler, checklogin,
  update_head_image_handler, firend_serach,
}
use zqim.Oss.{Packages, PolicyToken, get_policy_token}
use zqim.Friends.Api.{
  AddFriendParm, add_friend, agree, refuse, delete_firend, firend_list_handler, notify_list_handler,
  notify_clear_handler,
}
use zqim.Groups.{Groupchat}
use zqim.Groups.Api.{
  CreateGroupParam, InvitationParm, GetMembersParm, create_group_handler, quit_group_handler,
  delete_group_handler, get_group_handler, invitation_handler, get_members_handler,
  get_all_members_handler, removemembers_handler,
}

pub data Method : Type 0 where
  get post : Method

-- A route, with the handler of type H; `guarded` is that its group has AuthMiddle.
pub record Route (H : Type 0) : Type 0 where
  pub guarded : Bool
  pub method : Method
  pub path : String
  pub handler : H

-- gin: the route that it finds for a request, and what ShouldBind makes of a request's body and
-- query for each of the structs that the controllers bind.
pub record Gin (H B : Type 0) : Type 0 where
  pub find : List (Route H) → Method → String → Option (Route H)
  pub login_input : B → Option LoginInput
  pub register_parm : B → Option RegisterParm
  pub uid_parm : B → Option ℕ
  pub head_image_parm : B → Option (List ℕ)
  pub page_parm : B → Option ℕ
  pub add_friend_parm : B → Option AddFriendParm
  pub agree_parm : B → Option ℕ
  pub friend_parm : B → Option ℕ
  pub serach_parm : B → Option (List ℕ × ℕ)
  pub create_group_param : B → Option CreateGroupParam
  pub group_param : B → Option ℕ
  pub members_parm : B → Option GetMembersParm
  pub invitation_parm : B → Option InvitationParm

-- A request: when it comes, the header `token`, and the rest that ShouldBind reads. What
-- RandComitServer takes from the process comes with it.
pub record HttpRequest (B : Type 0) : Type 0 where
  pub now : ℕ
  pub method : Method
  pub path : String
  pub token : List ℕ
  pub body : B
  pub draw : ℕ
  pub visit : List (String × ℕ) → List (String × ℕ)

-- What the controllers answer, by the data of a success.
pub data Reply : Type 0 where
  done : Response (Unit {0}) → Reply
  logged_in : Response LoginAnswer → Reply
  user : Response Row → Reply
  users : Response (List Row) → Reply
  notify_id : Response ℕ → Reply
  refused : List (Response ℕ) → Reply
  group : Response Groupchat → Reply
  members : Response (List Row × ℕ) → Reply
  uids : Response (List ℕ) → Reply
  policy : PolicyToken → Reply
  token_error : Reply
  not_found : Reply

-- A controller gets the uid that AuthMiddle has set, or the empty text; `none` is a panic.
abbrev pub Handler : Type 0 → Type 0 → Type 0 → Type 0
Handler D R B = List ℕ → HttpRequest B → Web D R → Option (Web D R × Reply)

module _ {D R : Type 0} where
  abbrev pub writes : {A : Type 0} → (A → Reply) → Web D R × A → Option (Web D R × Reply)
  writes f (w, a) = some (w, f a)

  abbrev pub may_panic :
      {A : Type 0} → (A → Reply) → Option (Web D R × A) → Option (Web D R × Reply)
  may_panic f none = none
  may_panic f (some (w, a)) = some (w, f a)
