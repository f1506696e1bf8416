-- ===== src/Users.antt =====
-- logic/models/user.go and logic/controller/userController.go: accounts, and the login that gives a
-- client its token and its connection server.
pub mod Login
pub mod Samples
mod Tests
use Prim.Native.String.{String}
use zqim.Prelude.{
  ℕ, ◌+◌, ◌-◌, ◌*◌, ◌%◌, Bool, true, false, Option, none, some, List, [], ◌∷◌, ◌++◌, ◌==◌,
  if◌then◌else◌,
}
use zqim.Frame.{u32_mod}
use zqim.Balance.{ComitManages, next_tcp_server}
use zqim.Sql.{
  Table, users, Value, num, txt, Row, Cond, eq, like, Query, where_all, Found, found,
  record_not_found, failed, Gorm, num_of, txt_of,
}
use zqim.Web.{Web, Response, response_error, response_success}
use zqim.Token.{Jwt, TokenError, Result, ok, err, secret_key, generate_token, refresh_token}

-- The parameters of logic/request/userRequest.go.
pub record LoginInput : Type 0 where
  pub username : List ℕ
  pub passwd : List ℕ

pub record RegisterParm : Type 0 where
  pub username : List ℕ
  pub passwd : List ℕ
  pub sex : List ℕ
  pub nickname : List ℕ
  pub head_image : List ℕ

-- The map that Login and Checklogin answer with.
pub record LoginAnswer : Type 0 where
  pub ip : String
  pub token : List ℕ
  pub user : Row

-- "man"
abbrev man : List ℕ
man = b'm' ∷ b'a' ∷ b'n' ∷ []

-- The columns that Register fills; the time of the last login is left to the database.
unfoldable pub user_row : RegisterParm → Row
user_row parm =
    ("username", txt parm.username)
    ∷ ("nickname", txt parm.nickname)
    ∷ ("head_image", txt parm.head_image)
    ∷ ("sex", txt man)
    ∷ ("passwd", txt parm.passwd)
    ∷ []

module _ {D : Type 0} (gm : Gorm D) where
  abbrev pub by_name : LoginInput → Query
  by_name parm =
      where_all users (eq "username" (txt parm.username) ∷ eq "passwd" (txt parm.passwd) ∷ [])

  unfoldable pub user_add : RegisterParm → D → Option (ℕ × D)
  unfolding user_row
  user_add parm d = gm.create users (user_row parm) d

  -- `"%"+key+"%"`, and rows from `(page-1)*size` on, in uint32
  unfoldable pub user_search : List ℕ → ℕ → ℕ → D → List Row
  user_search key page size d =
      (gm.scan
        (record (where_all users (like "username" (b'%' ∷ key ++ b'%' ∷ []) ∷ [])) {
          limit = some size;
          offset = some ((page + u32_mod - 1) * size % u32_mod);
        })
        d).0

  abbrev or_zero : Found → Row
  or_zero (found row) = row
  or_zero record_not_found = []
  or_zero failed = []

  -- A user who is not there is the zero User.
  unfoldable pub get_user : ℕ → D → Row
  get_user uid d = or_zero (gm.first (where_all users (eq "id" (num uid) ∷ [])) d)

  unfoldable pub update_head_image : ℕ → List ℕ → D → Option D
  update_head_image uid headimage d =
      gm.update (where_all users (eq "id" (num uid) ∷ [])) "head_image" (txt headimage) d

module _ {D R : Type 0} where
  -- `none` is the panic of NextTcpServer without servers.
  abbrev pub with_ip :
      List ℕ
      → Row
      → Option String × ComitManages
      → Web D R
      → Option (Web D R × Response LoginAnswer)
  with_ip token user (none, m) w = none
  with_ip token user (some ip, m) w =
      some
        (record w { comits = m }, response_success (record { ip = ip; token = token; user = user }))

module _ {D R : Type 0} (gm : Gorm D) (jwt : Jwt) where
  -- UserLogin's two errors are answered with the same code and other texts.
  unfoldable pub login : ℕ → Option LoginInput → Web D R → Option (Web D R × Response LoginAnswer)
  unfolding next_tcp_server generate_token
  login now none w = some (w, response_error 2001)
  login now (some parm) w = elim (gm.first (by_name gm parm) w.db) [
    | record_not_found ↦ some (w, response_error 500)
    | failed ↦ some (w, response_error 500)
    | found row ↦
        with_ip (generate_token jwt now (num_of "id" row) (txt_of "username" row)) row
          (next_tcp_server w.comits) w
  ]

  unfoldable pub checklogin : ℕ → List ℕ → ℕ → Web D R → Option (Web D R × Response LoginAnswer)
  unfolding next_tcp_server refresh_token get_user
  checklogin now token uid w = elim (refresh_token jwt secret_key now token) [
    | err e ↦ some (w, response_error 500)
    | ok newtoken ↦ with_ip newtoken (get_user gm uid w.db) (next_tcp_server w.comits) w
  ]

module _ {D R : Type 0} (gm : Gorm D) where
  -- The sex that the client sends is not looked at.
  unfoldable pub register : Option RegisterParm → Web D R → Web D R × Response (Unit {0})
  unfolding user_add
  register none w = (w, response_error 2001)
  register (some parm) w = elim (user_add gm parm w.db) [
    | none ↦ (w, response_error 2001)
    | some (i, d) ↦ (record w { db = d }, response_success tt)
  ]

  unfoldable pub get_user_handler : Option ℕ → Web D R → Response Row
  unfolding get_user
  get_user_handler none w = response_error 2001
  get_user_handler (some uid) w = response_success (get_user gm uid w.db)

  unfoldable pub firend_serach : Option (List ℕ × ℕ) → Web D R → Response (List Row)
  unfolding user_search
  firend_serach none w = response_error 500
  firend_serach (some (key, page)) w = response_success (user_search gm key page 20 w.db)

  unfoldable pub update_head_image_handler :
      ℕ → Option (List ℕ) → Web D R → Web D R × Response (Unit {0})
  unfolding update_head_image
  update_head_image_handler uid none w = (w, response_error 500)
  update_head_image_handler uid (some headimage) w =
      elim (update_head_image gm uid headimage w.db) [
        | none ↦ (w, response_error 500)
        | some d ↦ (record w { db = d }, response_success tt)
      ]
