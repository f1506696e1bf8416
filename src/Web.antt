-- ===== src/Web.antt =====
-- The web server of logic: its state, the answers of logic/utils/error.go, and the keys of
-- logic/config/redis.go.
pub mod Samples
pub mod Shared
use zqim.Prelude.{ℕ, ◌+◌, ◌-◌, Bool, true, false, Option, none, some, List, [], ◌∷◌, ◌++◌}
use zqim.Services.{User, Key, userid_key, friends_key, groupid_key}
use zqim.Balance.{ComitManages}

-- intercom.FriendNotife, and the calls that carry one to a connection server.
pub record FriendNotife : Type 0 where
  pub greet : List ℕ
  pub nid : ℕ
  pub uid : ℕ
  pub receiver : ℕ

pub data Call : Type 0 where
  friend_notify : ℕ → FriendNotife → Call
  friend_agree : ℕ → FriendNotife → Call

-- Redis as this server uses it; an operation that fails gives `none`. `unjson_user` is what
-- Unmarshal leaves in a zero User.
pub record Redis (R : Type 0) : Type 0 where
  pub get : Key → R → Option (List ℕ)
  pub del : Key → R → Option R
  pub unjson_user : List ℕ → User

-- The database, the number of transactions that were begun and have not ended, redis, the table of
-- connection servers, and the calls made so far.
pub record Web (D R : Type 0) : Type 0 where
  pub db : D
  pub opened : ℕ
  pub cache : R
  pub comits : ComitManages
  pub calls : List Call

-- What a handler answers: ResponseError and SetError by their code, ResponseSuccess by its data.
pub data Response (A : Type 0) : Type 0 where
  response_error : ℕ → Response A
  set_error : ℕ → Response A
  response_success : A → Response A

-- DBerror
abbrev pub db_error : {A : Type 0} → Response A
db_error = set_error 1

module _ {D R : Type 0} where
  abbrev pub begin : Web D R → Web D R
  begin w = record w { opened = w.opened + 1 }

  -- Commit ends the transaction, and installs what it did when it goes well. Callback, which the
  -- source calls on errors, ends nothing.
  abbrev pub commit : Bool → D → Web D R → Web D R
  commit true d w = record w { db = d; opened = w.opened - 1 }
  commit false d w = record w { opened = w.opened - 1 }

  abbrev pub call : Call → Web D R → Web D R
  call c w = record w { calls = w.calls ++ c ∷ [] }

  -- Its callers ignore the error, and look at the user.
  unfoldable pub get_user_from_redis : Redis R → ℕ → Web D R → User
  get_user_from_redis rd uid w = elim (rd.get (userid_key uid) w.cache) [
    | none ↦ record { uid = 0; srvname = "" }
    | some value ↦ rd.unjson_user value
  ]

module _ {R : Type 0} where
  abbrev pub grouper_delete : Redis R → ℕ → R → Option R
  grouper_delete rd gid r = rd.del (groupid_key gid) r

  abbrev pub friend_delete_key : Redis R → ℕ → R → Option R
  friend_delete_key rd uid r = rd.del (friends_key uid) r
