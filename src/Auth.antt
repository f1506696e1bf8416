-- ===== src/Auth.antt =====
-- comit/handles/authhandle.go, comit/middlehandles/authmiddle.go and the close callback of
-- comit/router/router.go: how a connection becomes a user's, and what is cleared behind it.
pub mod Login
pub mod Relogin
mod Tests
use zqim.Prelude.{ℕ, Option, none, some, List, [], ◌∷◌, Bool, true, false, not, ◌==◌, if◌then◌else◌}
use zqim.Frame.{Request}
use zqim.Conn.{Connect, close, set_id, set_auth}
use zqim.Ack.{World, on_conn, add_connect, delete_connect}
use zqim.Services.{
  Services, Sys, User, Key, userid_key, with_world, write_to, request_of, auth, auth_success,
  token_overtime, auth_othe, messag_error,
}
use zqim.Cache.{atoi_u32, set_user}
use zqim.Chat.{id_of}

pub data AuthError : Type 0 where
  unmarshal_fail auth_fail token_error : AuthError

-- The checks of a token, with the reply's code when one fails.
pub data Checked : Type 0 where
  accepted : ℕ → Checked
  refused : ℕ → AuthError → Checked

module _ {S : Type 0} (sv : Services S) where
  abbrev or_nil : Option (List ℕ) → List ℕ
  or_nil none = []
  or_nil (some buf) = buf

  -- The reply is written even if Marshal fails, and a refused connection is closed.
  unfoldable pub authreply : ℕ → ℕ → Sys S → Sys S
  unfolding close
  authreply a code y =
      let written = with_world (write_to a (request_of auth (or_nil (sv.marshal_status code)))) y in
      if not (code == 0) then with_world (on_conn a close) written else written

  -- AuthHandle from the end of its checks on. SetUser's error is ignored.
  unfoldable pub log_in : ℕ → ℕ → Sys S → Sys S
  unfolding add_connect set_user authreply
  log_in a uid y =
      let added = with_world (add_connect uid a) y in
      let user : User = record { uid = uid; srvname = sv.server_name } in
      let cached : Sys S = record added { store = (set_user sv uid user y.store).1 } in
      authreply a auth_success
        (with_world (λ w. on_conn a (λ c. set_auth true (set_id uid c)) w) cached)

  unfoldable pub check_uid : List ℕ → Checked
  unfolding atoi_u32
  check_uid token = elim (sv.uid_claim token) [
    | none ↦ refused auth_othe token_error
    | some uidstr ↦ elim (atoi_u32 uidstr) [
      | none ↦ refused auth_othe token_error
      | some uid ↦ accepted uid
    ]
  ]

  unfoldable pub check_token : List ℕ → Checked
  unfolding check_uid
  check_token [] = refused token_overtime auth_fail
  check_token (x ∷ xs) =
      if sv.valid_claims (x ∷ xs) then check_uid (x ∷ xs) else refused token_overtime token_error

  unfoldable pub check_request : Request → Checked
  unfolding check_token
  check_request request = elim (sv.unmarshal_token request.body) [
    | none ↦ refused messag_error unmarshal_fail
    | some token ↦ check_token token
  ]

  abbrev pub answer : ℕ → Sys S → Checked → Sys S × Option AuthError
  answer a y (accepted uid) = (log_in a uid y, none)
  answer a y (refused code e) = (authreply a code y, some e)

  unfoldable pub auth_handle : ℕ → Request → Sys S → Sys S × Option AuthError
  unfolding check_request log_in authreply
  auth_handle a request y = answer a y (check_request request)

  -- AuthMiddleHandle: whether it lets the request through.
  unfoldable pub auth_middle_handle : ℕ → Sys S → Bool
  auth_middle_handle a y = (y.world.conn a).auth

  -- CloseHandle
  unfoldable pub close_handle : ℕ → Sys S → Sys S
  unfolding delete_connect
  close_handle a y =
      let uid = id_of sv a y in
      let removed = with_world (delete_connect uid) y in
      record removed { store = (sv.del (userid_key uid) y.store).1 }
