-- ===== src/Chat.antt =====
-- comit/handles/chathandle.go: chat messages, their acks, and the queries of comit/modle that it
-- makes.
pub mod One
pub mod Group
mod Tests
use zqim.Prelude.{
  ℕ, ◌+◌, ◌-◌, ◌%◌, ◌≡◌, Bool, true, false, not, Option, none, some, List, [], ◌∷◌, ◌++◌, length,
  ◌==◌, if◌then◌else◌, string_eq,
}
use zqim.Prelude.Maps
use Prim.Native.String.{String}
use zqim.Frame.{Request, u32_mod}
use zqim.Conn.{Connect}
use zqim.Ack.{World, get_connect, send_delete}
use zqim.Services.{
  Services, Sys, Key, User, OneMessage, GroupMessage, GroupUserMessage, AckReply, ManyReply,
  DeleteMany, Piece, text, number, Call, transfer, grouptranfer, with_world, call, get_comit_server,
  write_to, push_new, request_of, one_message, gorup_message, ack_mesage, ack_many_message,
  ack_success, ack_save_fail,
}
use zqim.Cache.{get_group_users, group_mebers_check, friend_check, get_user}

-- The errors that the handlers make.
pub data HandleError : Type 0 where
  message_error id_mismatch not_friend save_failed : HandleError
  parse_failed sender_mismatch not_member database_failed : HandleError

-- The statement of CreateGroupUserMessage: one pair for each row, a comma after each but the last.
unfoldable pub values : List GroupUserMessage → List Piece
values [] = []
values (v ∷ []) = text "(" ∷ number v.rek ∷ text "," ∷ number v.receiver ∷ text ");" ∷ []
values (v ∷ w ∷ vs) =
    text "(" ∷ number v.rek ∷ text "," ∷ number v.receiver ∷ text ")," ∷ values (w ∷ vs)

unfoldable pub insert_statement : List GroupUserMessage → List Piece
unfolding values
insert_statement vs = text "INSERT INTO group_user_messages (rek,receiver) VALUES " ∷ values vs

-- What the loop of GorupMessageHandle over the members gathers: the rows of the receivers, the
-- connections here, and the receivers of each other server.
pub record Gathered : Type 0 where
  pub usermessages : List GroupUserMessage
  pub locclient : List ℕ
  pub remoteclient : List (String × List ℕ)

-- `m[k]=append(m[k],uid)`
abbrev or_empty : Option (List ℕ) → List ℕ
or_empty none = []
or_empty (some uids) = uids

unfoldable pub append_to : String → ℕ → List (String × List ℕ) → List (String × List ℕ)
append_to name uid m = Maps.insert name (or_empty (Maps.lookup name m) ++ uid ∷ []) m

module _ {S : Type 0} (sv : Services S) where
  abbrev pub id_of : ℕ → Sys S → ℕ
  id_of a y = (y.world.conn a).id

  unfoldable pub send_ack : ℕ → ℕ → ℕ → ℕ → Sys S → Sys S
  send_ack a rek status msgtype y =
      elim (sv.marshal_ack (record { rek = rek; msgtype = msgtype; status = status })) [
        | none ↦ y
        | some buf ↦ with_world (write_to a (request_of ack_mesage buf)) y
      ]

  -- The end of OneMessageHandle, for a receiver that is connected elsewhere.
  unfoldable pub relay_one : OneMessage → Sys S → Sys S
  unfolding get_user
  relay_one msg y = elim (get_user sv msg.receiver y.store) [
    | none ↦ y
    | some user ↦ elim (get_comit_server user.srvname y) [
      | none ↦ y
      | some server ↦ call (transfer server msg) y
    ]
  ]

  unfoldable pub deliver_one : Request → OneMessage → Sys S → Sys S
  unfolding relay_one push_new get_connect
  deliver_one request msg y = elim (get_connect msg.receiver y.world) [
    | none ↦ relay_one msg y
    | some b ↦
        with_world
          (λ w. write_to b request (push_new request.body msg.receiver msg.rek one_message w)) y
  ]

  -- OneMessageHandle from the call of FriendCheck on.
  unfoldable pub check_one : ℕ → Request → OneMessage → Sys S → Sys S × Option HandleError
  unfolding friend_check send_ack deliver_one
  check_one a request msg y =
      let (is_friend, s) = friend_check sv msg.receiver msg.sender y.store in
      let checked : Sys S = record y { store = s } in
      let (added, s') = sv.create_onemessage msg s in
      let saved : Sys S = record y { store = s' } in
      if not is_friend
      then (send_ack a msg.rek ack_save_fail gorup_message checked, some not_friend)
      else if not added
      then (send_ack a msg.rek ack_save_fail one_message saved, some save_failed)
      else (deliver_one request msg (send_ack a msg.rek ack_success one_message saved), none)

  unfoldable pub one_message_handle : ℕ → Request → Sys S → Sys S × Option HandleError
  unfolding check_one
  one_message_handle a request y = elim (sv.unmarshal_one request.body) [
    | none ↦ (y, some message_error)
    | some msg ↦
        if not (msg.sender == id_of a y) then (y, some id_mismatch) else check_one a request msg y
  ]

  add_remote : ℕ → Option User → List (String × List ℕ) → List (String × List ℕ)
  unfolding append_to
  add_remote uid none m = m
  add_remote uid (some user) m = append_to user.srvname uid m

  unfoldable pub gather_one : ℕ → ℕ → Sys S → Gathered → Gathered
  unfolding get_connect get_user add_remote
  gather_one rek uid y g =
      let row : GroupUserMessage = record { rek = rek; receiver = uid } in
      let rows = g.usermessages ++ row ∷ [] in
      elim (get_connect uid y.world) [
        | some b ↦ record g { usermessages = rows; locclient = g.locclient ++ b ∷ [] }
        | none ↦ record g {
          usermessages = rows;
          remoteclient = add_remote uid (get_user sv uid y.store) g.remoteclient;
        }
      ]

  unfoldable pub gather : ℕ → ℕ → Sys S → List ℕ → Gathered → Gathered
  unfolding gather_one
  gather a rek y [] g = g
  gather a rek y (uid ∷ uids) g =
      gather a rek y uids (if uid == id_of a y then g else gather_one rek uid y g)

  -- `buf` is nil when Marshal fails.
  abbrev or_nil : Option (List ℕ) → List ℕ
  or_nil none = []
  or_nil (some buf) = buf

  unfoldable pub deliver_local : Request → List ℕ → ℕ → List ℕ → World → World
  unfolding push_new
  deliver_local request buf rek [] w = w
  deliver_local request buf rek (b ∷ bs) w =
      let r : Request = record request { body = buf; body_len = length buf % u32_mod } in
      deliver_local request buf rek bs
        (write_to b r (push_new buf (w.conn b).id rek gorup_message w))

  unfoldable pub deliver_remote : GroupMessage → List (String × List ℕ) → Sys S → Sys S
  deliver_remote msg [] y = y
  deliver_remote msg ((name, uids) ∷ rest) y =
      let y' : Sys S = elim (get_comit_server name y) [
        | none ↦ y
        | some server ↦ call (grouptranfer server msg uids) y
      ] in
      deliver_remote msg rest y'

  -- The end of GorupMessageHandle, once everything is saved.
  unfoldable pub deliver_group : ℕ → Request → GroupMessage → Gathered → Sys S → Sys S
  unfolding send_ack deliver_local deliver_remote
  deliver_group a request msg g y =
      let acked = send_ack a msg.rek ack_success gorup_message y in
      let buf = or_nil (sv.marshal_group msg) in
      deliver_remote msg (sv.visit g.remoteclient)
        (with_world (deliver_local request buf msg.rek g.locclient) acked)

  -- GorupMessageHandle from GetGroupUsers on. The users are read before GroupMebersCheck fills the
  -- cache.
  unfoldable pub check_group : ℕ → Request → GroupMessage → Sys S → Sys S × Option HandleError
  unfolding get_group_users group_mebers_check gather insert_statement deliver_group send_ack
  check_group a request msg y =
      let userlist = get_group_users sv msg.groupid y.store in
      let (is_member, s) = group_mebers_check sv msg.groupid msg.sender y.store in
      let checked : Sys S = record y { store = s } in
      let (created, s') = sv.create_message msg s in
      let saved : Sys S = record y { store = s' } in
      let g =
        gather a msg.rek saved userlist
          (record { usermessages = []; locclient = []; remoteclient = [] }) in
      let (inserted, s'') = sv.exec (insert_statement g.usermessages) s' in
      let queued : Sys S = record y { store = s'' } in
      let fail = send_ack a msg.rek ack_save_fail gorup_message in
      if not is_member
      then (fail checked, some not_member)
      else if not created
      then (fail saved, some database_failed)
      else if not inserted
      then (fail queued, some database_failed)
      else (deliver_group a request msg g queued, none)

  unfoldable pub gorup_message_handle : ℕ → ℕ → Request → Sys S → Sys S × Option HandleError
  unfolding check_group
  gorup_message_handle now a request y = elim (sv.unmarshal_group request.body) [
    | none ↦ (y, some parse_failed)
    | some msg ↦
        if not (msg.sender == id_of a y)
        then (y, some sender_mismatch)
        else check_group a request (record msg { time = now % u32_mod }) y
  ]
