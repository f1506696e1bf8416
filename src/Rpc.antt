-- ===== src/Rpc.antt =====
-- comit/grpcserver/server.go: what a server does with the messages that another one relays to it.
-- Every method answers without an error.
pub mod Relay
pub mod Resend
mod Tests
use zqim.Prelude.{ℕ, Option, none, some, List, [], ◌∷◌}
use zqim.Frame.{Request}
use zqim.Ack.{World, get_connect}
use zqim.Services.{
  Services, Sys, OneMessage, GroupMessage, FriendNotife, AgreeNotife, Notifie, with_world, write_to,
  push_new, request_of, one_message, gorup_message, friend_notife, friend_agree,
}

-- The loop of Grouptranfer. It leaves GropOrOne at 0, and returns at the first receiver that is not
-- connected here.
unfoldable pub tranfer_loop : List ℕ → ℕ → List ℕ → World → World
unfolding get_connect push_new
tranfer_loop buf rek [] w = w
tranfer_loop buf rek (v ∷ vs) w = elim (get_connect v w) [
  | none ↦ w
  | some b ↦
      tranfer_loop buf rek vs (write_to b (request_of gorup_message buf) (push_new buf v rek 0 w))
]

module _ {S : Type 0} (sv : Services S) where
  unfoldable pub transfer : OneMessage → Sys S → Sys S
  unfolding get_connect push_new
  transfer msg y = elim (get_connect msg.receiver y.world) [
    | none ↦ y
    | some b ↦ elim (sv.marshal_one msg) [
      | none ↦ y
      | some buf ↦
          let sent = with_world (write_to b (request_of one_message buf)) y in
          with_world (λ w. push_new buf (w.conn b).id msg.rek one_message w) sent
    ]
  ]

  unfoldable pub grouptranfer : GroupMessage → List ℕ → Sys S → Sys S
  unfolding tranfer_loop
  grouptranfer msg receivers y = elim (sv.marshal_group msg) [
    | none ↦ y
    | some buf ↦ with_world (tranfer_loop buf msg.rek receivers) y
  ]

  unfoldable pub friend_notify : FriendNotife → Sys S → Sys S
  unfolding get_connect
  friend_notify msg y = elim (get_connect msg.receiver y.world) [
    | none ↦ y
    | some b ↦ elim (sv.marshal_notife msg) [
      | none ↦ y
      | some buf ↦ with_world (write_to b (request_of friend_notife buf)) y
    ]
  ]

  -- Agree: the notification is kept for a user who is not connected here.
  unfoldable pub agree : AgreeNotife → Sys S → Sys S
  unfolding get_connect
  agree notife y = elim (sv.marshal_agree notife) [
    | none ↦ y
    | some buf ↦ elim (get_connect notife.uid y.world) [
      | some b ↦ with_world (write_to b (request_of friend_agree buf)) y
      | none ↦
          let row : Notifie = record {
            id = 0;
            uid = notife.uid;
            notifie_type = friend_agree;
            body = buf;
          } in
          record y { store = (sv.create_notifie row y.store).1 }
    ]
  ]
