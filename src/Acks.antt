-- ===== src/Acks.antt =====
-- The handlers of comit/handles/chathandle.go for acks of messages and for messages that a client
-- has read: they take the messages out of the queues.
use zqim.Prelude.{ℕ, none, some, List, [], ◌∷◌, Bool, ◌==◌, if◌then◌else◌}
use zqim.Frame.{Request}
use zqim.Ack.{send_delete}
use zqim.Services.{Services, Sys, with_world, write_to, request_of, ack_many_message}
use zqim.Chat.{id_of}

module _ {S : Type 0} (sv : Services S) where
  -- Errors of the database are ignored.
  abbrev delete_onemessage : ℕ → ℕ → Sys S → Sys S
  delete_onemessage rek uid y = record y {
    store = (sv.delete_onemessages (rek ∷ []) uid y.store).1;
  }

  abbrev delete_group_user_message : ℕ → ℕ → Sys S → Sys S
  delete_group_user_message rek uid y = record y {
    store = (sv.delete_group_user_messages (rek ∷ []) uid y.store).1;
  }

  -- AckMesageHandle never reports an error.
  unfoldable pub ack_mesage_handle : ℕ → Request → Sys S → Sys S
  ack_mesage_handle a request y = elim (sv.unmarshal_ack request.body) [
    | none ↦ y
    | some ack ↦
        let uid = id_of sv a y in
        let y₁ = with_world (send_delete ack.rek uid) y in
        if ack.msgtype == 1
        then delete_onemessage ack.rek uid y₁
        else if ack.msgtype == 2
        then delete_group_user_message ack.rek uid y₁
        else y₁
  ]

  unfoldable pub send_ack_many : ℕ → List ℕ → ℕ → Sys S → Sys S
  send_ack_many a reks status y = elim (sv.marshal_many (record { reks = reks; status = status })) [
    | none ↦ y
    | some buf ↦ with_world (write_to a (request_of ack_many_message buf)) y
  ]

  -- DeleteManyHandle
  unfoldable pub delete_many_handle : ℕ → Request → Sys S → Sys S
  unfolding send_ack_many
  delete_many_handle a request y = elim (sv.unmarshal_many request.body) [
    | none ↦ send_ack_many a (sv.partial_reks request.body) 1 y
    | some many ↦
        let uid = id_of sv a y in
        let (ok₁, s₁) = sv.delete_onemessages many.reks uid y.store in
        let (ok₂, s₂) = sv.delete_group_user_messages many.reks uid y.store in
        let reply : Bool → Sys S → Sys S =
          λ ok y'. if ok then send_ack_many a many.reks 1 y' else send_ack_many a many.reks 0 y' in
        if many.msgtype == 1
        then reply ok₁ (record y { store = s₁ })
        else if many.msgtype == 2
        then reply ok₂ (record y { store = s₂ })
        else send_ack_many a many.reks 1 y
  ]
