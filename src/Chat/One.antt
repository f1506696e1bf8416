-- ===== src/Chat/One.antt =====
-- What OneMessageHandle does with a message, on every path through it.
use mathlib.Core.Path.{subst}
use zqim.Prelude.{
  ℕ, ◌≤◌, ◌%◌, List, length, ltb, ltb→le, ◌≡◌, ◌≢◌, refl, arith, Option, none, some, [], ◌∷◌, ◌++◌,
  true, ◌==◌, inl, inr, ==_iff, Bool-cases, Option-cases, nat_eq, string_eq, false,
}
use zqim.Prelude.Maps
use zqim.Frame.{Request, u32_mod}
use zqim.Conn.{write}
use zqim.Ack.{get_connect}
use zqim.Services.{Services, Sys, OneMessage, User, transfer, push_new, one_message, ack_success}
use zqim.Cache.{friend_check, get_user}
use zqim.Chat.{
  HandleError, message_error, id_mismatch, not_friend, save_failed, id_of, send_ack, relay_one,
  deliver_one, check_one, one_message_handle,
}

-- Nothing but the store and what connection `a` is sent has changed.
pub record IsQuiet {S : Type 0} (a : ℕ) (y y' : Sys S) : Type 0 where
  pub calls : y'.calls ≡ y.calls
  pub comits : y'.comits ≡ y.comits
  pub cons : y'.world.cons ≡ y.world.cons
  pub push_ch : y'.world.push_ch ≡ y.world.push_ch
  pub del_ch : y'.world.del_ch ≡ y.world.del_ch
  pub msgheap : y'.world.msgheap ≡ y.world.msgheap
  pub next : y'.world.next ≡ y.world.next
  pub others : (b : ℕ) → b ≢ a → y'.world.conn b ≡ y.world.conn b

pub IsQuiet-refl : {S : Type 0} (a : ℕ) (y : Sys S) → IsQuiet a y y
IsQuiet-refl a y = record {
  calls = refl;
  comits = refl;
  cons = refl;
  push_ch = refl;
  del_ch = refl;
  msgheap = refl;
  next = refl;
  others = λ b d. refl;
}

module _ {S : Type 0} (sv : Services S) where
  pub send_ack-IsQuiet :
      (a rek status msgtype : ℕ) (y : Sys S) (s : S)
      → IsQuiet a y (send_ack sv a rek status msgtype (record y { store = s }))
  unfolding send_ack
  send_ack-IsQuiet a rek status msgtype y s =
      elim (Option-cases
        (sv.marshal_ack (record { rek = rek; msgtype = msgtype; status = status }))) [
          | inl e ↦
              rw (e, send_ack)
                (record {
                  calls = refl;
                  comits = refl;
                  cons = refl;
                  push_ch = refl;
                  del_ch = refl;
                  msgheap = refl;
                  next = refl;
                  others = λ b d. refl;
                })
          | inr (buf, e) ↦
              rw (e, send_ack)
                (record {
                  calls = refl;
                  comits = refl;
                  cons = refl;
                  push_ch = refl;
                  del_ch = refl;
                  msgheap = refl;
                  next = refl;
                  others = λ b d. ground arith;
                })
        ]

  -- What the acks of a message on connection `a` come to: the ack is the last request in the
  -- channel of the connection, unless protobuf fails, the connection is closed or its ten places
  -- are taken.
  pub data IsAcked (a rek status msgtype : ℕ) (y y' : Sys S) : Type 0 where
    ack_written :
        (buf : List ℕ)
        → sv.marshal_ack (record { rek = rek; msgtype = msgtype; status = status }) ≡ some buf
        → (y.world.conn a).is_close ≡ false
        → (y'.world.conn a).write_chan
          ≡ (y.world.conn a).write_chan
            ++ record { typ = 4; body_len = length buf % u32_mod; flag = 0; body = buf } ∷ []
        → IsAcked a rek status msgtype y y'
    ack_closed : (y.world.conn a).is_close ≡ true → IsAcked a rek status msgtype y y'
    ack_blocked : 10 ≤ length (y.world.conn a).write_chan → IsAcked a rek status msgtype y y'
    ack_unmarshalled :
        sv.marshal_ack (record { rek = rek; msgtype = msgtype; status = status }) ≡ none
        → IsAcked a rek status msgtype y y'

  send_ack-IsAcked :
      (a rek status msgtype : ℕ) (y : Sys S) (s : S)
      → IsAcked a rek status msgtype y (send_ack sv a rek status msgtype (record y { store = s }))
  unfolding send_ack write
  send_ack-IsAcked a rek status msgtype y s =
      elim (Option-cases
        (sv.marshal_ack (record { rek = rek; msgtype = msgtype; status = status }))) [
          | inl e ↦ ack_unmarshalled e
          | inr (buf, e) ↦ elim (Bool-cases (y.world.conn a).is_close) [
            | inl c ↦ ack_closed c
            | inr c ↦ elim (Bool-cases (ltb (length (y.world.conn a).write_chan) 10)) [
              | inr f ↦ ack_blocked (ltb→le _ 10 f)
              | inl l ↦ ack_written buf e c (rw (e, send_ack) (ground (arith, c, l)))
            ]
          ]
        ]

  -- The message may be delivered: it is the sender's own, to a friend, and it is saved.
  pub record IsAllowed (a : ℕ) (request : Request) (y : Sys S) (msg : OneMessage) : Type 0 where
    pub decoded : sv.unmarshal_one request.body ≡ some msg
    pub own : msg.sender ≡ id_of sv a y
    pub friends : (friend_check sv msg.receiver msg.sender y.store).0 ≡ true
    pub saved :
        (sv.create_onemessage msg (friend_check sv msg.receiver msg.sender y.store).1).0 ≡ true

  -- The state once the sender has its ack.
  abbrev pub acked : ℕ → OneMessage → Sys S → Sys S
  acked a msg y =
      let s = (friend_check sv msg.receiver msg.sender y.store).1 in
      send_ack sv a msg.rek ack_success one_message
        (record y { store = (sv.create_onemessage msg s).1 })

  -- The three ways from there.
  pub data Delivered (request : Request) (msg : OneMessage) (y y' : Sys S) : Type 0 where
    queued :
        (b : ℕ)
        → get_connect msg.receiver y.world ≡ some b
        → y'.world.conn b ≡ (write (y.world.conn b) request).0
        → y'.world.push_ch ≡ y.world.push_ch ++ y.world.next ∷ []
        → (let m = y'.world.msgheap.msg y.world.next in
            (m.body ≡ request.body)
            × (m.msgid ≡ msg.rek)
            × (m.receiver ≡ msg.receiver)
            × (m.grop_or_one ≡ one_message))
        → y'.calls ≡ y.calls
        → Delivered request msg y y'
    relayed :
        (user : User) (server : ℕ)
        → get_connect msg.receiver y.world ≡ none
        → get_user sv msg.receiver y.store ≡ some user
        → Maps.lookup user.srvname y.comits ≡ some server
        → y'.calls ≡ y.calls ++ transfer server msg ∷ []
        → y'.world ≡ y.world
        → Delivered request msg y y'
    stored :
        get_connect msg.receiver y.world ≡ none
        → ((user : User)
            → get_user sv msg.receiver y.store ≡ some user
            → Maps.lookup user.srvname y.comits ≡ none)
        → y' ≡ y
        → Delivered request msg y y'

  deliver_one-Delivered :
      (request : Request) (msg : OneMessage) (y : Sys S)
      → Delivered request msg y (deliver_one sv request msg y)
  unfolding deliver_one relay_one push_new write
  deliver_one-Delivered request msg y = elim (Option-cases (get_connect msg.receiver y.world)) [
    | inr (b, e) ↦ here b e
    | inl e ↦ elim (Option-cases (get_user sv msg.receiver y.store)) [
      | inl f ↦ stored e (λ user g. ground arith) (rw (e, deliver_one) (rw (f, relay_one)))
      | inr (user, f) ↦ elim (Option-cases (Maps.lookup user.srvname y.comits)) [
        | inl g ↦ stored e (λ u k. ground arith) (rw (e, deliver_one) (rw (f, relay_one) (rw g)))
        | inr (server, g) ↦
            relayed user server e f g (rw (e, deliver_one) (rw (f, relay_one) (rw g)))
              (rw (e, deliver_one) (rw (f, relay_one) (rw g)))
      ]
    ]
  ]
    where
      here :
          (b : ℕ)
          → get_connect msg.receiver y.world ≡ some b
          → Delivered request msg y (deliver_one sv request msg y)
      here b e =
          rw (e, deliver_one)
            (queued b e (ground arith) refl (ground arith, ground arith, ground arith, ground arith)
              refl)

  -- OneMessageHandle, in all: a message that may be delivered gets its ack and goes one of the
  -- three ways; for any other the handler reports an error and nobody but the sender is sent
  -- anything.
  pub data Handled (a : ℕ) (request : Request) (y : Sys S) (r : Sys S × Option HandleError)
      : Type 0 where
    handled :
        (msg : OneMessage)
        → IsAllowed a request y msg
        → r.1 ≡ none
        → IsQuiet a y (acked a msg y)
        → IsAcked a msg.rek 0 2 y (acked a msg y)
        → Delivered request msg (acked a msg y) r.0
        → Handled a request y r
    rejected :
        (e : HandleError)
        → ((msg : OneMessage) → ¬ IsAllowed a request y msg)
        → r.1 ≡ some e
        → IsQuiet a y r.0
        → Handled a request y r

  IsAllowed-same :
      (a : ℕ) (request : Request) (y : Sys S) (msg m : OneMessage)
      → sv.unmarshal_one request.body ≡ some msg
      → IsAllowed a request y m
      → IsAllowed a request y msg
  IsAllowed-same a request y msg m d h =
      let e : m ≡ msg = ground (arith, h.decoded) in subst (IsAllowed a request y) e h

  check_one-Handled :
      (a : ℕ) (request : Request) (msg : OneMessage) (y : Sys S)
      → sv.unmarshal_one request.body ≡ some msg
      → msg.sender ≡ id_of sv a y
      → Handled a request y (check_one sv a request msg y)
  unfolding check_one
  check_one-Handled a request msg y d o =
      elim (Bool-cases (friend_check sv msg.receiver msg.sender y.store).0) [
        | inr f ↦
            rw (f, check_one)
              (rejected not_friend
                (λ m h. let k = IsAllowed-same a request y msg m d h in ground (arith, k.friends))
                refl (send_ack-IsQuiet a msg.rek 1 3 y _))
        | inl f ↦
            elim (Bool-cases
              (sv.create_onemessage msg (friend_check sv msg.receiver msg.sender y.store).1).0) [
                | inr g ↦
                    rw (f, check_one)
                      (rw g (
                        rejected save_failed
                          (λ m h.
                            let k = IsAllowed-same a request y msg m d h in ground (arith, k.saved))
                          refl (send_ack-IsQuiet a msg.rek 1 2 y _)))
                | inl g ↦
                    rw (f, check_one)
                      (rw g (
                        handled msg (record { decoded = d; own = o; friends = f; saved = g }) refl
                          (send_ack-IsQuiet a msg.rek ack_success one_message y _)
                          (send_ack-IsAcked a msg.rek ack_success one_message y _)
                          (deliver_one-Delivered request msg _)))
              ]
      ]

  -- Every request that OneMessageHandle gets: either it carries a message of the sender to a friend
  -- which is saved, then an ack of success is written to the sender's connection, unless protobuf
  -- fails or the connection is closed or full, and the message is queued for the resending and
  -- written to the receiver's connection, or else relayed to the receiver's server, or else only
  -- stored; or the handler reports an error, and only the store and the sender's connection
  -- changed.
  pub one_message_handle-Handled :
      (a : ℕ) (request : Request) (y : Sys S)
      → Handled a request y (one_message_handle sv a request y)
  unfolding one_message_handle
  one_message_handle-Handled a request y = elim (Option-cases (sv.unmarshal_one request.body)) [
    | inl e ↦
        rw (e, one_message_handle)
          (rejected message_error (λ m h. ground (arith, h.decoded)) refl (IsQuiet-refl a y))
    | inr (msg, e) ↦ elim (Bool-cases (msg.sender == id_of sv a y)) [
      | inr f ↦
          rw (e, one_message_handle)
            (rw f (
              rejected id_mismatch
                (λ m h. let k = IsAllowed-same a request y msg m e h in ground (arith, k.own)) refl
                (IsQuiet-refl a y)))
      | inl f ↦
          rw (e, one_message_handle)
            (rw f (check_one-Handled a request msg y e ((==_iff msg.sender _).0 f)))
    ]
  ]
