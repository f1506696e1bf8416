-- ===== src/Services.antt =====
-- What the handlers of the connection server share: comit/config/config.go's codes, the messages of
-- comit/proto, the state of a server, and the services that they call: protobuf, redis, the
-- databases and jwt, which are parameters. Strings that only protobuf and the databases look into
-- are lists of bytes.
pub mod Samples
use Prim.Native.String.{String}
use zqim.Prelude.{ℕ, ◌+◌, ◌%◌, Bool, Option, some, List, [], ◌∷◌, ◌++◌, length, string_eq}
use zqim.Prelude.Maps
use zqim.Frame.{Request, u32_mod}
use zqim.Conn.{Connect, write}
use zqim.Heap.{AckMessage}
use zqim.Ack.{World, on_conn, set_message, send_push}

abbrev pub auth : ℕ
auth = 1

abbrev pub one_message : ℕ
one_message = 2

abbrev pub gorup_message : ℕ
gorup_message = 3

abbrev pub ack_mesage : ℕ
ack_mesage = 4

abbrev pub ack_many_message : ℕ
ack_many_message = 5

abbrev pub ping : ℕ
ping = 6

abbrev pub pull_one_message : ℕ
pull_one_message = 7

abbrev pub pull_gorup_message : ℕ
pull_gorup_message = 8

abbrev pub pull_notifie : ℕ
pull_notifie = 9

abbrev pub delete_many_mesage : ℕ
delete_many_mesage = 10

abbrev pub friend_notife : ℕ
friend_notife = 11

abbrev pub friend_agree : ℕ
friend_agree = 12

abbrev pub auth_success : ℕ
auth_success = 0

abbrev pub token_overtime : ℕ
token_overtime = 2

abbrev pub auth_othe : ℕ
auth_othe = 3

abbrev pub messag_error : ℕ
messag_error = 4

abbrev pub ack_success : ℕ
ack_success = 0

abbrev pub ack_save_fail : ℕ
ack_save_fail = 1

-- The messages of intercom.proto and message.proto; the rows of the tables onemessages and messages
-- have the fields of the first two.
pub record OneMessage : Type 0 where
  pub rek : ℕ
  pub sender : ℕ
  pub receiver : ℕ
  pub msgbody : List ℕ
  pub msgtype : ℕ
  pub time : ℕ

pub record GroupMessage : Type 0 where
  pub rek : ℕ
  pub sender : ℕ
  pub groupid : ℕ
  pub msgbody : List ℕ
  pub msgtype : ℕ
  pub time : ℕ

-- The message AckMessage of the protocol, and the one for many messages.
pub record AckReply : Type 0 where
  pub rek : ℕ
  pub msgtype : ℕ
  pub status : ℕ

pub record ManyReply : Type 0 where
  pub reks : List ℕ
  pub status : ℕ

pub record DeleteMany : Type 0 where
  pub reks : List ℕ
  pub msgtype : ℕ

pub record FriendNotife : Type 0 where
  pub receiver : ℕ
  pub fields : List ℕ

pub record AgreeNotife : Type 0 where
  pub uid : ℕ
  pub fields : List ℕ

-- A row of group_user_messages, and of notifies.
pub record GroupUserMessage : Type 0 where
  pub rek : ℕ
  pub receiver : ℕ

pub record Notifie : Type 0 where
  pub id : ℕ
  pub uid : ℕ
  pub notifie_type : ℕ
  pub body : List ℕ

-- rediscache.User, and the keys: `userid:`, `friends:` and `groupid:` before a decimal number.
pub record User : Type 0 where
  pub uid : ℕ
  pub srvname : String

pub data Key : Type 0 where
  userid_key friends_key groupid_key : ℕ → Key

-- The text of an SQL statement, in the pieces that it is put together from.
pub data Piece : Type 0 where
  text : String → Piece
  number : ℕ → Piece

-- The services over a store of type `S`, which stands for redis and the two databases. An operation
-- that can fail says whether it went well; a query that fails is `none`. `partial_reks` is what a
-- failed Unmarshal has left in Reks.
pub record Services (S : Type 0) : Type 0 where
  pub unmarshal_one : List ℕ → Option OneMessage
  pub marshal_one : OneMessage → Option (List ℕ)
  pub unmarshal_group : List ℕ → Option GroupMessage
  pub marshal_group : GroupMessage → Option (List ℕ)
  pub unmarshal_ack : List ℕ → Option AckReply
  pub marshal_ack : AckReply → Option (List ℕ)
  pub unmarshal_many : List ℕ → Option DeleteMany
  pub partial_reks : List ℕ → List ℕ
  pub marshal_many : ManyReply → Option (List ℕ)
  pub marshal_pull_one : List OneMessage → Option (List ℕ)
  pub marshal_pull_group : List GroupMessage → Option (List ℕ)
  pub marshal_pull_notifie : List (ℕ × List ℕ) → Option (List ℕ)
  pub marshal_notife : FriendNotife → Option (List ℕ)
  pub marshal_agree : AgreeNotife → Option (List ℕ)
  -- the token of an AuthMessage, and the reply's status
  pub unmarshal_token : List ℕ → Option (List ℕ)
  pub marshal_status : ℕ → Option (List ℕ)
  -- jwt: whether the token's claims are in order, and their `uid` if it is a string
  pub valid_claims : List ℕ → Bool
  pub uid_claim : List ℕ → Option (List ℕ)
  -- redis
  pub exists : Key → S → ℕ
  pub smembers : Key → S → Option (List (List ℕ))
  pub sadd : Key → List ℕ → S → Bool × S
  pub sismember : Key → ℕ → S → Bool
  pub get : Key → S → Option (List ℕ)
  pub set : Key → List ℕ → S → Bool × S
  pub del : Key → S → Bool × S
  pub json_user : User → Option (List ℕ)
  pub unjson_user : List ℕ → Option User
  -- the databases
  pub select_friends : ℕ → S → Option (List ℕ)
  pub select_group_users : ℕ → S → Option (List ℕ)
  pub create_onemessage : OneMessage → S → Bool × S
  pub create_message : GroupMessage → S → Bool × S
  pub create_notifie : Notifie → S → Bool × S
  pub list_onemessages : ℕ → ℕ → ℕ → S → List OneMessage
  pub list_group_messages : ℕ → ℕ → ℕ → S → List GroupMessage
  pub list_notifies : ℕ → S → List Notifie
  pub delete_notifies : List ℕ → S → Bool × S
  pub exec : List Piece → S → Bool × S
  pub delete_onemessages : List ℕ → ℕ → S → Bool × S
  pub delete_group_user_messages : List ℕ → ℕ → S → Bool × S
  -- config.ServerName, and the order in which a loop visits a map
  pub server_name : String
  pub visit : List (String × List ℕ) → List (String × List ℕ)

-- A call of another connection server.
pub data Call : Type 0 where
  transfer : ℕ → OneMessage → Call
  grouptranfer : ℕ → GroupMessage → List ℕ → Call

-- The state of a server: its connections and messages, ComitManages.comits (the servers are behind
-- addresses), the calls made so far, and the store.
pub record Sys (S : Type 0) : Type 0 where
  pub world : World
  pub comits : List (String × ℕ)
  pub calls : List Call
  pub store : S

module _ {S : Type 0} where
  abbrev pub with_world : (World → World) → Sys S → Sys S
  with_world f y = record y { world = f y.world }

  abbrev pub call : Call → Sys S → Sys S
  call c y = record y { calls = y.calls ++ c ∷ [] }

  abbrev pub get_comit_server : String → Sys S → Option ℕ
  get_comit_server name y = Maps.lookup name y.comits

-- `con.Write(request)` of a caller that ignores the error.
abbrev pub write_to : ℕ → Request → World → World
write_to a r w = on_conn a (λ c. (write c r).0) w

-- `AckMange.Push(&manage.AckMessage{...})`: a new message, at the next address.
unfoldable pub push_new : List ℕ → ℕ → ℕ → ℕ → World → World
push_new body receiver msgid grop_or_one w =
    let m : AckMessage = record {
      body = body;
      msgid = msgid;
      grop_or_one = grop_or_one;
      receiver = receiver;
      timeout = 0;
      index = some 0;
      ntime = 0;
    } in
    send_push w.next (record (set_message w.next m w) { next = w.next + 1 })

abbrev pub request_of : ℕ → List ℕ → Request
request_of typ buf = record { typ = typ; body_len = length buf % u32_mod; flag = 0; body = buf }
