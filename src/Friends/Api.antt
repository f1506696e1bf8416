-- ===== src/Friends/Api.antt =====
-- logic/controller/friendController.go. A handler gets the user id of the token and what ShouldBind
-- made of the request, which is `none` when it reports an error.
use Prim.Native.String.{String}
use zqim.Prelude.{
  ℕ, Bool, true, false, Option, none, some, List, [], ◌∷◌, ◌==◌, if◌then◌else◌, string_eq,
}
use zqim.Balance.{get_comit_server, rand_comit_server}
use zqim.Sql.{Row, Gorm}
use zqim.Web.{
  Web, Redis, Call, FriendNotife, friend_notify, friend_agree, Response, response_error,
  response_success, db_error, call, get_user_from_redis,
}
use zqim.Friends.{
  friend_add, friend_delete, firend_query, notify_query, firend_list, notify_create, notify_first,
  notify_update_status, notify_list, notify_clear,
}

pub record AddFriendParm : Type 0 where
  pub friend_id : ℕ
  pub greet : List ℕ

module _ {D R : Type 0} (gm : Gorm D) (rd : Redis R) where
  abbrev to_server : (ℕ → Call) → Option ℕ → Web D R → Web D R
  to_server c none w = w
  to_server c (some server) w = call (c server) w

  -- The end of AddFriend: a friend who is online is told.
  unfoldable pub tell_friend : FriendNotife → Web D R → Web D R
  unfolding get_user_from_redis
  tell_friend notife w =
      let user = get_user_from_redis rd notife.receiver w in
      if user.uid == 0
      then w
      else to_server (λ server. friend_notify server notife)
          (get_comit_server user.srvname w.comits) w

  abbrev created : ℕ → AddFriendParm → Option (ℕ × D) → Web D R → Web D R × Response (Unit {0})
  created uid parm none w = (w, db_error)
  created uid parm (some (nid, d)) w = (
    tell_friend (record { greet = parm.greet; nid = nid; uid = uid; receiver = parm.friend_id })
        (record w { db = d }),
    response_success tt,
  )

  unfoldable pub add_friend : ℕ → Option AddFriendParm → Web D R → Web D R × Response (Unit {0})
  unfolding tell_friend firend_query notify_query notify_create
  add_friend uid none w = (w, response_error 500)
  add_friend uid (some parm) w =
      if uid == parm.friend_id
      then (w, response_error 20002)
      else if firend_query gm uid parm.friend_id w.db
      then (w, response_error 20003)
      else if notify_query gm uid parm.friend_id w.db
      then (w, response_error 20004)
      else created uid parm (notify_create gm uid parm.friend_id parm.greet w.db) w

  -- The end of Agree: the asker's server is told, or any server. `draw` is what RandComitServer's
  -- Intn gives, and `visit` the order in which its loop goes through the table; `none` is the panic
  -- of Intn on an empty table.
  abbrev told : FriendNotife → Option ℕ → Web D R → Option (Web D R)
  told notife none w = none
  told notife (some server) w = some (call (friend_agree server notife) w)

  unfoldable pub tell_asker :
      ℕ → (List (String × ℕ) → List (String × ℕ)) → FriendNotife → Web D R → Option (Web D R)
  unfolding get_user_from_redis rand_comit_server
  tell_asker draw visit notife w =
      let user = get_user_from_redis rd notife.uid w in
      let any = told notife (rand_comit_server draw (visit w.comits.comits)) w in
      if user.uid == 0 then some w else elim (get_comit_server user.srvname w.comits) [
        | some server ↦ told notife (some server) w
        | none ↦ any
      ]

  abbrev agreed : ℕ → Option (Web D R) → Option (Web D R × Response ℕ)
  agreed nid none = none
  agreed nid (some w) = some (w, response_success nid)

  unfoldable pub agree :
      ℕ
      → (List (String × ℕ) → List (String × ℕ))
      → ℕ
      → Option ℕ
      → Web D R
      → Option (Web D R × Response ℕ)
  unfolding tell_asker friend_add notify_first
  agree draw visit uid none w = some (w, response_error 500)
  agree draw visit uid (some notify_id) w = elim (notify_first gm uid notify_id 1 w.db) [
    | none ↦ some (w, response_error 20004)
    | some n ↦
        let (w', ok) = friend_add gm rd n.sender n.receive n.id w in
        let notife : FriendNotife = record {
          greet = n.greet;
          nid = n.id;
          uid = n.sender;
          receiver = n.receive;
        } in
        if n.id == 0 then some (w, response_error 20004) else elim ok [
          | false ↦ some (w', db_error)
          | true ↦ agreed n.id (tell_asker draw visit notife w')
        ]
  ]

  abbrev refused : ℕ → Option D → Web D R → Web D R × Response ℕ
  refused nid none w = (w, db_error)
  refused nid (some d) w = (record w { db = d }, response_success nid)

  refuse_notify : ℕ → ℕ → Web D R → Web D R × Response ℕ
  unfolding notify_first notify_update_status
  refuse_notify uid notify_id w = elim (notify_first gm uid notify_id 1 w.db) [
    | none ↦ (w, response_error 20004)
    | some n ↦
        if n.id == 0
        then (w, response_error 20004)
        else refused n.id (notify_update_status gm n.id 3 w.db) w
  ]

  -- Refuse does not return when ShouldBind fails: it goes on with the id 0, and answers twice.
  unfoldable pub refuse : ℕ → Option ℕ → Web D R → Web D R × List (Response ℕ)
  unfolding refuse_notify
  refuse uid none w =
      let (w', answer) = refuse_notify uid 0 w in (w', response_error 500 ∷ answer ∷ [])
  refuse uid (some notify_id) w =
      let (w', answer) = refuse_notify uid notify_id w in (w', answer ∷ [])

  abbrev done_or_db_error : Web D R × Bool → Web D R × Response (Unit {0})
  done_or_db_error (w, false) = (w, db_error)
  done_or_db_error (w, true) = (w, response_success tt)

  unfoldable pub delete_firend : ℕ → Option ℕ → Web D R → Web D R × Response (Unit {0})
  unfolding friend_delete
  delete_firend uid none w = (w, response_error 500)
  delete_firend uid (some friend_id) w = done_or_db_error (friend_delete gm rd uid friend_id w)

  unfoldable pub firend_list_handler : ℕ → Web D R → Response (List Row)
  firend_list_handler uid w = response_success (firend_list gm uid w.db)

  unfoldable pub notify_list_handler : ℕ → Option ℕ → Web D R → Response (List Row)
  notify_list_handler uid none w = response_error 500
  notify_list_handler uid (some page) w = response_success (notify_list gm uid page w.db)

  unfoldable pub notify_clear_handler : ℕ → Web D R → Web D R × Response (Unit {0})
  notify_clear_handler uid w = elim (notify_clear gm uid w.db) [
    | none ↦ (w, db_error)
    | some d ↦ (record w { db = d }, response_success tt)
  ]
