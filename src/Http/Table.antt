-- ===== src/Http/Table.antt =====
-- InitRouter of logic/router/router.go: every route with its controller.
use zqim.Prelude.{ℕ, true, false, some, List, [], ◌∷◌}
use zqim.Sql.{Gorm}
use zqim.Web.{Redis}
use zqim.Token.{Jwt, getuid}
use zqim.Users.{
  login, register, get_user_handler, checklogin, update_head_image_handler, firend_serach,
}
use zqim.Oss.{Packages, get_policy_token}
use zqim.Friends.Api.{
  add_friend, agree, refuse, delete_firend, firend_list_handler, notify_list_handler,
  notify_clear_handler,
}
use zqim.Groups.Api.{
  create_group_handler, quit_group_handler, delete_group_handler, get_group_handler,
  invitation_handler, get_members_handler, get_all_members_handler, removemembers_handler,
}
use zqim.Http.{
  get, post, Route, Gin, done, logged_in, user, users, notify_id, refused, group, members, uids,
  policy, Handler, writes, may_panic,
}

module _ {D R B : Type 0} (gin : Gin (Handler D R B) B) (gm : Gorm D) (rd : Redis R) (jwt : Jwt)
    (pk : Packages) (access_key_id access_key_secret : List ℕ) where
  abbrev login_c : Handler D R B
  login_c uid r w = may_panic logged_in (login gm jwt r.now (gin.login_input r.body) w)

  -- The routes of InitRouter, in order. /logout has the controller of /login.
  unfoldable pub routes : List (Route (Handler D R B))
  unfolding login register get_user_handler checklogin update_head_image_handler firend_serach
      get_policy_token add_friend agree refuse delete_firend firend_list_handler notify_list_handler
      notify_clear_handler create_group_handler quit_group_handler delete_group_handler
      get_group_handler invitation_handler get_members_handler get_all_members_handler
      removemembers_handler getuid
  routes =
      record { guarded = false; method = post; path = "/login"; handler = login_c }
      ∷ record {
        guarded = false;
        method = post;
        path = "/register";
        handler = λ uid r w. writes done (register gm (gin.register_parm r.body) w);
      }
      ∷ record { guarded = false; method = post; path = "/logout"; handler = login_c }
      ∷ record {
        guarded = false;
        method = get;
        path = "/user/get";
        handler = λ uid r w. some (w, user (get_user_handler gm (gin.uid_parm r.body) w));
      }
      ∷ record {
        guarded = false;
        method = get;
        path = "/getcurrent";
        handler =
            λ uid r w. some (w, policy (get_policy_token pk r.now access_key_id access_key_secret));
      }
      ∷ record {
        guarded = true;
        method = post;
        path = "/user/updateHeadImage";
        handler = λ uid r w.
            writes done (update_head_image_handler gm (getuid uid) (gin.head_image_parm r.body) w);
      }
      ∷ record {
        guarded = true;
        method = get;
        path = "/checklogin";
        handler = λ uid r w. may_panic logged_in (checklogin gm jwt r.now r.token (getuid uid) w);
      }
      ∷ record {
        guarded = true;
        method = get;
        path = "/notify/list";
        handler = λ uid r w.
            some (w, users (notify_list_handler gm rd (getuid uid) (gin.page_parm r.body) w));
      }
      ∷ record {
        guarded = true;
        method = post;
        path = "/notify/clear";
        handler = λ uid r w. writes done (notify_clear_handler gm rd (getuid uid) w);
      }
      ∷ record {
        guarded = true;
        method = post;
        path = "/friend/add";
        handler =
            λ uid r w. writes done (add_friend gm rd (getuid uid) (gin.add_friend_parm r.body) w);
      }
      ∷ record {
        guarded = true;
        method = post;
        path = "/friend/agree";
        handler = λ uid r w.
            may_panic notify_id (agree gm rd r.draw r.visit (getuid uid) (gin.agree_parm r.body) w);
      }
      ∷ record {
        guarded = true;
        method = post;
        path = "/friend/refuse";
        handler = λ uid r w. writes refused (refuse gm rd (getuid uid) (gin.agree_parm r.body) w);
      }
      ∷ record {
        guarded = true;
        method = post;
        path = "/friend/delete";
        handler =
            λ uid r w. writes done (delete_firend gm rd (getuid uid) (gin.friend_parm r.body) w);
      }
      ∷ record {
        guarded = true;
        method = get;
        path = "/friend/list";
        handler = λ uid r w. some (w, users (firend_list_handler gm rd (getuid uid) w));
      }
      ∷ record {
        guarded = false;
        method = get;
        path = "/friend/serach";
        handler = λ uid r w. some (w, users (firend_serach gm (gin.serach_parm r.body) w));
      }
      ∷ record {
        guarded = true;
        method = post;
        path = "/group/create";
        handler = λ uid r w.
            writes group
              (create_group_handler gm rd (getuid uid) (gin.create_group_param r.body) w);
      }
      ∷ record {
        guarded = true;
        method = post;
        path = "/group/quit";
        handler = λ uid r w.
            writes done (quit_group_handler gm rd (getuid uid) (gin.group_param r.body) w);
      }
      ∷ record {
        guarded = true;
        method = post;
        path = "/group/delete";
        handler = λ uid r w.
            writes done (delete_group_handler gm rd (getuid uid) (gin.group_param r.body) w);
      }
      ∷ record {
        guarded = true;
        method = get;
        path = "/group/get";
        handler = λ uid r w.
            some (w, group (get_group_handler gm rd (getuid uid) (gin.group_param r.body) w));
      }
      ∷ record {
        guarded = true;
        method = get;
        path = "/group/members";
        handler = λ uid r w.
            some (w, members (get_members_handler gm rd (getuid uid) (gin.members_parm r.body) w));
      }
      ∷ record {
        guarded = true;
        method = get;
        path = "/group/allmembers";
        handler = λ uid r w.
            some (w, uids (get_all_members_handler gm rd (getuid uid) (gin.group_param r.body) w));
      }
      ∷ record {
        guarded = true;
        method = post;
        path = "/group/invitation";
        handler = λ uid r w.
            writes done (invitation_handler gm rd (getuid uid) (gin.invitation_parm r.body) w);
      }
      ∷ record {
        guarded = true;
        method = post;
        path = "/group/remove";
        handler = λ uid r w.
            writes done (removemembers_handler gm rd (getuid uid) (gin.invitation_parm r.body) w);
      }
      ∷ []
