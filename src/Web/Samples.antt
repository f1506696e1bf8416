-- ===== src/Web/Samples.antt =====
-- A database of lists and a cache of one set, shared by a web server and a connection server.
use zqim.Prelude.{ℕ, ◌<◌, ◌≡◌, refl, arith, true, Option, none, some, List, [], ◌∷◌}
use zqim.Services.{Services, Key}
use zqim.Services.Samples.{size, add, has}
use zqim.Cache.{contains}
use zqim.Sql.Samples.{gorm, Tables}
use zqim.Web.{Redis}
use zqim.Modle.{get_friends, get_groupchat_user, unless_failed}
use zqim.Web.Shared.{IsShared}

abbrev pub Cache : Type 0
Cache = Option (List ℕ)

abbrev pub redis : Redis Cache
redis = record {
  get = λ k r. none;
  del = λ k r. some none;
  unjson_user = λ b. record { uid = 0; srvname = "" };
}

-- The services of a connection server over that database and that cache.
abbrev pub shared_services : Services (Tables × Cache)
shared_services = record {
  unmarshal_one = λ b. none;
  marshal_one = λ m. some (m.rek ∷ m.sender ∷ m.receiver ∷ m.msgbody);
  unmarshal_group = λ b. none;
  marshal_group = λ m. some (m.rek ∷ m.sender ∷ m.groupid ∷ m.msgbody);
  unmarshal_ack = λ b. none;
  marshal_ack = λ r. some (r.rek ∷ r.msgtype ∷ r.status ∷ []);
  unmarshal_many = λ b. none;
  partial_reks = λ b. [];
  marshal_many = λ r. some r.reks;
  marshal_pull_one = λ ms. some [];
  marshal_pull_group = λ ms. some [];
  marshal_pull_notifie = λ ns. some [];
  marshal_notife = λ n. some n.fields;
  marshal_agree = λ n. some n.fields;
  unmarshal_token = λ b. some b;
  marshal_status = λ c. some (c ∷ []);
  valid_claims = λ t. true;
  uid_claim = λ t. some t;
  exists = λ k s. size s.1;
  smembers = λ k s. none;
  sadd = λ k vs s. (true, (s.0, add vs s.1));
  sismember = λ k uid s. has uid s.1;
  get = λ k s. none;
  set = λ k v s. (true, s);
  del = λ k s. (true, s);
  json_user = λ u. none;
  unjson_user = λ v. none;
  select_friends = λ uid s. unless_failed (get_friends gorm uid s.0);
  select_group_users = λ gid s. unless_failed (get_groupchat_user gorm gid s.0);
  create_onemessage = λ m s. (true, s);
  create_message = λ m s. (true, s);
  create_notifie = λ n s. (true, s);
  list_onemessages = λ uid page size s. [];
  list_group_messages = λ uid page size s. [];
  list_notifies = λ uid s. record { id = 3; uid = uid; notifie_type = 12; body = 1 ∷ [] } ∷ [];
  delete_notifies = λ ids s. (true, s);
  exec = λ q s. (true, s);
  delete_onemessages = λ ks uid s. (true, s);
  delete_group_user_messages = λ ks uid s. (true, s);
  server_name = "srv";
  visit = λ m. m;
}

new :
    (k : Key) (vs : List ℕ) (d : Tables) (r : Cache) (uid : ℕ)
    → shared_services.exists k (d, r) < 1
    → shared_services.sismember k uid (shared_services.sadd k vs (d, r)).1 ≡ contains uid vs
unfolding contains
new k vs d none uid l = refl
new k vs d (some us) uid l = absurd (omega arith)

abbrev or_none : Option Cache → Cache
or_none none = none
or_none (some r) = r

emptied : (r' : Cache) → some none ≡ some r' → size r' < 1
emptied none e = omega arith
emptied (some us) e = absurd (ground (arith, e))

filled : (vs : List ℕ) (r : Cache) → 0 < size (add vs r)
filled vs none = omega arith
filled vs (some us) = omega arith

pub shared : IsShared shared_services gorm redis
shared = record {
  read = λ uid d r. refl;
  read_groups = λ gid d r. refl;
  exists_apart = λ k d d' r. refl;
  sismember_apart = λ k u d d' r. refl;
  db_apart = λ k vs d r. refl;
  added = λ k vs s uid l g. new k vs s.0 s.1 uid l;
  deleted = λ k r r' d e. emptied r' e;
  still_deleted = λ j k r r' d e l. emptied r' e;
  filled = λ k vs d r l g. filled vs r;
}
