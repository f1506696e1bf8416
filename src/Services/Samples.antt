-- ===== src/Services/Samples.antt =====
-- A server with two users, over services that keep one cached set and encode messages as their
-- fields.
use zqim.Prelude.{ℕ, ◌+◌, Option, none, some, List, [], ◌∷◌, ◌++◌, Bool, true, false}
use zqim.Conn.{accept}
use zqim.Ack.{World}
use zqim.Services.{Services, Sys, OneMessage, GroupMessage}
use zqim.Cache.{contains}

abbrev pub one_of : List ℕ → Option OneMessage
one_of (k ∷ s ∷ r ∷ body) =
    some (record { rek = k; sender = s; receiver = r; msgbody = body; msgtype = 1; time = 0 })
one_of _ = none

abbrev pub group_of : List ℕ → Option GroupMessage
group_of (k ∷ s ∷ g ∷ body) =
    some (record { rek = k; sender = s; groupid = g; msgbody = body; msgtype = 1; time = 0 })
group_of _ = none

abbrev pub size : Option (List ℕ) → ℕ
size none = 0
size (some us) = 1

abbrev pub add : List ℕ → Option (List ℕ) → Option (List ℕ)
add vs none = some vs
add vs (some us) = some (us ++ vs)

abbrev pub has : ℕ → Option (List ℕ) → Bool
unfolding contains
has uid none = false
has uid (some us) = contains uid us

abbrev pub services : Services (Option (List ℕ))
services = record {
  unmarshal_one = one_of;
  marshal_one = λ m. some (m.rek ∷ m.sender ∷ m.receiver ∷ m.msgbody);
  unmarshal_group = group_of;
  marshal_group = λ m. some (m.rek ∷ m.sender ∷ m.groupid ∷ m.msgbody);
  unmarshal_ack = λ b. none;
  marshal_ack = λ r. some (r.rek ∷ r.msgtype ∷ r.status ∷ []);
  unmarshal_many = λ b. none;
  partial_reks = λ b. [];
  marshal_many = λ r. some r.reks;
  marshal_pull_one = λ ms. some [];
  marshal_pull_group = λ ms. some [];
  marshal_pull_notifie = λ ns. some [];
  marshal_notife = λ n. some n.fields;
  marshal_agree = λ n. some n.fields;
  unmarshal_token = λ b. some b;
  marshal_status = λ c. some (c ∷ []);
  valid_claims = λ t. true;
  uid_claim = λ t. some t;
  exists = λ k s. size s;
  smembers = λ k s. none;
  sadd = λ k vs s. (true, add vs s);
  sismember = λ k uid s. has uid s;
  get = λ k s. none;
  set = λ k v s. (true, s);
  del = λ k s. (true, s);
  json_user = λ u. none;
  unjson_user = λ v. none;
  select_friends = λ uid s. some (7 ∷ 8 ∷ []);
  select_group_users = λ gid s. some (7 ∷ 8 ∷ []);
  create_onemessage = λ m s. (true, s);
  create_message = λ m s. (true, s);
  create_notifie = λ n s. (true, s);
  list_onemessages = λ uid page size s. [];
  list_group_messages = λ uid page size s. [];
  list_notifies = λ uid s. record { id = 3; uid = uid; notifie_type = 12; body = 1 ∷ [] } ∷ [];
  delete_notifies = λ ids s. (true, some ids);
  exec = λ q s. (true, s);
  delete_onemessages = λ ks uid s. (true, s);
  delete_group_user_messages = λ ks uid s. (true, s);
  server_name = "srv";
  visit = λ m. m;
}

-- Users 7 and 8 are connected, by the connections at addresses 0 and 1; the cache is empty.
abbrev pub world : World
world = record {
  cons = (7, 0) ∷ (8, 1) ∷ [];
  conn = λ a. record accept { id = 7 + a; auth = true };
  msgheap = record {
    len = 0;
    at = λ i. 0;
    msg = λ p. record {
      body = [];
      msgid = 0;
      grop_or_one = 0;
      receiver = 0;
      timeout = 0;
      index = none;
      ntime = 0;
    };
  };
  push_ch = [];
  del_ch = [];
  next = 0;
}

abbrev pub server : Sys (Option (List ℕ))
server = record { world = world; comits = []; calls = []; store = none }
