-- ===== src/Web/Shared.antt =====
-- What the web server and the connection servers share.
use zqim.Prelude.{ℕ, ◌<◌, ◌≡◌, true, ◌∙◌, some, List, length}
use zqim.Services.{Services, Key}
use zqim.Cache.{contains}
use zqim.Sql.{Table, Row, friends, groupchat_users, Gorm}
use zqim.Sql.Laws.{IsSql}
use zqim.Modle.{friends_query, users_query, get_friends, get_groupchat_user, unless_failed}
use zqim.Modle.Read.{friends_of, users_of, get_friends-friends_of, get_groupchat_user-users_of}
use zqim.Web.{Redis}

-- What the two servers share: MySQL's friends and members, and redis's sets. `D` and `R` are the
-- states of the two.
pub record IsShared {D R : Type 0} (sv : Services (D × R)) (gm : Gorm D) (rd : Redis R)
    : Type 0 where
  -- the services query the tables of the web server
  pub read :
      (uid : ℕ) (d : D) (r : R)
      → sv.select_friends uid (d, r) ≡ unless_failed (get_friends gm uid d)
  pub read_groups :
      (gid : ℕ) (d : D) (r : R)
      → sv.select_group_users gid (d, r) ≡ unless_failed (get_groupchat_user gm gid d)
  -- redis does not look at the database, nor does a write to it change the database
  pub exists_apart : (k : Key) (d d' : D) (r : R) → sv.exists k (d, r) ≡ sv.exists k (d', r)
  pub sismember_apart :
      (k : Key) (u : ℕ) (d d' : D) (r : R) → sv.sismember k u (d, r) ≡ sv.sismember k u (d', r)
  pub db_apart : (k : Key) (vs : List ℕ) (d : D) (r : R) → (sv.sadd k vs (d, r)).1.0 ≡ d
  -- a set that did not exist has exactly the members that an SAdd adds that does not fail
  pub added :
      (k : Key) (vs : List ℕ) (s : D × R) (uid : ℕ)
      → sv.exists k s < 1
      → (sv.sadd k vs s).0 ≡ true
      → sv.sismember k uid (sv.sadd k vs s).1 ≡ contains uid vs
  -- Del deletes a key and makes none; SAdd of a member that does not fail makes the key
  pub deleted : (k : Key) (r r' : R) (d : D) → rd.del k r ≡ some r' → sv.exists k (d, r') < 1
  pub still_deleted :
      (j k : Key) (r r' : R) (d : D)
      → rd.del k r ≡ some r'
      → sv.exists j (d, r) < 1
      → sv.exists j (d, r') < 1
  pub filled :
      (k : Key) (vs : List ℕ) (d : D) (r : R)
      → 0 < length vs
      → (sv.sadd k vs (d, r)).0 ≡ true
      → 0 < sv.exists k (sv.sadd k vs (d, r)).1

module _ {D R : Type 0} (sv : Services (D × R)) (gm : Gorm D) (rd : Redis R)
    (rows : Table → D → List Row) (sql : IsSql gm rows) (shared : IsShared sv gm rd) (d : D)
    (r : R) where
  pub select_friends-friends_of :
      (uid : ℕ)
      → (gm.scan (friends_query uid) d).1 ≡ true
      → sv.select_friends uid (d, r) ≡ some (friends_of uid (rows friends d))
  select_friends-friends_of uid answered =
      shared.read uid d r ∙ get_friends-friends_of gm rows sql d uid answered

  pub select_group_users-users_of :
      (gid : ℕ)
      → (gm.scan (users_query gid) d).1 ≡ true
      → sv.select_group_users gid (d, r) ≡ some (users_of gid (rows groupchat_users d))
  select_group_users-users_of gid answered =
      shared.read_groups gid d r ∙ get_groupchat_user-users_of gm rows sql d gid answered
