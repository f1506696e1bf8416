-- ===== src/Friends.antt =====
-- logic/models/friend.go and notify.go: friendships and the requests for them.
pub mod Api
pub mod Outcome
pub mod Check
pub mod Stale
mod Tests
use Prim.Native.String.{String}
use zqim.Prelude.{
  ℕ, ◌+◌, ◌-◌, ◌*◌, ◌%◌, Bool, true, false, not, Option, none, some, List, [], ◌∷◌, ◌==◌,
}
use zqim.Frame.{u32_mod}
use zqim.Sql.{
  Table, friends, notifies, Value, num, txt, Row, Cond, eq, Query, where_all, Found, found,
  record_not_found, failed, Gorm, num_of, txt_of,
}
use zqim.Web.{Web, Redis, begin, commit, friend_delete_key}

abbrev pub friend_row : ℕ → ℕ → Row
friend_row uid friendid = ("userid", num uid) ∷ ("friendid", num friendid) ∷ []

-- The fields of Notify that the handlers read.
pub record Notify : Type 0 where
  pub id : ℕ
  pub sender : ℕ
  pub receive : ℕ
  pub greet : List ℕ
  pub status : ℕ

abbrev pub notify_of : Row → Notify
notify_of row = record {
  id = num_of "id" row;
  sender = num_of "sender" row;
  receive = num_of "receive" row;
  greet = txt_of "greet" row;
  status = num_of "status" row;
}

-- `20` rows from `(page-1)*20` on, in uint32.
abbrev pub page_of : Query → ℕ → Query
page_of q page = record q { limit = some 20; offset = some ((page + u32_mod - 1) * 20 % u32_mod) }

module _ {D : Type 0} (gm : Gorm D) where
  -- The three statements of FriendAdd's transaction.
  unfoldable pub friend_rows : ℕ → ℕ → ℕ → D → Option D
  friend_rows uid friendid nid d = elim (gm.create friends (friend_row uid friendid) d) [
    | none ↦ none
    | some (i, d₁) ↦ elim (gm.create friends (friend_row friendid uid) d₁) [
      | none ↦ none
      | some (j, d₂) ↦ gm.update (where_all notifies (eq "id" (num nid) ∷ [])) "status" (num 2) d₂
    ]
  ]

module _ {R : Type 0} (rd : Redis R) where
  -- The two deletions of cached sets before it.
  unfoldable pub drop_friends : ℕ → ℕ → R → R × Bool
  drop_friends uid friendid r = elim (friend_delete_key rd uid r) [
    | none ↦ (r, false)
    | some r₁ ↦ elim (friend_delete_key rd friendid r₁) [
      | none ↦ (r₁, false)
      | some r₂ ↦ (r₂, true)
    ]
  ]

module _ {D R : Type 0} (gm : Gorm D) (rd : Redis R) where
  abbrev commit_rows : Option D → Web D R → Web D R × Bool
  commit_rows none w = (w, false)
  commit_rows (some d) w = (commit (gm.commit d) d w, gm.commit d)

  -- FriendAdd from Begin on, with whether it reports no error.
  unfoldable pub store_friends : ℕ → ℕ → ℕ → Web D R → Web D R × Bool
  unfolding friend_rows
  store_friends uid friendid nid w = commit_rows (friend_rows gm uid friendid nid w.db) (begin w)

  unfoldable pub friend_add : ℕ → ℕ → ℕ → Web D R → Web D R × Bool
  unfolding store_friends drop_friends
  friend_add uid friendid nid w =
      let (r, ok) = drop_friends rd uid friendid w.cache in
      let dropped : Web D R = record w { cache = r } in
      elim ok [ false ↦ (dropped, false) | true ↦ store_friends uid friendid nid dropped ]

  abbrev or_kept : Option D → Web D R → Web D R × Bool
  or_kept none w = (w, false)
  or_kept (some d) w = (record w { db = d }, true)

  unfoldable pub friend_delete : ℕ → ℕ → Web D R → Web D R × Bool
  friend_delete uid friendid w = elim (friend_delete_key rd uid w.cache) [
    | none ↦ (w, false)
    | some r ↦
        or_kept
          (gm.delete (where_all friends (eq "userid" (num uid) ∷ eq "friendid" (num friendid) ∷ []))
            w.db)
          (record w { cache = r })
  ]

module _ {D : Type 0} (gm : Gorm D) where
  abbrev is_found : Found → Bool
  is_found (found row) = true
  is_found record_not_found = false
  is_found failed = true

  -- `!RecordNotFound()`, which is true of any other error too.
  unfoldable pub firend_query : ℕ → ℕ → D → Bool
  firend_query uid firendid d =
      is_found
        (gm.first (where_all friends (eq "userid" (num uid) ∷ eq "friendid" (num firendid) ∷ [])) d)

  unfoldable pub notify_query : ℕ → ℕ → D → Bool
  notify_query sender receive d = is_found (
      gm.first
        (where_all notifies
          (eq "sender" (num sender) ∷ eq "receive" (num receive) ∷ eq "status" (num 1) ∷ []))
        d)

  abbrev pub firend_list : ℕ → D → List Row
  firend_list uid d =
      (gm.scan
        (record (where_all friends (eq "userid" (num uid) ∷ [])) {
          joins = some "left join users on users.id=friends.friendid";
        })
        d).0

  unfoldable pub notify_create : ℕ → ℕ → List ℕ → D → Option (ℕ × D)
  notify_create sender receive greet d =
      gm.create notifies
        (("sender", num sender)
          ∷ ("receive", num receive)
          ∷ ("status", num 1)
          ∷ ("greet", txt greet)
          ∷ [])
        d

  unfoldable pub notify_first : ℕ → ℕ → ℕ → D → Option Notify
  notify_first uid nid status d =
      elim (gm.first
        (where_all notifies
          (eq "receive" (num uid) ∷ eq "id" (num nid) ∷ eq "status" (num status) ∷ []))
        d) [ found row ↦ some (notify_of row) | record_not_found ↦ none | failed ↦ none ]

  unfoldable pub notify_update_status : ℕ → ℕ → D → Option D
  notify_update_status nid status d =
      gm.update (where_all notifies (eq "id" (num nid) ∷ [])) "status" (num status) d

  abbrev pub notify_list : ℕ → ℕ → D → List Row
  notify_list receive page d =
      (gm.scan
        (record (page_of (where_all notifies (eq "receive" (num receive) ∷ [])) page) {
          joins = some "left join users on users.id=notifies.sender";
        })
        d).0

  abbrev pub notify_clear : ℕ → D → Option D
  notify_clear receive d = gm.delete (where_all notifies (eq "receive" (num receive) ∷ [])) d
