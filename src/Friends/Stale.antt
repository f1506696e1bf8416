-- ===== src/Friends/Stale.antt =====
-- FriendCheck of the connection server between the two halves of FriendAdd.
use mathlib.Core.Path.{subst}
use zqim.Prelude.{
  ℕ, ◌<◌, ◌≡◌, ap, ◌∙◌, arith, Bool, true, false, List, length, lt→ltb, le→ltb, inl, inr,
  Bool-cases, Option-cases,
}
use zqim.Services.{Services, friends_key}
use zqim.Cache.{contains, friend_check}
use zqim.Cache.Agrees.{On}
use zqim.Sql.{Table, friends, Row, Gorm}
use zqim.Sql.Laws.{IsSql}
use zqim.Web.{Web, Redis}
use zqim.Modle.{friends_query}
use zqim.Modle.Read.{friends_of}
use zqim.Web.Shared.{IsShared, select_friends-friends_of}
use zqim.Friends.{friend_rows, store_friends}
use zqim.Friends.Check.{friend_rows-IsStored, IsStored-On}

module _ {D R : Type 0} (sv : Services (D × R)) (gm : Gorm D) (rd : Redis R)
    (rows : Table → D → List Row) (sql : IsSql gm rows) (shared : IsShared sv gm rd)
    (uid friendid nid : ℕ) where
  -- A cold check fills the cache with the friends that the database has at that time.
  filling :
      (d : D) (r : R)
      → sv.exists (friends_key uid) (d, r) < 1
      → (gm.scan (friends_query uid) d).1 ≡ true
      → (friend_check sv uid friendid (d, r)).1
        ≡ (sv.sadd (friends_key uid) (friends_of uid (rows friends d)) (d, r)).1
  unfolding friend_check
  filling d r l answered =
      rw (lt→ltb _ 1 l, friend_check)
        (rw (select_friends-friends_of sv gm rd rows sql shared d r uid answered))

  warm :
      (s : D × R)
      → 0 < sv.exists (friends_key uid) s
      → (friend_check sv uid friendid s).0 ≡ sv.sismember (friends_key uid) friendid s
  unfolding friend_check
  warm s l = rw (le→ltb _ 1 l, friend_check)

  stored-On :
      (w : Web D R)
      → (store_friends gm rd uid friendid nid w).1 ≡ true
      → On friendid (friends_of uid (rows friends (store_friends gm rd uid friendid nid w).0.db))
  unfolding store_friends
  stored-On w e = elim (Option-cases (friend_rows gm uid friendid nid w.db)) [
    | inl f ↦ absurd (ground (arith, e, f))
    | inr (d, f) ↦ elim (Bool-cases (gm.commit d)) [
      | inr g ↦ absurd (ground (arith, e, f, g))
      | inl g ↦
          let (m, t) =
            IsStored-On sv gm rd rows sql shared uid friendid nid w.db d
              (friend_rows-IsStored sv gm rd rows sql shared uid friendid nid w.db d f) in
          rw (f, store_friends) (rw g m)
    ]
  ]

  stored-cache : (w : Web D R) → (store_friends gm rd uid friendid nid w).0.cache ≡ w.cache
  unfolding store_friends
  stored-cache w = elim (Option-cases (friend_rows gm uid friendid nid w.db)) [
    | inl f ↦ rw (f, store_friends)
    | inr (d, f) ↦ elim (Bool-cases (gm.commit d)) [
      | inr g ↦ rw (f, store_friends) (rw g)
      | inl g ↦ rw (f, store_friends) (rw g)
    ]
  ]

  -- The second half of FriendAdd, after a check that came in between.
  abbrev pub checked_between : Web D R → Web D R × Bool
  checked_between w =
      store_friends gm rd uid friendid nid
        (record w { cache = (friend_check sv uid friendid (w.db, w.cache)).1.1 })

  -- A message between the two halves of FriendAdd, when the cached sets are deleted and the rows
  -- not yet stored, fills the cache with the old friends, if its query of them and its SAdd do not
  -- fail. The friendship is stored all the same, but FriendCheck goes on to refuse it from the
  -- cache.
  pub friend_check-stale :
      (w : Web D R)
      → sv.exists (friends_key uid) (w.db, w.cache) < 1
      → 0 < length (friends_of uid (rows friends w.db))
      → contains friendid (friends_of uid (rows friends w.db)) ≡ false
      → (gm.scan (friends_query uid) w.db).1 ≡ true
      → (sv.sadd (friends_key uid) (friends_of uid (rows friends w.db)) (w.db, w.cache)).0 ≡ true
      → (checked_between w).1 ≡ true
      → let w' = (checked_between w).0 in
        On friendid (friends_of uid (rows friends w'.db))
        × ((friend_check sv uid friendid (w'.db, w'.cache)).0 ≡ false)
  friend_check-stale w l n c answered added e =
      let k = friends_key uid in
      let old = friends_of uid (rows friends w.db) in
      let full = (sv.sadd k old (w.db, w.cache)).1 in
      let w' = (checked_between w).0 in
      let cache : w'.cache ≡ full.1 =
        stored-cache (record w { cache = (friend_check sv uid friendid (w.db, w.cache)).1.1 })
        ∙ ap (λ s. s.1) (filling w.db w.cache l answered) in
      let there : 0 < sv.exists k (w'.db, full.1) =
        subst (λ m. 0 < m) (shared.exists_apart k full.0 w'.db full.1)
          (shared.filled k old w.db w.cache n added) in
      (
        stored-On _ e,
        ap (λ r. (friend_check sv uid friendid (w'.db, r)).0) cache
            ∙ warm (w'.db, full.1) there
            ∙ shared.sismember_apart k friendid w'.db full.0 full.1
            ∙ shared.added k old (w.db, w.cache) friendid l added
            ∙ c,
      )
