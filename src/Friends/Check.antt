-- ===== src/Friends/Check.antt =====
-- A friendship that the web server stores, as FriendCheck of the connection server sees it.
use mathlib.Core.Path.{subst}
use zqim.Prelude.{
  ℕ, ◌<◌, ◌≡◌, refl, sym, ap, ◌∙◌, arith, true, some, List, [], ◌∷◌, ◌++◌, lt→ltb, inl, inr,
  Option-cases, append-nil, string_eq,
}
use zqim.Prelude.Maps
use zqim.Services.{Services, friends_key}
use zqim.Cache.{contains, friend_check}
use zqim.Cache.Agrees.{On, first, later, On-contains}
use zqim.Sql.{Table, friends, notifies, num, Row, eq, where_all, Gorm, num_of}
use zqim.Sql.Laws.{IsSql, holds}
use zqim.Web.{Web, Redis}
use zqim.Modle.{friends_query}
use zqim.Modle.Read.{friends_of}
use zqim.Web.Shared.{IsShared, select_friends-friends_of}
use zqim.Friends.{friend_row, friend_rows, friend_add}
use zqim.Friends.Outcome.{stored, uncached, left_open, uncommitted, friend_add-Ended}

pub On-left : (u : ℕ) (xs ys : List ℕ) → On u xs → On u (xs ++ ys)
On-left u _ ys (first v vs e) = first v (vs ++ ys) e
On-left u _ ys (later v vs o) = later v (vs ++ ys) (On-left u vs ys o)

pub On-right : (u : ℕ) (xs ys : List ℕ) → On u ys → On u (xs ++ ys)
On-right u [] ys o = o
On-right u (x ∷ xs) ys o = later x (xs ++ ys) (On-right u xs ys o)

pub friends_of-append :
    (uid : ℕ) (xs ys : List Row)
    → friends_of uid (xs ++ ys) ≡ friends_of uid xs ++ friends_of uid ys
unfolding friends_of
friends_of-append uid [] ys = refl
friends_of-append uid (x ∷ xs) ys = ground (arith, friends_of-append uid xs ys)

friends_of-row : (u v i : ℕ) → friends_of u ((("id", num i) ∷ friend_row u v) ∷ []) ≡ v ∷ []
unfolding friends_of num_of Maps.lookup holds
friends_of-row u v i = ground arith

-- A row of a friendship among others.
On-row :
    (u v i : ℕ) (xs ys : List Row)
    → On v (friends_of u ((xs ++ (("id", num i) ∷ friend_row u v) ∷ []) ++ ys))
On-row u v i xs ys =
    let row : List Row = (("id", num i) ∷ friend_row u v) ∷ [] in
    let there : On v (friends_of u row) =
      subst (On v) (sym (friends_of-row u v i)) (first v [] refl) in
    let last : On v (friends_of u (xs ++ row)) =
      subst (On v) (sym (friends_of-append u xs row))
        (On-right v (friends_of u xs) (friends_of u row) there) in
    subst (On v) (sym (friends_of-append u (xs ++ row) ys))
      (On-left v (friends_of u (xs ++ row)) (friends_of u ys) last)

module _ {D R : Type 0} (sv : Services (D × R)) (gm : Gorm D) (rd : Redis R)
    (rows : Table → D → List Row) (sql : IsSql gm rows) (shared : IsShared sv gm rd)
    (uid friendid nid : ℕ) where
  -- The rows that FriendAdd's statements leave.
  pub record IsStored (d d' : D) : Type 0 where
    pub i : ℕ
    pub j : ℕ
    pub table :
        rows friends d'
        ≡ (rows friends d ++ (("id", num i) ∷ friend_row uid friendid) ∷ [])
          ++ (("id", num j) ∷ friend_row friendid uid) ∷ []

  pub friend_rows-IsStored :
      (d d' : D) → friend_rows gm uid friendid nid d ≡ some d' → IsStored d d'
  unfolding friend_rows
  friend_rows-IsStored d d' e =
      elim (Option-cases (gm.create friends (friend_row uid friendid) d)) [
        | inl f ↦ absurd (ground (arith, e, f))
        | inr ((i, d₁), f) ↦ elim (Option-cases (gm.create friends (friend_row friendid uid) d₁)) [
          | inl g ↦ absurd (ground (arith, e, f, g))
          | inr ((j, d₂), g) ↦
              let h : gm.update (where_all notifies (eq "id" (num nid) ∷ [])) "status" (num 2) d₂
                  ≡ some d' =
                ground (arith, e, f, g) in
              record {
                i = i;
                j = j;
                table =
                    sql.updated_apart notifies friends (eq "id" (num nid) ∷ []) "status" (num 2) d₂
                      d' refl h
                    ∙ sql.created friends (friend_row friendid uid) d₁ j d₂ g
                    ∙ ap (λ l. l ++ (("id", num j) ∷ friend_row friendid uid) ∷ [])
                        (sql.created friends (friend_row uid friendid) d i d₁ f);
              }
        ]
      ]

  pub IsStored-On :
      (d d' : D)
      → IsStored d d'
      → On friendid (friends_of uid (rows friends d'))
        × On uid (friends_of friendid (rows friends d'))
  IsStored-On d d' h =
      let row : List Row = (("id", num h.j) ∷ friend_row friendid uid) ∷ [] in
      let front : List Row = rows friends d ++ (("id", num h.i) ∷ friend_row uid friendid) ∷ [] in
      (
        subst (λ l. On friendid (friends_of uid l)) (sym h.table)
            (On-row uid friendid h.i (rows friends d) row),
        subst (λ l. On uid (friends_of friendid l)) (append-nil (front ++ row) ∙ sym h.table)
            (On-row friendid uid h.j front []),
      )

  -- An empty cache answers from the database.
  pub friend_check-cold :
      (u v : ℕ) (d : D) (r : R)
      → sv.exists (friends_key u) (d, r) < 1
      → (gm.scan (friends_query u) d).1 ≡ true
      → (friend_check sv u v (d, r)).0 ≡ contains v (friends_of u (rows friends d))
  unfolding friend_check
  friend_check-cold u v d r l answered =
      rw (lt→ltb _ 1 l, friend_check)
        (rw (select_friends-friends_of sv gm rd rows sql shared d r u answered))

  -- When FriendAdd has gone well, each of the two may write to the other: FriendCheck of the
  -- connection server says so both ways, if its queries of the friends of the two do not fail.
  pub friend_add-friend_check :
      (w : Web D R)
      → (friend_add gm rd uid friendid nid w).1 ≡ true
      → (gm.scan (friends_query uid) (friend_add gm rd uid friendid nid w).0.db).1 ≡ true
      → (gm.scan (friends_query friendid) (friend_add gm rd uid friendid nid w).0.db).1 ≡ true
      → let w' = (friend_add gm rd uid friendid nid w).0 in
        ((friend_check sv uid friendid (w'.db, w'.cache)).0 ≡ true)
        × ((friend_check sv friendid uid (w'.db, w'.cache)).0 ≡ true)
  friend_add-friend_check w e answered answered_too =
      elim (friend_add-Ended gm rd uid friendid nid w) [
        | uncached u f a b ↦ absurd (ground (arith, e, f))
        | left_open g f a b ↦ absurd (ground (arith, e, f))
        | uncommitted d g h f a b ↦ absurd (ground (arith, e, f))
        | stored d g z t a b p ↦
            let w' = (friend_add gm rd uid friendid nid w).0 in
            let (m, t') = IsStored-On w.db d (friend_rows-IsStored w.db d g) in
            let gone =
              shared.still_deleted (friends_key uid) (friends_key friendid) p.middle w'.cache w'.db
                p.theirs (shared.deleted (friends_key uid) w.cache p.middle w'.db p.mine) in
            let gone' = shared.deleted (friends_key friendid) p.middle w'.cache w'.db p.theirs in
            (
              friend_check-cold uid friendid w'.db w'.cache gone answered
                  ∙ On-contains friendid _
                      (subst (λ x. On friendid (friends_of uid (rows friends x))) (sym a) m),
              friend_check-cold friendid uid w'.db w'.cache gone' answered_too
                  ∙ On-contains uid _
                      (subst (λ x. On uid (friends_of friendid (rows friends x))) (sym a) t'),
            )
      ]
