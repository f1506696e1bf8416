-- ===== src/Friends/Outcome.antt =====
-- FriendAdd, by the way it ends.
use zqim.Prelude.{
  ℕ, ◌+◌, ◌≡◌, refl, arith, Bool, true, false, none, some, ◌⊎◌, inl, inr, Bool-cases, Option-cases,
  Option, [], ◌∷◌,
}
use zqim.Services.{friends_key}
use mathlib.Core.Path.{subst}
use zqim.Sql.{friends, notifies, num, eq, where_all, Gorm}
use zqim.Web.{Web, Redis}
use zqim.Friends.{friend_row, friend_rows, store_friends, drop_friends, friend_add}

module _ {D R : Type 0} (gm : Gorm D) (rd : Redis R) (uid friendid nid : ℕ) where
  -- Both cached sets are gone.
  pub record IsDropped (r r' : R) : Type 0 where
    pub middle : R
    pub mine : rd.del (friends_key uid) r ≡ some middle
    pub theirs : rd.del (friends_key friendid) middle ≡ some r'

  -- The two rows of the friendship and the request's new status, or the first statement that fails.
  pub data Statements (d : D) : Option D → Type 0 where
    all_done :
        (i j : ℕ) (d₁ d₂ d₃ : D)
        → gm.create friends (("userid", num uid) ∷ ("friendid", num friendid) ∷ []) d ≡ some (i, d₁)
        → gm.create friends (("userid", num friendid) ∷ ("friendid", num uid) ∷ []) d₁
          ≡ some (j, d₂)
        → gm.update (where_all notifies (eq "id" (num nid) ∷ [])) "status" (num 2) d₂ ≡ some d₃
        → Statements d (some d₃)
    first_fails :
        gm.create friends (("userid", num uid) ∷ ("friendid", num friendid) ∷ []) d ≡ none
        → Statements d none
    second_fails :
        (i : ℕ) (d₁ : D)
        → gm.create friends (("userid", num uid) ∷ ("friendid", num friendid) ∷ []) d ≡ some (i, d₁)
        → gm.create friends (("userid", num friendid) ∷ ("friendid", num uid) ∷ []) d₁ ≡ none
        → Statements d none
    third_fails :
        (i j : ℕ) (d₁ d₂ : D)
        → gm.create friends (("userid", num uid) ∷ ("friendid", num friendid) ∷ []) d ≡ some (i, d₁)
        → gm.create friends (("userid", num friendid) ∷ ("friendid", num uid) ∷ []) d₁
          ≡ some (j, d₂)
        → gm.update (where_all notifies (eq "id" (num nid) ∷ [])) "status" (num 2) d₂ ≡ none
        → Statements d none

  friend_rows-Statements : (d : D) → Statements d (friend_rows gm uid friendid nid d)
  unfolding friend_rows
  friend_rows-Statements d = elim (Option-cases (gm.create friends (friend_row uid friendid) d)) [
    | inl e ↦ rw (e, friend_rows) (first_fails e)
    | inr ((i, d₁), e) ↦ elim (Option-cases (gm.create friends (friend_row friendid uid) d₁)) [
      | inl f ↦ rw (e, friend_rows) (rw f (second_fails i d₁ e f))
      | inr ((j, d₂), f) ↦
          elim (Option-cases
            (gm.update (where_all notifies (eq "id" (num nid) ∷ [])) "status" (num 2) d₂)) [
              | inl g ↦ rw (e, friend_rows) (rw f (rw g (third_fails i j d₁ d₂ e f g)))
              | inr (d₃, g) ↦ rw (e, friend_rows) (rw f (rw g (all_done i j d₁ d₂ d₃ e f g)))
            ]
    ]
  ]

  -- A cached set could not be deleted.
  pub data Undropped (r : R) : Type 0 where
    mine_stays : rd.del (friends_key uid) r ≡ none → Undropped r
    theirs_stays :
        (r₁ : R)
        → rd.del (friends_key uid) r ≡ some r₁
        → rd.del (friends_key friendid) r₁ ≡ none
        → Undropped r

  drop_friends-cases :
      (r : R)
      → (((drop_friends rd uid friendid r).1 ≡ false) × Undropped r)
        ⊎ (((drop_friends rd uid friendid r).1 ≡ true)
            × IsDropped r (drop_friends rd uid friendid r).0)
  unfolding drop_friends
  drop_friends-cases r = elim (Option-cases (rd.del (friends_key uid) r)) [
    | inl e ↦ inl (rw (e, drop_friends) (refl, mine_stays e))
    | inr (r₁, e) ↦ elim (Option-cases (rd.del (friends_key friendid) r₁)) [
      | inl f ↦ inl (rw (e, drop_friends) (rw f (refl, theirs_stays r₁ e f)))
      | inr (r₂, f) ↦
          inr (rw (e, drop_friends) (rw f (refl, record { middle = r₁; mine = e; theirs = f })))
    ]
  ]

  pub data Ended (w : Web D R) (r : Web D R × Bool) : Type 0 where
    stored :
        (d : D)
        → friend_rows gm uid friendid nid w.db ≡ some d
        → Statements w.db (some d)
        → r.1 ≡ true
        → r.0.db ≡ d
        → r.0.opened ≡ w.opened
        → IsDropped w.cache r.0.cache
        → Ended w r
    uncached : Undropped w.cache → r.1 ≡ false → r.0.db ≡ w.db → r.0.opened ≡ w.opened → Ended w r
    left_open :
        Statements w.db none → r.1 ≡ false → r.0.db ≡ w.db → r.0.opened ≡ w.opened + 1 → Ended w r
    uncommitted :
        (d : D)
        → Statements w.db (some d)
        → gm.commit d ≡ false
        → r.1 ≡ false
        → r.0.db ≡ w.db
        → r.0.opened ≡ w.opened
        → Ended w r

  friend_add-dropped :
      (w : Web D R)
      → (drop_friends rd uid friendid w.cache).1 ≡ true
      → friend_add gm rd uid friendid nid w
        ≡ store_friends gm rd uid friendid nid
            (record w { cache = (drop_friends rd uid friendid w.cache).0 })
  unfolding friend_add
  friend_add-dropped w e = rw (e, friend_add)

  -- FriendAdd ends in one of four ways: the two rows and the new status of the request are stored,
  -- and both cached sets are deleted; a cached set could not be deleted, and no transaction was
  -- begun; one of its three statements failed, nothing is stored and the transaction stays open; or
  -- Commit failed and nothing is stored.
  pub friend_add-Ended : (w : Web D R) → Ended w (friend_add gm rd uid friendid nid w)
  unfolding store_friends friend_add
  friend_add-Ended w = elim (drop_friends-cases w.cache) [
    | inl (e, u) ↦ rw (e, friend_add) (uncached u refl refl refl)
    | inr (e, p) ↦
        rw (friend_add-dropped w e) (elim (Option-cases (friend_rows gm uid friendid nid w.db)) [
          | inl f ↦
              rw (f, store_friends)
                (left_open (subst (Statements w.db) f (friend_rows-Statements w.db)) refl refl refl)
          | inr (d, f) ↦ elim (Bool-cases (gm.commit d)) [
            | inl g ↦
                rw (f, store_friends)
                  (rw g (
                    stored d f (subst (Statements w.db) f (friend_rows-Statements w.db)) refl refl
                      (omega arith) p))
            | inr g ↦
                rw (f, store_friends)
                  (rw g (
                    uncommitted d (subst (Statements w.db) f (friend_rows-Statements w.db)) g refl
                      refl (omega arith)))
          ]
        ])
  ]
