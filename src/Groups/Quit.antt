-- ===== src/Groups/Quit.antt =====
-- How the owner of a group leaves it.
use mathlib.Core.Path.{subst}
use zqim.Prelude.{
  ℕ, ◌+◌, ◌≡◌, refl, sym, Option, none, some, List, [], ◌∷◌, map, All, ◌==◌, ==_iff, ◌⊎◌, inl, inr,
  Bool-cases, Option-cases, string_eq,
}
use zqim.Prelude.Maps
use zqim.Services.{groupid_key}
use zqim.Sql.{
  Gorm, Table, Row, num, Found, found, record_not_found, failed, groupchats, eq, where_all, num_of,
  columns,
}
use zqim.Sql.Laws.{IsSql, known}
use zqim.Web.{Web, Redis}
use zqim.Groups.{
  GroupError, database, cache, membership, of_group, get_group, new_owner, quit_group, Handed,
  handed, no_other, not_handed,
}

Found-cases :
    (f : Found) → ((row : Row) × (f ≡ found row)) ⊎ ((f ≡ record_not_found) ⊎ (f ≡ failed))
Found-cases (found row) = inl (row, refl)
Found-cases record_not_found = inr (inl refl)
Found-cases failed = inr (inr refl)

-- An update without conditions reaches every row.
All-owner :
    (heir : ℕ) (l : List Row)
    → All (λ g. num_of "owner" g ≡ heir) (map (λ row. Maps.insert "owner" (num heir) row) l)
unfolding num_of
All-owner heir [] = tt
All-owner heir (row ∷ l) = (rw (Maps.lookup-insert_self "owner" (num heir) row), All-owner heir l)

module _ {D R : Type 0} (gm : Gorm D) (rd : Redis R) (rows : Table → D → List Row)
    (sql : IsSql gm rows) (gid uid : ℕ) where
  -- What becomes of the state when an owner quits.
  pub data OwnerQuit (w : Web D R) (r : Web D R × Option GroupError) : Type 0 where
    crowned :
        (heir : ℕ)
        → r.1 ≡ none
        → All (λ g. num_of "owner" g ≡ heir) (rows groupchats r.0.db)
        → OwnerQuit w r
    forgotten : r.1 ≡ none → r.0.db ≡ w.db → r.0.opened ≡ w.opened + 1 → OwnerQuit w r
    kept : (e : GroupError) → r.1 ≡ some e → r.0.db ≡ w.db → OwnerQuit w r

  -- What becomes of the group in the transaction.
  data Heir (d : D) (h : Handed D) : Type 0 where
    heir :
        (n : ℕ) (d' : D)
        → gm.update (where_all groupchats []) "owner" (num n) d ≡ some d'
        → h ≡ handed d'
        → Heir d h
    nobody : h ≡ no_other → Heir d h
    stuck : h ≡ not_handed → Heir d h

  new_owner-Heir : (d : D) → Heir d (new_owner gm gid d)
  unfolding new_owner columns known
  new_owner-Heir d = elim (Found-cases (gm.first (of_group gid) d)) [
    | inr (inl e) ↦ rw (e, new_owner) (nobody refl)
    | inr (inr e) ↦ rw (e, new_owner) (nobody refl)
    | inl (row, e) ↦ elim (Bool-cases (num_of "userid" row == 0)) [
      | inl z ↦
          rw (e, new_owner)
            (rw z (rw (sql.unknown groupchats (eq "groupid" (num gid) ∷ []) d refl) (stuck refl)))
      | inr z ↦
          elim (Option-cases
            (gm.update (where_all groupchats []) "owner" (num (num_of "userid" row)) d)) [
              | inl f ↦ rw (e, new_owner) (rw z (rw f (stuck refl)))
              | inr (d', f) ↦ rw (e, new_owner) (rw z (rw f (heir (num_of "userid" row) d' f refl)))
            ]
    ]
  ]

  owners :
      (n : ℕ) (d d' : D)
      → gm.update (where_all groupchats []) "owner" (num n) d ≡ some d'
      → All (λ g. num_of "owner" g ≡ n) (rows groupchats d')
  owners n d d' e =
      subst (All (λ g. num_of "owner" g ≡ n))
        (sym (sql.updated groupchats [] "owner" (num n) d d' refl e))
        (All-owner n (rows groupchats d))

  -- When the owner of a group leaves it, the owner of every group in the database becomes the same
  -- user; or success is reported, nothing is stored and the transaction stays open; or an error is
  -- reported and nothing is stored.
  pub quit_group-OwnerQuit :
      (group : Row) (w : Web D R)
      → gm.first (where_all groupchats (eq "id" (num gid) ∷ [])) w.db ≡ found group
      → num_of "owner" group ≡ uid
      → OwnerQuit w (quit_group gm rd gid uid w)
  unfolding quit_group get_group
  quit_group-OwnerQuit group w g o = elim (Option-cases (rd.del (groupid_key gid) w.cache)) [
    | inl e ↦ rw (e, quit_group) (kept cache refl refl)
    | inr (r, e) ↦ elim (Option-cases (gm.delete (membership gid uid) w.db)) [
      | inl f ↦ rw (e, quit_group) (rw f (kept database refl refl))
      | inr (d, f) ↦
          rw (e, quit_group)
            (rw f (
              rw (sql.built _ _, get_group)
                (rw (g, (==_iff (num_of "owner" group) uid).1 o)
                  (elim (new_owner-Heir d) [
                    | nobody h ↦ rw h (forgotten refl refl refl)
                    | stuck h ↦ rw h (kept database refl refl)
                    | heir n d' u h ↦ rw h (elim (Bool-cases (gm.commit d')) [
                      | inl k ↦ rw k (crowned n refl (owners n d d' u))
                      | inr k ↦ rw k (kept database refl refl)
                    ])
                  ]))))
    ]
  ]
