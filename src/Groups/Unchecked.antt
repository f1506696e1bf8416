-- ===== src/Groups/Unchecked.antt =====
-- The checks of membership and of ownership, which ask RecordNotFound about a query that never
-- runs.
use zqim.Prelude.{ℕ, ◌+◌, ◌≡◌, refl, Option, none, some, List, [], ◌∷◌, ◌⊎◌, inl, inr, Option-cases}
use zqim.Services.{groupid_key}
use zqim.Sql.{Gorm, Table, Row, groupchats, eq, num, columns}
use zqim.Sql.Laws.{IsSql, known}
use zqim.Web.{Web, Redis}
use zqim.Groups.{cache, database, removemembers, invitation, delete_group}
use zqim.Groups.Api.{InvitationParm, removemembers_handler, invitation_handler}

module _ {D R : Type 0} (gm : Gorm D) (rd : Redis R) (rows : Table → D → List Row)
    (sql : IsSql gm rows) where
  -- Whoever asks: the handlers that remove members from a group and that add some do the same for
  -- every user, a member or not, the owner or not.
  pub removemembers_handler-invitation_handler :
      (uid uid' : ℕ) (parm : Option InvitationParm) (w : Web D R)
      → (removemembers_handler gm rd uid parm w ≡ removemembers_handler gm rd uid' parm w)
        × (invitation_handler gm rd uid parm w ≡ invitation_handler gm rd uid' parm w)
  unfolding removemembers_handler removemembers invitation_handler invitation
  removemembers_handler-invitation_handler uid uid' none w = (refl, refl)
  removemembers_handler-invitation_handler uid uid' (some parm) w =
      (rw (sql.built _ _, sql.built _ _), rw (sql.built _ _, sql.built _ _))

  -- No group is ever deleted, not even by its owner: the condition names a column that the table
  -- does not have. The transaction stays open.
  delete_group-fails :
      (gid uid : ℕ) (w : Web D R)
      → let (w', e) = delete_group gm rd gid uid w in
        ((e ≡ some cache) ⊎ (e ≡ some database)) × (w'.db ≡ w.db) × (w'.opened ≡ w.opened + 1)
  unfolding delete_group columns known
  delete_group-fails gid uid w = elim (Option-cases (rd.del (groupid_key gid) w.cache)) [
    | inl e ↦ rw (e, delete_group) (inl refl, refl, refl)
    | inr (r, e) ↦
        rw (e, delete_group)
          (rw
            (sql.unknown groupchats (eq "groupid" (num gid) ∷ eq "owner" (num uid) ∷ []) w.db refl)
            (inr refl, refl, refl))
  ]
