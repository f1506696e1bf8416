-- ===== src/Groups/Removed.antt =====
-- The removal of members at the web server, as GroupMebersCheck of a connection server sees it.
use mathlib.Core.Path.{subst}
use zqim.Prelude.{
  ℕ, ◌<◌, ◌≡◌, refl, ap, ◌∙◌, arith, true, false, none, some, List, [], ◌∷◌, ◌==◌, ==_iff, lt→ltb,
  inl, inr, Bool-cases, Option-cases,
}
use zqim.Services.{Services, groupid_key}
use zqim.Cache.{contains, group_mebers_check}
use zqim.Sql.{Table, groupchat_users, num, Row, Cond, eq, is_in, where_all, Gorm, num_of}
use zqim.Sql.Laws.{IsSql, holds, matches, reject}
use zqim.Web.{Web, Redis}
use zqim.Modle.{users_query}
use zqim.Modle.Read.{users_of}
use zqim.Web.Shared.{IsShared, select_group_users-users_of}
use zqim.Groups.{removemembers, cache, database}

abbrev removed : ℕ → List ℕ → List Cond
removed gid members = eq "groupid" (num gid) ∷ is_in "userid" members ∷ []

contains_apart :
    (v u : ℕ) (us : List ℕ) → contains v us ≡ true → contains u us ≡ false → (u == v) ≡ false
contains_apart v u us t f = elim (Bool-cases (u == v)) [
  | inl e ↦ absurd (ground (arith, t, f, ap (λ w. contains w us) ((==_iff u v).0 e)))
  | inr e ↦ e
]

among :
    (members : List ℕ) (row : Row)
    → holds (is_in "userid" members) row ≡ contains (num_of "userid" row) members
unfolding holds
among members row = refl

-- A removed member is not among the users of the group any more.
contains-reject :
    (gid v : ℕ) (members : List ℕ) (rows : List Row)
    → contains v members ≡ true
    → contains v (users_of gid (reject (matches (removed gid members)) rows)) ≡ false
unfolding users_of contains
contains-reject gid v members [] t = refl
contains-reject gid v members (row ∷ rows) t =
    let rest = contains-reject gid v members rows t in
    elim (Bool-cases (holds (eq "groupid" (num gid)) row)) [
      | inr h ↦ rw h (rw (h, users_of) rest)
      | inl h ↦ elim (Bool-cases (contains (num_of "userid" row) members)) [
        | inl c ↦ rw (h, among members row, c) rest
        | inr c ↦
            rw (h, among members row, c)
              (rw (h, users_of)
                (rw (contains_apart v (num_of "userid" row) members t c, contains) rest))
      ]
    ]

module _ {D R : Type 0} (sv : Services (D × R)) (gm : Gorm D) (rd : Redis R)
    (rows : Table → D → List Row) (sql : IsSql gm rows) (shared : IsShared sv gm rd) where
  group_mebers_check-cold :
      (gid v : ℕ) (d : D) (r : R)
      → sv.exists (groupid_key gid) (d, r) < 1
      → (gm.scan (users_query gid) d).1 ≡ true
      → (group_mebers_check sv gid v (d, r)).0 ≡ contains v (users_of gid (rows groupchat_users d))
  unfolding group_mebers_check
  group_mebers_check-cold gid v d r l answered =
      rw (lt→ltb _ 1 l, group_mebers_check)
        (rw (select_group_users-users_of sv gm rd rows sql shared d r gid answered))

  -- When Removemembers has gone well, GroupMebersCheck of the connection server lets none of the
  -- removed members write to the group, if its query of the members does not fail.
  pub removemembers-group_mebers_check :
      (gid uid v : ℕ) (members : List ℕ) (w : Web D R)
      → (removemembers gm rd gid uid members w).1 ≡ none
      → contains v members ≡ true
      → (gm.scan (users_query gid) (removemembers gm rd gid uid members w).0.db).1 ≡ true
      → let w' = (removemembers gm rd gid uid members w).0 in
        (group_mebers_check sv gid v (w'.db, w'.cache)).0 ≡ false
  unfolding removemembers
  removemembers-group_mebers_check gid uid v members w e t answered =
      elim (Option-cases (rd.del (groupid_key gid) w.cache)) [
        | inl f ↦
            let x : (removemembers gm rd gid uid members w).1 ≡ some cache =
              rw (sql.built _ _, removemembers) (rw f refl) in
            absurd (ground (arith, e, x))
        | inr (r, f) ↦
            elim (Option-cases (gm.delete (where_all groupchat_users (removed gid members)) w.db)) [
              | inl g ↦
                  let x : (removemembers gm rd gid uid members w).1 ≡ some database =
                    rw (sql.built _ _, removemembers) (rw f (rw g refl)) in
                  absurd (ground (arith, e, x))
              | inr (d, g) ↦
                  let now : (removemembers gm rd gid uid members w).0.db ≡ d =
                    rw (sql.built _ _, removemembers) (rw f (rw g refl)) in
                  let there = subst (λ x. (gm.scan (users_query gid) x).1 ≡ true) now answered in
                  rw (sql.built _ _, removemembers)
                    (rw f (
                      rw g (
                        group_mebers_check-cold gid v d r
                          (shared.deleted (groupid_key gid) w.cache r d f) there
                        ∙ ap (λ l. contains v (users_of gid l))
                            (sql.deleted groupchat_users (removed gid members) w.db d refl g)
                        ∙ contains-reject gid v members (rows groupchat_users w.db) t)))
            ]
      ]
