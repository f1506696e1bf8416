-- ===== src/Cache/Agrees.antt =====
-- FriendCheck and GroupMebersCheck against the database, whether the cache is filled or not.
use zqim.Prelude.{
  ℕ, ◌<◌, ◌≡◌, ◌↔◌, ◌∙◌, arith, Option, some, List, [], ◌∷◌, true, ltb, ltb→lt, ltb→le, ◌==◌,
  ==_iff, inl, inr, Bool-cases,
}
use zqim.Services.{Services, Key, groupid_key}
use zqim.Cache.{contains, group_mebers_check}

-- A user is on a list.
pub data On (uid : ℕ) : List ℕ → Type 0 where
  first : (v : ℕ) (vs : List ℕ) → v ≡ uid → On uid (v ∷ vs)
  later : (v : ℕ) (vs : List ℕ) → On uid vs → On uid (v ∷ vs)

pub contains-On : (uid : ℕ) (vs : List ℕ) → contains uid vs ≡ true → On uid vs
unfolding contains
contains-On uid [] h = absurd (ground arith)
contains-On uid (v ∷ vs) h = elim (Bool-cases (v == uid)) [
  | inl e ↦ first v vs ((==_iff v uid).0 e)
  | inr e ↦ later v vs (contains-On uid vs (ground arith))
]

pub On-contains : (uid : ℕ) (vs : List ℕ) → On uid vs → contains uid vs ≡ true
unfolding contains
On-contains uid _ (first v vs e) = ground arith
On-contains uid _ (later v vs o) = ground (arith, On-contains uid vs o)

module _ {S : Type 0} (sv : Services S) where
  -- What redis and the database promise: a set that did not exist has exactly the members that SAdd
  -- adds, and writing to the cache does not change the database.
  pub record AreKept : Type 0 where
    pub added :
        (k : Key) (vs : List ℕ) (s : S) (uid : ℕ)
        → sv.exists k s < 1
        → sv.sismember k uid (sv.sadd k vs s).1 ≡ contains uid vs
    pub friends_apart :
        (k : Key) (vs : List ℕ) (s : S) (uid : ℕ)
        → sv.select_friends uid (sv.sadd k vs s).1 ≡ sv.select_friends uid s
    pub groups_apart :
        (k : Key) (vs : List ℕ) (s : S) (gid : ℕ)
        → sv.select_group_users gid (sv.sadd k vs s).1 ≡ sv.select_group_users gid s

  -- If the key exists, its set answers as the list of the database does.
  abbrev pub IsCoherent : Key → Option (List ℕ) → S → Type 0
  IsCoherent k rows s =
      (vs : List ℕ) (uid : ℕ)
      → rows ≡ some vs
      → 0 < sv.exists k s
      → sv.sismember k uid s ≡ contains uid vs

  -- GroupMebersCheck answers whether the database has the member, in the same way.
  pub group_mebers_check-On :
      (gid uid : ℕ) (vs : List ℕ) (s : S)
      → AreKept
      → sv.select_group_users gid s ≡ some vs
      → IsCoherent (groupid_key gid) (sv.select_group_users gid s) s
      → let (answer, s') = group_mebers_check sv gid uid s in
        ((answer ≡ true) ↔ On uid vs)
        × IsCoherent (groupid_key gid) (sv.select_group_users gid s') s'
  unfolding group_mebers_check
  group_mebers_check-On gid uid vs s kept rows c =
      elim (Bool-cases (ltb (sv.exists (groupid_key gid) s) 1)) [
        | inl e ↦
            rw (e, group_mebers_check)
              (rw rows (
                (contains-On uid vs, On-contains uid vs),
                λ us u f l.
                    kept.added _ vs s u (ltb→lt _ 1 e)
                    ∙ ground (arith, kept.groups_apart (groupid_key gid) vs s gid),
              ))
        | inr e ↦
            let same = c vs uid rows (ltb→le _ 1 e) in
            rw (e, group_mebers_check)
              ((λ h. contains-On uid vs (ground arith), λ o. same ∙ On-contains uid vs o), c)
      ]
