-- ===== src/Cache.antt =====
-- comit/rediscache: which users are friends or members of a group, cached in redis, and the server
-- that a user is connected to.
pub mod Agrees
mod Tests
use zqim.Prelude.{
  ℕ, ◌+◌, ◌-◌, ◌*◌, ◌%◌, Bool, true, false, ◌&&◌, ◌||◌, Option, none, some, List, [], ◌∷◌, ltb, leb,
  ◌==◌, if◌then◌else◌,
}
use zqim.Frame.{u32_mod}
use zqim.Services.{Services, Key, User, userid_key, friends_key, groupid_key}

-- strconv.Atoi, and the conversion of its result to uint32.
unfoldable pub digits : ℕ → List ℕ → Option ℕ
digits n [] = some n
digits n (c ∷ cs) =
    let rest = digits (n * 10 + (c - 48)) cs in if leb 48 c && leb c 57 then rest else none

abbrev below : ℕ → Option ℕ → Option ℕ
below limit none = none
below limit (some n) = if ltb n limit then some n else none

unfoldable pub unsigned : ℕ → List ℕ → Option ℕ
unfolding digits
unsigned limit [] = none
unsigned limit (c ∷ cs) = below limit (digits 0 (c ∷ cs))

abbrev u32 : Option ℕ → Option ℕ
u32 none = none
u32 (some n) = some (n % u32_mod)

abbrev u32_negated : Option ℕ → Option ℕ
u32_negated none = none
u32_negated (some n) = some ((u32_mod - n % u32_mod) % u32_mod)

unfoldable pub atoi_u32 : List ℕ → Option ℕ
unfolding unsigned
atoi_u32 [] = none
atoi_u32 (c ∷ cs) =
    if c == b'-'
    then u32_negated (unsigned 9223372036854775809 cs)
    else u32 (unsigned 9223372036854775808 (if c == b'+' then cs else c ∷ cs))

-- The loop over a list of users that looks for one.
unfoldable pub contains : ℕ → List ℕ → Bool
contains uid [] = false
contains uid (v ∷ vs) = let rest = contains uid vs in if v == uid then true else rest

-- The loop of GetGroupUsers, which gives what it has at the first text that is no number.
unfoldable pub parse_users : List (List ℕ) → List ℕ
parse_users [] = []
parse_users (v ∷ vs) = elim (atoi_u32 v) [ none ↦ [] | some uid ↦ uid ∷ parse_users vs ]

module _ {S : Type 0} (sv : Services S) where
  -- The list that comes with the error, which the only caller ignores.
  unfoldable pub get_group_users : ℕ → S → List ℕ
  unfolding parse_users
  get_group_users gid s = elim (sv.smembers (groupid_key gid) s) [
    | none ↦ []
    | some vs ↦ parse_users vs
  ]

  abbrev pub group_add_members : ℕ → List ℕ → S → S
  group_add_members gid members s = (sv.sadd (groupid_key gid) members s).1

  -- The answer is read from the database when the key does not exist, and from the cache otherwise.
  unfoldable pub group_mebers_check : ℕ → ℕ → S → Bool × S
  unfolding contains
  group_mebers_check gid uid s =
      let cold : Bool × S = elim (sv.select_group_users gid s) [
        | none ↦ (false, s)
        | some groupmebers ↦ (contains uid groupmebers, group_add_members gid groupmebers s)
      ] in
      if ltb (sv.exists (groupid_key gid) s) 1
      then cold
      else (sv.sismember (groupid_key gid) uid s, s)

  unfoldable pub friend_check : ℕ → ℕ → S → Bool × S
  unfolding contains
  friend_check uid friend s =
      let cold : Bool × S = elim (sv.select_friends uid s) [
        | none ↦ (false, s)
        | some firend_ids ↦ (contains friend firend_ids, (sv.sadd (friends_key uid) firend_ids s).1)
      ] in
      if ltb (sv.exists (friends_key uid) s) 1
      then cold
      else (sv.sismember (friends_key uid) friend s, s)

  unfoldable pub set_user : ℕ → User → S → Bool × S
  set_user uid user s = elim (sv.json_user user) [
    | none ↦ (false, s)
    | some value ↦ sv.set (userid_key uid) value s
  ]

  unfoldable pub get_user : ℕ → S → Option User
  get_user uid s = elim (sv.get (userid_key uid) s) [
    | none ↦ none
    | some value ↦ sv.unjson_user value
  ]
