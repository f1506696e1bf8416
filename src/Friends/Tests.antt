-- ===== src/Friends/Tests.antt =====
-- Friendships at concrete inputs.
use zqim.Prelude.{◌≡◌, refl, arith, true, false, none, [], ◌∷◌}
use zqim.Prelude.Maps
use zqim.Cache.{contains, friend_check}
use zqim.Cache.Agrees.{On}
use zqim.Sql.{Table, friends, num_of}
use zqim.Sql.Samples.{Tables, gorm, rows, gorm-IsSql}
use zqim.Web.Samples.{Cache, redis, shared_services, shared}
use zqim.Web.{Web}
use zqim.Modle.Read.{friends_of}
use zqim.Modle.{get_friends}
use zqim.Sql.Laws.{holds}
use zqim.Friends.{friend_row, friend_rows, friend_add, store_friends}
use zqim.Friends.Outcome.{Ended, friend_add-Ended}
use zqim.Friends.Check.{friend_add-friend_check}
use zqim.Friends.Stale.{checked_between, friend_check-stale}

-- User 7 has the friend 8.
abbrev web : Web Tables Cache
web = record {
  db = λ t. elim t [ Table.friends ↦ friend_row 7 8 ∷ [] | _ ↦ [] ];
  opened = 0;
  cache = none;
  comits = record { comits = []; tcpserver = []; index = 0 };
  calls = [];
}

friend_add-Ended_example : Ended gorm redis 7 9 1 web (friend_add gorm redis 7 9 1 web)
friend_add-Ended_example = friend_add-Ended gorm redis 7 9 1 web

goes_well : (friend_add gorm redis 7 9 1 web).1 ≡ true
unfolding friend_add
goes_well = refl

friend_add-friend_check_example :
    let w' = (friend_add gorm redis 7 9 1 web).0 in
    ((friend_check shared_services 7 9 (w'.db, w'.cache)).0 ≡ true)
    × ((friend_check shared_services 9 7 (w'.db, w'.cache)).0 ≡ true)
friend_add-friend_check_example =
    friend_add-friend_check shared_services gorm redis rows gorm-IsSql shared 7 9 1 web goes_well
      refl refl

friend_check-stale_example :
    let w' = (checked_between shared_services gorm redis rows gorm-IsSql shared 7 9 1 web).0 in
    On 9 (friends_of 7 (rows friends w'.db))
    × ((friend_check shared_services 7 9 (w'.db, w'.cache)).0 ≡ false)
unfolding friends_of contains store_friends friend_rows friend_check num_of Maps.lookup get_friends
    holds
friend_check-stale_example =
    friend_check-stale shared_services gorm redis rows gorm-IsSql shared 7 9 1 web (omega arith)
      (omega arith) refl refl refl refl
