-- ===== src/Groups/Tests.antt =====
-- Groups at concrete inputs: a database of lists, and a cache that deletes every key.
use zqim.Prelude.{ℕ, ◌≡◌, refl, false, Option, none, some, [], ◌∷◌}
use zqim.Prelude.Maps
use zqim.Sql.{columns, Table, Row, num, num_of}
use zqim.Sql.Laws.{holds, known}
use zqim.Cache.{contains, group_mebers_check}
use zqim.Sql.Samples.{Tables, gorm, rows, gorm-IsSql}
use zqim.Web.{Web, Redis}
use zqim.Groups.{removemembers, member_row, quit_group}
use zqim.Groups.Api.{InvitationParm, removemembers_handler, invitation_handler}
use zqim.Groups.Removed.{removemembers-group_mebers_check}
use zqim.Web.Samples
use zqim.Groups.Quit.{OwnerQuit, quit_group-OwnerQuit}
use zqim.Groups.Unchecked.{removemembers_handler-invitation_handler}

abbrev redis : Redis ℕ
redis = record {
  get = λ k r. none;
  del = λ k r. some r;
  unjson_user = λ b. record { uid = 0; srvname = "" };
}

-- Group 1 is user 7's, who is in it with user 8; group 2 is user 9's.
abbrev first_group : Row
first_group = ("id", num 1) ∷ ("owner", num 7) ∷ []

abbrev web : Web Tables ℕ
web = record {
  db = λ t. elim t [
    | Table.groupchats ↦ first_group ∷ (("id", num 2) ∷ ("owner", num 9) ∷ []) ∷ []
    | Table.groupchat_users ↦ member_row 1 7 ∷ member_row 1 8 ∷ member_row 2 9 ∷ []
    | _ ↦ []
  ];
  opened = 0;
  cache = 0;
  comits = record { comits = []; tcpserver = []; index = 0 };
  calls = [];
}

quit_group-OwnerQuit_example :
    OwnerQuit gorm redis rows gorm-IsSql 1 7 web (quit_group gorm redis 1 7 web)
unfolding num_of Maps.lookup holds
quit_group-OwnerQuit_example =
    quit_group-OwnerQuit gorm redis rows gorm-IsSql 1 7 first_group web refl refl

abbrev parm : Option InvitationParm
parm = some (record { group_id = 1; members = 7 ∷ 8 ∷ [] })

removemembers_handler-invitation_handler_example :
    (removemembers_handler gorm redis 5 parm web ≡ removemembers_handler gorm redis 7 parm web)
    × (invitation_handler gorm redis 5 parm web ≡ invitation_handler gorm redis 7 parm web)
removemembers_handler-invitation_handler_example =
    removemembers_handler-invitation_handler gorm redis rows gorm-IsSql 5 7 parm web

abbrev shared_web : Web Tables Samples.Cache
shared_web = record {
  db = web.db;
  opened = 0;
  cache = some (7 ∷ 8 ∷ []);
  comits = web.comits;
  calls = [];
}

goes_well : (removemembers gorm Samples.redis 1 7 (8 ∷ []) shared_web).1 ≡ none
unfolding removemembers known columns
goes_well = refl

removemembers-group_mebers_check_example :
    let w' = (removemembers gorm Samples.redis 1 7 (8 ∷ []) shared_web).0 in
    (group_mebers_check Samples.shared_services 1 8 (w'.db, w'.cache)).0 ≡ false
unfolding contains
removemembers-group_mebers_check_example =
    removemembers-group_mebers_check Samples.shared_services gorm Samples.redis rows gorm-IsSql
      Samples.shared 1 7 8 (8 ∷ []) shared_web goes_well refl refl
