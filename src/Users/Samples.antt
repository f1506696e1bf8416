-- ===== src/Users/Samples.antt =====
-- A database with one account.
use zqim.Prelude.{ℕ, [], ◌∷◌}
use zqim.Sql.{Table, Row, num, txt}
use zqim.Sql.Samples.{Tables}
use zqim.Web.{Web}
use zqim.Users.{LoginInput}

-- User 42, with the name "u" and the password "p".
abbrev pub row : Row
row = ("id", num 42) ∷ ("username", txt (b'u' ∷ [])) ∷ ("passwd", txt (b'p' ∷ [])) ∷ []

abbrev pub web : Web Tables ℕ
web = record {
  db = λ t. elim t [ Table.users ↦ row ∷ [] | _ ↦ [] ];
  opened = 0;
  cache = 0;
  comits = record { comits = []; tcpserver = "a" ∷ "b" ∷ []; index = 0 };
  calls = [];
}

abbrev pub parm : LoginInput
parm = record { username = b'u' ∷ []; passwd = b'p' ∷ [] }
