-- ===== src/Sql.antt =====
-- The database of logic/database as logic/models sees it through gorm: queries as they are built,
-- and gorm's operations, which are parameters. A struct is written as a row, column by column.
pub mod Laws
pub mod Samples
use Prim.Native.String.{String}
use zqim.Prelude.{ℕ, ◌+◌, ◌-◌, Bool, Option, none, some, List, [], ◌∷◌, string_eq}
use zqim.Prelude.Maps
use zqim.Services.{Piece}

pub data Table : Type 0 where
  users friends groupchats notifies groupchat_users : Table

pub data Value : Type 0 where
  num : ℕ → Value
  txt : List ℕ → Value

abbrev pub Row : Type 0
Row = List (String × Value)

-- A field of a struct that a row was read into: the zero value where there is no such column.
abbrev number : Option Value → ℕ
number (some (num n)) = n
number (some (txt s)) = 0
number none = 0

abbrev bytes : Option Value → List ℕ
bytes (some (num n)) = []
bytes (some (txt s)) = s
bytes none = []

unfoldable pub num_of : String → Row → ℕ
num_of c row = number (Maps.lookup c row)

unfoldable pub txt_of : String → Row → List ℕ
txt_of c row = bytes (Maps.lookup c row)

pub data Cond : Type 0 where
  eq : String → Value → Cond
  is_in : String → List ℕ → Cond
  like : String → List ℕ → Cond

pub record Query : Type 0 where
  pub table : Table
  pub wheres : List Cond
  pub joins : Option String
  pub limit : Option ℕ
  pub offset : Option ℕ

abbrev pub where_all : Table → List Cond → Query
where_all t cs = record { table = t; wheres = cs; joins = none; limit = none; offset = none }

-- First: a row, ErrRecordNotFound or another error.
pub data Found : Type 0 where
  found : Row → Found
  record_not_found : Found
  failed : Found

-- gorm over a database of type `D`. `none` is an error, with which nothing has changed. `create`
-- gives the new row's id. `built_not_found` is RecordNotFound on a query that is built and never
-- run; `commit` is whether Commit goes well.
pub record Gorm (D : Type 0) : Type 0 where
  pub create : Table → Row → D → Option (ℕ × D)
  pub first : Query → D → Found
  pub scan : Query → D → List Row × Bool
  pub count : Query → D → ℕ
  pub delete : Query → D → Option D
  pub update : Query → String → Value → D → Option D
  pub exec : List Piece → D → Option D
  pub built_not_found : Query → D → Bool
  pub commit : D → Bool

-- The columns that gorm makes of the fields of the structs, with those of BaseModel.
unfoldable pub columns : Table → List String
columns users =
    "id" ∷ "created_at" ∷ "updated_at" ∷ "nickname" ∷ "username" ∷ "passwd" ∷ "sex" ∷ "head_image"
    ∷ "expl" ∷ "last" ∷ "lastip" ∷ []
columns friends = "id" ∷ "created_at" ∷ "updated_at" ∷ "userid" ∷ "friendid" ∷ []
columns groupchats =
    "id" ∷ "created_at" ∷ "updated_at" ∷ "group_name" ∷ "notice" ∷ "owner" ∷ "avatar" ∷ "status"
    ∷ []
columns notifies =
    "id" ∷ "created_at" ∷ "updated_at" ∷ "sender" ∷ "receive" ∷ "greet" ∷ "status" ∷ []
columns groupchat_users = "id" ∷ "created_at" ∷ "updated_at" ∷ "groupid" ∷ "userid" ∷ []
