-- ===== src/Sql/Laws.antt =====
-- What the models rely on of gorm and MySQL: named properties of the operations over the rows of
-- each table.
use Prim.Native.String.{String}
use zqim.Prelude.{
  ℕ, ◌≡◌, Bool, true, false, ◌&&◌, Option, none, some, List, [], ◌∷◌, ◌++◌, ◌==◌, if◌then◌else◌,
  map, string_eq,
}
use zqim.Prelude.Maps
use zqim.Cache.{contains}
use zqim.Sql.{
  Table, users, friends, groupchats, notifies, groupchat_users, Value, num, txt, Row, Cond, eq,
  is_in, like, Query, where_all, Gorm, columns, num_of,
}

abbrev code : Table → ℕ
code users = 0
code friends = 1
code groupchats = 2
code notifies = 3
code groupchat_users = 4

abbrev pub same_table : Table → Table → Bool
same_table t u = code t == code u

abbrev pub same_text : List ℕ → List ℕ → Bool
same_text [] [] = true
same_text [] (y ∷ ys) = false
same_text (x ∷ xs) [] = false
same_text (x ∷ xs) (y ∷ ys) = (x == y) && same_text xs ys

abbrev pub same_value : Value → Value → Bool
same_value (num m) (num n) = m == n
same_value (txt s) (txt t) = same_text s t
same_value (num m) (txt t) = false
same_value (txt s) (num n) = false

abbrev has_value : Value → Option Value → Bool
has_value v none = false
has_value v (some w) = same_value w v

-- Whether a row meets a condition; what LIKE matches is not read here.
unfoldable pub holds : Cond → Row → Bool
unfolding contains num_of
holds (eq c v) row = has_value v (Maps.lookup c row)
holds (is_in c ns) row = contains (num_of c row) ns
holds (like c s) row = false

abbrev pub matches : List Cond → Row → Bool
matches [] row = true
matches (c ∷ cs) row = holds c row && matches cs row

abbrev pub reject : (Row → Bool) → List Row → List Row
reject p [] = []
reject p (row ∷ rows) = if p row then reject p rows else row ∷ reject p rows

abbrev pub select : (Row → Bool) → List Row → List Row
select p [] = []
select p (row ∷ rows) = if p row then row ∷ select p rows else select p rows

-- No condition is a LIKE.
abbrev pub is_plain : List Cond → Bool
is_plain [] = true
is_plain (eq c v ∷ cs) = is_plain cs
is_plain (is_in c ns ∷ cs) = is_plain cs
is_plain (like c s ∷ cs) = false

abbrev pub column_of : Cond → String
column_of (eq c v) = c
column_of (is_in c ns) = c
column_of (like c s) = c

abbrev pub has_column : String → List String → Bool
has_column c [] = false
has_column c (d ∷ ds) = if string_eq.beq d c then true else has_column c ds

unfoldable pub known : Table → List Cond → Bool
unfolding columns
known t [] = true
known t (c ∷ cs) = has_column (column_of c) (columns t) && known t cs

-- `rows t d` are the rows of a table, in the order of their ids, without the times that gorm keeps
-- in created_at and updated_at.
pub record IsSql {D : Type 0} (gm : Gorm D) (rows : Table → D → List Row) : Type 0 where
  pub created :
      (t : Table) (row : Row) (d : D) (i : ℕ) (d' : D)
      → gm.create t row d ≡ some (i, d')
      → rows t d' ≡ rows t d ++ (("id", num i) ∷ row) ∷ []
  pub created_apart :
      (t u : Table) (row : Row) (d : D) (i : ℕ) (d' : D)
      → same_table t u ≡ false
      → gm.create t row d ≡ some (i, d')
      → rows u d' ≡ rows u d
  -- UPDATE changes the rows that meet all the conditions, every row if there is none
  pub updated :
      (t : Table) (cs : List Cond) (c : String) (v : Value) (d d' : D)
      → is_plain cs ≡ true
      → gm.update (where_all t cs) c v d ≡ some d'
      → rows t d' ≡ map (λ row. if matches cs row then Maps.insert c v row else row) (rows t d)
  pub updated_apart :
      (t u : Table) (cs : List Cond) (c : String) (v : Value) (d d' : D)
      → same_table t u ≡ false
      → gm.update (where_all t cs) c v d ≡ some d'
      → rows u d' ≡ rows u d
  pub deleted :
      (t : Table) (cs : List Cond) (d d' : D)
      → is_plain cs ≡ true
      → gm.delete (where_all t cs) d ≡ some d'
      → rows t d' ≡ reject (matches cs) (rows t d)
  pub deleted_apart :
      (t u : Table) (cs : List Cond) (d d' : D)
      → same_table t u ≡ false
      → gm.delete (where_all t cs) d ≡ some d'
      → rows u d' ≡ rows u d
  -- Scan reads the rows that meet all the conditions
  pub scanned :
      (t : Table) (cs : List Cond) (d : D)
      → is_plain cs ≡ true
      → (gm.scan (where_all t cs) d).1 ≡ true
      → (gm.scan (where_all t cs) d).0 ≡ select (matches cs) (rows t d)
  -- a condition on a column that the table does not have is an error
  pub unknown :
      (t : Table) (cs : List Cond) (d : D)
      → known t cs ≡ false
      → gm.delete (where_all t cs) d ≡ none
  -- RecordNotFound looks for ErrRecordNotFound among the errors of a query; one that has not run
  -- has none
  pub built : (q : Query) (d : D) → gm.built_not_found q d ≡ false
