-- ===== src/Sql/Samples.antt =====
-- A database of lists, which has the properties that the models rely on.
use zqim.Prelude.{
  ℕ, ◌+◌, ◌≡◌, refl, ap, ◌∙◌, sym, arith, true, false, Option, none, some, List, [], ◌∷◌, ◌++◌,
  if◌then◌else◌, map, length, inl, inr, Bool-cases, string_eq,
}
use zqim.Prelude.Maps
use zqim.Sql.{Table, num, Row, Cond, where_all, Found, found, record_not_found, Gorm}
use zqim.Sql.Laws.{same_table, matches, reject, select, known, IsSql}

abbrev pub Tables : Type 0
Tables = Table → List Row

abbrev pub put : Table → List Row → Tables → Tables
put t rows d u = if same_table t u then rows else d u

abbrev first_match : List Cond → List Row → Found
first_match cs [] = record_not_found
first_match cs (row ∷ rows) = if matches cs row then found row else first_match cs rows

abbrev pub gorm : Gorm Tables
gorm = record {
  create =
      λ t row d. let i = length (d t) + 1 in some (i, put t (d t ++ (("id", num i) ∷ row) ∷ []) d);
  first = λ q d. first_match q.wheres (d q.table);
  scan = λ q d. (select (matches q.wheres) (d q.table), true);
  count = λ q d. length (select (matches q.wheres) (d q.table));
  delete = λ q d.
      if known q.table q.wheres
      then some (put q.table (reject (matches q.wheres) (d q.table)) d)
      else none;
  update = λ q c v d. some (
      put q.table
        (map (λ row. if matches q.wheres row then Maps.insert c v row else row) (d q.table)) d);
  exec = λ q d. some d;
  built_not_found = λ q d. false;
  commit = λ d. true;
}

abbrev pub rows : Table → Tables → List Row
rows t d = d t

put_self : (t : Table) (l : List Row) (d : Tables) → put t l d t ≡ l
put_self t l d = ground arith

put_other : (t u : Table) (l : List Row) (d : Tables) → same_table t u ≡ false → put t l d u ≡ d u
put_other t u l d n = rw n

abbrev result : Tables → Option Tables → Tables
result d none = d
result d (some d') = d'

abbrev second : Tables → Option (ℕ × Tables) → Tables
second d none = d
second d (some (i, d')) = d'

abbrev identity : Option (ℕ × Tables) → ℕ
identity none = 0
identity (some (i, d)) = i

deleted_put :
    (t u : Table) (cs : List Cond) (d d' : Tables)
    → gorm.delete (where_all t cs) d ≡ some d'
    → d' u ≡ put t (reject (matches cs) (d t)) d u
deleted_put t u cs d d' e = elim (Bool-cases (known t cs)) [
  | inl k ↦
      let f : gorm.delete (where_all t cs) d ≡ some (put t (reject (matches cs) (d t)) d) = rw k in
      ap (λ (o : Option Tables). result d o u) (sym e ∙ f)
  | inr k ↦ let f : gorm.delete (where_all t cs) d ≡ none = rw k in cc
]

pub gorm-IsSql : IsSql gorm rows
gorm-IsSql = record {
  created = λ t row d i d' e.
      ap (λ o. second d o t) (sym e)
      ∙ put_self t _ d
      ∙ ap (λ o. d t ++ (("id", num (identity o)) ∷ row) ∷ []) e;
  created_apart = λ t u row d i d' n e. ap (λ o. second d o u) (sym e) ∙ put_other t u _ d n;
  updated = λ t cs c v d d' pl e. ap (λ o. result d o t) (sym e) ∙ put_self t _ d;
  updated_apart = λ t u cs c v d d' n e. ap (λ o. result d o u) (sym e) ∙ put_other t u _ d n;
  deleted = λ t cs d d' pl e. deleted_put t t cs d d' e ∙ put_self t _ d;
  deleted_apart = λ t u cs d d' n e. deleted_put t u cs d d' e ∙ put_other t u _ d n;
  scanned = λ t cs d pl e. refl;
  unknown = λ t cs d n. rw n;
  built = λ q d. refl;
}
