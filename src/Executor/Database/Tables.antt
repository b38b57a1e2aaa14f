-- ===== src/Executor/Database/Tables.antt =====
-- CREATE TABLE: the tables and the catalog.
use agent_db.Prelude.{ℕ, ◌≡◌, refl, ap, ◌∙◌, true, false, none, some, List, [], ◌∷◌, arith}
use agent_db.Outcome.{Outcome, ok}
use agent_db.Sql.Text.{Bytes, same}
use agent_db.Sql.Ast.{CreateTableStatement}
use agent_db.Storage.Value.{Floats}
use agent_db.Storage.Row.{ColumnDef, TableSchema}
use agent_db.Executor.Database.{
  lookup, Database, table_exists, save_failed, unknown_type, QueryResult, failed, affected,
}
use agent_db.Executor.Database.Create.{create_columns}

pub same_refl : (s : Bytes) → same s s ≡ true
unfolding same
same_refl [] = refl
same_refl (c ∷ s) = ground (arith, same_refl s)

pub same_eq : (s t : Bytes) → same s t ≡ true → s ≡ t
unfolding same
same_eq [] [] h = refl
same_eq [] (d ∷ t) h = absurd (ground (arith, h))
same_eq (c ∷ s) [] h = absurd (ground (arith, h))
same_eq (c ∷ s) (d ∷ t) h =
    let first : c ≡ d = ground (arith, h) in
    let rest : same s t ≡ true = ground (arith, h) in
    ap (λ (n : ℕ). n ∷ s) first ∙ ap (λ (l : Bytes). d ∷ l) (same_eq s t rest)

module _ (K : Floats) where
  -- The ends of CREATE TABLE, with the state that they leave.
  pub data Creating (stmt : CreateTableStatement) (db : Database)
      : Outcome (QueryResult K) × Database → Type 0 where
    no_type : create_columns stmt.columns ≡ none → Creating stmt db (ok (failed unknown_type), db)
    there_already :
        (old : TableSchema)
        → lookup db.schemas stmt.table ≡ some old
        → Creating stmt db (ok (failed table_exists), db)
    not_saved :
        (db' : Database) (columns : List ColumnDef)
        → create_columns stmt.columns ≡ some columns
        → lookup db.schemas stmt.table ≡ none
        → lookup db'.schemas stmt.table ≡ some (record { name = stmt.table; columns = columns })
        → ((name : Bytes)
            → same stmt.table name ≡ false
            → lookup db'.schemas name ≡ lookup db.schemas name)
        → db' ≡ record db { schemas = db'.schemas }
        → Creating stmt db (ok (failed save_failed), db')
    created :
        (db' : Database) (columns : List ColumnDef)
        → create_columns stmt.columns ≡ some columns
        → lookup db.schemas stmt.table ≡ none
        → lookup db'.schemas stmt.table ≡ some (record { name = stmt.table; columns = columns })
        → lookup db'.tables stmt.table ≡ some (record { name = stmt.table; columns = columns })
        → ((name : Bytes)
            → same stmt.table name ≡ false
            → lookup db'.tables name ≡ lookup db.tables name)
        → ((name : Bytes)
            → same stmt.table name ≡ false
            → lookup db'.schemas name ≡ lookup db.schemas name)
        → Creating stmt db (ok (affected 1 none), db')
