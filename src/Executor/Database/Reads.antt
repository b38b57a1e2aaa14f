-- ===== src/Executor/Database/Reads.antt =====
-- SELECT reads: it changes neither the pages nor the tables.
use agent_db.Prelude.{
  ℕ, ◌≡◌, refl, ap, ◌∙◌, inl, inr, Bool-cases, Option-cases, List, map, ltb, length,
}
use agent_db.Outcome.{Outcome, ok, err, panic, deadlock}
use agent_db.Sql.Ast.{SelectStatement, JoinClause}
use agent_db.Sql.Text.{Bytes}
use agent_db.Storage.Disk.ReadBack.{Counted}
use agent_db.Storage.BufferPool.Invariant.{IsValid}
use agent_db.Storage.BufferPool.Fetch.{SameView-refl}
use agent_db.Storage.Value.{Floats}
use agent_db.Storage.Row.{TableSchema, Row}
use agent_db.Storage.Heap.Scan.{ReadOnly, ReadOnly-trans, scan_full-ReadOnly}
use agent_db.Executor.Present.{execute_join}
use agent_db.Executor.Database.{
  Database, Action, ◌>>=◌, then_call, done, lookup, Checked, fine, wrong, QueryResult, selected,
  or_failed, with_table, scan,
}
use agent_db.Executor.Database.Select.{
  Sort, select_rows, select_join, where_rows, result_columns, result_rows, projected, presented,
  cells, join_tables, row_values, select_one, select_from, execute_select,
}

-- the state with another pool, which gives a client the same pages
pub record Unchanged (db db' : Database) : Type 0 where
  pub pages : ReadOnly db.pool db'.pool
  pub rest : db' ≡ record db { pool = db'.pool }

abbrev Reads : {A : Type 0} → Action A → Type 0
Reads m = (db : Database) → IsValid db.pool → Counted db.pool.disk → Unchanged db (m db).1

pub Unchanged-refl : (db : Database) → IsValid db.pool → Unchanged db db
Unchanged-refl db v = record { pages = (v, SameView-refl db.pool); rest = refl }

pub Unchanged-trans : (a b c : Database) → Unchanged a b → Unchanged b c → Unchanged a c
Unchanged-trans a b c s t = record {
  pages = ReadOnly-trans a.pool b.pool c.pool s.pages.1 t.pages;
  rest = t.rest ∙ ap (λ (d : Database). record d { pool = c.pool }) s.rest;
}

then_call-Unchanged :
    {A B : Type 0} (db : Database) (r : Outcome A × Database) (f : A → Action B)
    → Counted db.pool.disk
    → Unchanged db r.1
    → ((a : A) → Reads (f a))
    → Unchanged db (then_call r f).1
then_call-Unchanged db (ok a, db') f c u rest =
    Unchanged-trans db db' (f a db').1 u (rest a db' u.pages.0 (u.pages.1.counted c).0)
then_call-Unchanged db (err e, db') f c u rest = u
then_call-Unchanged db (panic, db') f c u rest = u
then_call-Unchanged db (deadlock, db') f c u rest = u

then_call-Reads :
    {A B : Type 0} (m : Action A) (f : A → Action B)
    → Reads m
    → ((a : A) → Reads (f a))
    → Reads (m >>= f)
then_call-Reads m f h k db v c = then_call-Unchanged db (m db) f c (h db v c) k

module _ (K : Floats) (S : Sort) where
  scan-Reads : (fuel : ℕ) (schema : TableSchema) → Reads (scan K fuel schema)
  scan-Reads fuel schema db v c = record {
    pages = scan_full-ReadOnly K fuel schema db.pool v c;
    rest = refl;
  }

  or_failed-Reads :
      {A : Type 0} (a : Checked A) (next : A → Action (QueryResult K))
      → ((x : A) → Reads (next x))
      → Reads (or_failed K a next)
  or_failed-Reads (fine x) next h = h x
  or_failed-Reads (wrong e) next h = λ db v c. Unchanged-refl db v

  with_table-Reads :
      (name : Bytes) (next : TableSchema → Action (QueryResult K))
      → ((schema : TableSchema) → Reads (next schema))
      → Reads (with_table K name next)
  with_table-Reads name next h db v c = elim (Option-cases (lookup db.tables name)) [
    | inl e ↦ rw (e, with_table) (Unchanged-refl db v)
    | inr (schema, e) ↦ rw (e, with_table) (h schema db v c)
  ]

  select_rows-Reads :
      (schema : TableSchema) (stmt : SelectStatement) (rows : List (Row K))
      → Reads (select_rows K S schema stmt rows)
  unfolding select_rows
  select_rows-Reads schema stmt rows = elim (Bool-cases (ltb 0 (length stmt.aggregates))) [
    | inl e ↦ rw (e, select_rows) (λ db v c. Unchanged-refl db v)
    | inr e ↦
        rw (e, select_rows)
          (or_failed-Reads (result_columns K S schema stmt.columns)
            (projected K S (presented K S schema stmt rows))
            (λ columns db v c.
              then_call-Unchanged db (result_rows K S (presented K S schema stmt rows) columns, db)
                (λ cells. done (selected (map (λ (x : Bytes × ℕ). x.0) columns) cells)) c
                (Unchanged-refl db v) (λ cells d w k. Unchanged-refl d w)))
  ]

  select_join-Reads :
      (fuel : ℕ) (left : TableSchema) (stmt : SelectStatement) (clause : JoinClause)
      → Reads (select_join K S fuel left stmt clause)
  unfolding select_join
  select_join-Reads fuel left stmt clause = with_table-Reads clause.table _ (λ right.
      then_call-Reads (scan K fuel left) _ (scan-Reads fuel left) (λ left_rows.
        then_call-Reads (scan K fuel right) _ (scan-Reads fuel right) (λ right_rows. λ db v c.
          then_call-Unchanged db
            (
              execute_join (cells K S) (join_tables K S stmt.table left clause.table right) stmt
                  clause (row_values K S left_rows) (row_values K S right_rows),
              db,
            )
            (λ joined. done (selected joined.0 joined.1)) c (Unchanged-refl db v)
            (λ joined d w k. Unchanged-refl d w))))

  select_one-Reads :
      (fuel : ℕ) (stmt : SelectStatement) (schema : TableSchema)
      → Reads (select_one K S fuel stmt schema)
  select_one-Reads fuel stmt schema =
      then_call-Reads (scan K fuel schema) _ (scan-Reads fuel schema) (λ rows. λ db v c.
        then_call-Unchanged db (where_rows K S schema stmt.condition rows, db)
          (select_rows K S schema stmt) c (Unchanged-refl db v) (select_rows-Reads schema stmt))

  -- A SELECT, with or without a join, on a valid pool leaves every page as it is for a client of the
  -- pool, and the tables, the catalog and the indexes as they are.
  pub execute_select-Unchanged :
      (fuel : ℕ) (stmt : SelectStatement) (db : Database)
      → IsValid db.pool
      → Counted db.pool.disk
      → Unchanged db (execute_select K S fuel stmt db).1
  unfolding execute_select
  execute_select-Unchanged fuel stmt =
      with_table-Reads stmt.table (select_from K S fuel stmt) (λ schema.
        elim (Option-cases stmt.join) [
          | inl e ↦ rw (e, select_from) (select_one-Reads fuel stmt schema)
          | inr (clause, e) ↦ rw (e, select_from) (select_join-Reads fuel schema stmt clause)
        ])
