-- ===== src/Executor/Database/Durable.antt =====
-- Execute: what a statement changed is on the disk when it returns.
use agent_db.Prelude.{ℕ, ◌≡◌, refl, ap, ◌∙◌, false}
use agent_db.Outcome.{ok}
use agent_db.Sql.Text.{Bytes}
use agent_db.Sql.Text
use agent_db.Sql.Ast.{Statement}
use agent_db.Sql.Parse.{parse}
use agent_db.Storage.Disk.ReadBack.{IsPlain}
use agent_db.Storage.BufferPool.Invariant.{IsValid, view, disk_bytes}
use agent_db.Storage.BufferPool.Flush.{flush_all_durable}
use agent_db.Storage.Value.{Floats}
use agent_db.Executor.Database.{Database, QueryResult}
use agent_db.Executor.Database.Select.{Sort}
use agent_db.Executor.Database.Execute.{
  Setting, execute_statement, is_select, is_failed, finish, flushed, parsed, execute,
}

module _ (K : Floats) (S : Sort) (env : Setting) where
  open env use {fuel, in_transaction}

  finish-flushed :
      (r : QueryResult K) (db : Database)
      → in_transaction ≡ false
      → is_failed K S env r ≡ false
      → finish K S env false (ok r, db) ≡ (ok r, flushed K S env db)
  unfolding finish
  finish-flushed r db no_tx fine = rw (no_tx, finish) (rw fine refl)

  -- Outside a transaction, a statement other than SELECT that leaves a valid pool and gives no error is
  -- on the disk when Execute returns it, if no write to the file fails: every page is there as the
  -- statement left it.
  pub execute-durable :
      (query : Bytes) (stmt : Statement) (db db' : Database) (r : QueryResult K)
      → parse fuel query ≡ Text.ok stmt
      → is_select K S env stmt ≡ false
      → in_transaction ≡ false
      → execute_statement K S env stmt db ≡ (ok r, db')
      → is_failed K S env r ≡ false
      → IsValid db'.pool
      → ((k : ℕ) → db'.pool.disk.file.write_fails k ≡ false)
      → ((execute K S env query db).0 ≡ ok r)
        × ((id : ℕ)
            → IsPlain id
            → disk_bytes (execute K S env query db).1.pool.disk id ≡ view db'.pool id)
  unfolding execute
  execute-durable query stmt db db' r syntax writes no_tx runs fine v sound =
      let result : execute K S env query db ≡ (ok r, flushed K S env db') =
        ap (λ p. parsed K S env p db) syntax
        ∙ ap (λ b. finish K S env b (execute_statement K S env stmt db)) writes
        ∙ ap (finish K S env false) runs
        ∙ finish-flushed r db' no_tx fine in
      let (bp, e, there) = flush_all_durable db'.pool v sound in
      (
        ap (λ p. p.0) result,
        λ id plain.
            ap (λ p. disk_bytes p.1.pool.disk id) result
            ∙ ap (λ p. disk_bytes p.1.disk id) e
            ∙ there id plain,
      )
