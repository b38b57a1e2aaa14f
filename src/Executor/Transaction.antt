-- ===== src/Executor/Transaction.antt =====
-- pkg/executor/executor.go: transactions. Execute and the flush of the buffer pool are an interface
-- over the state of the database, which Transaction/DatabaseEngine.antt fills. The mutex makes every
-- method one step; logs are left out.
pub mod Runs
pub mod DatabaseEngine
use agent_db.Prelude.{ℕ, Bool, true, false, not, List, [], ◌∷◌, ◌++◌, if◌then◌else◌}
use agent_db.Sql.Text.{Bytes}

pub data TxError : Type 0 where
  already_active not_active : TxError
  in_query in_flush : TxError

-- `stops` is a call that does not return
pub data Reply {ℓ} (A : Type ℓ) : Type ℓ where
  ok : A → Reply A
  err : TxError → Reply A
  stops : Reply A

-- Execute and FlushAll, with the error that their signatures have; `QueryResult` is what Execute gives
-- back, for a failing query too, and `pending` the result of a queued query
pub record Engine : Type 1 where
  pub State : Type 0
  pub QueryResult : Type 0
  pub pending : QueryResult
  pub execute : State → Bytes → Reply QueryResult × State
  pub flush_all : State → Reply (Unit {0}) × State

module _ (E : Engine) where
  open E use {State, QueryResult, pending, execute, flush_all}

  pub record Executor : Type 0 where
    pub database : State
    pub in_transaction : Bool
    pub tx_queries : List Bytes
    pub tx_results : List QueryResult

  unfoldable pub begin_transaction : Executor → Reply (Unit {0}) × Executor
  begin_transaction e =
      if e.in_transaction
      then (err already_active, e)
      else (ok tt, record e { in_transaction = true; tx_queries = []; tx_results = [] })

  -- the fields that an end of the transaction resets when it fails
  abbrev pub reset : Executor → Executor
  reset e = record e { in_transaction = false; tx_queries = []; tx_results = [] }

  -- the body of the loop of Commit, behind the call of Execute
  abbrev pub query_done :
      Executor
      → (Executor → Reply (Unit {0}) × Executor)
      → Reply QueryResult × State
      → Reply (Unit {0}) × Executor
  query_done e loop (ok result, database) =
      loop (record e { database = database; tx_results = e.tx_results ++ result ∷ [] })
  query_done e loop (err x, database) = (err in_query, reset (record e { database = database }))
  query_done e loop (stops, database) = (stops, record e { database = database })

  -- the loop of Commit over the queries
  unfoldable pub commit_queries : List Bytes → Executor → Reply (Unit {0}) × Executor
  commit_queries [] e = (ok tt, e)
  commit_queries (q ∷ qs) e = query_done e (commit_queries qs) (execute e.database q)

  -- the end of Commit, behind the call of FlushAll
  abbrev pub flush_done : Executor → Reply (Unit {0}) × State → Reply (Unit {0}) × Executor
  flush_done e (ok _, database) =
      (ok tt, record e { database = database; in_transaction = false; tx_queries = [] })
  flush_done e (err x, database) = (err in_flush, reset (record e { database = database }))
  flush_done e (stops, database) = (stops, record e { database = database })

  -- Commit behind its loop
  abbrev pub commit_flush : Reply (Unit {0}) × Executor → Reply (Unit {0}) × Executor
  commit_flush (ok _, e) = flush_done e (flush_all e.database)
  commit_flush (err x, e) = (err x, e)
  commit_flush (stops, e) = (stops, e)

  unfoldable pub commit : Executor → Reply (Unit {0}) × Executor
  commit e =
      if not e.in_transaction
      then (err not_active, e)
      else commit_flush (commit_queries e.tx_queries e)

  unfoldable pub rollback : Executor → Reply (Unit {0}) × Executor
  rollback e = if not e.in_transaction then (err not_active, e) else (ok tt, reset e)

  unfoldable pub execute_in_tx : Executor → Bytes → Reply QueryResult × Executor
  execute_in_tx e query =
      if not e.in_transaction
      then (err not_active, e)
      else (ok pending, record e { tx_queries = e.tx_queries ++ query ∷ [] })

  -- ExecuteInTxWithResult behind the call of Execute
  abbrev pub executed : Executor → Bytes → Reply QueryResult × State → Reply QueryResult × Executor
  executed e query (ok result, database) = (
    ok result,
    record e {
      database = database;
      tx_queries = e.tx_queries ++ query ∷ [];
      tx_results = e.tx_results ++ result ∷ [];
    },
  )
  executed e query (err x, database) = (err x, record e { database = database })
  executed e query (stops, database) = (stops, record e { database = database })

  unfoldable pub execute_in_tx_with_result : Executor → Bytes → Reply QueryResult × Executor
  execute_in_tx_with_result e query =
      if not e.in_transaction
      then (err not_active, e)
      else executed e query (execute e.database query)
