-- ===== src/Executor/Transaction/DatabaseEngine.antt =====
-- pkg/executor/executor.go: the interface of a transaction filled by the statements of the executor.
-- A transaction is active when its methods call Execute, which then does not flush.
use agent_db.Prelude.{true, none}
use agent_db.Outcome.{Outcome}
use agent_db.Storage.BufferPool.{flush_all}
use agent_db.Storage.Value.{Floats}
use agent_db.Executor.Database.{Database, QueryResult, affected}
use agent_db.Executor.Database.Select.{Sort}
use agent_db.Executor.Database.Execute.{Setting, execute}
use agent_db.Executor.Transaction.{Reply, ok, err, stops, in_query, Engine}

-- what a method of the transaction sees of a call
abbrev pub reply {ℓ} : {A : Type ℓ} → Outcome A → Reply A
reply (Outcome.ok a) = ok a
reply (Outcome.err e) = err in_query
reply Outcome.panic = stops
reply Outcome.deadlock = stops

module _ (K : Floats) (S : Sort) (env : Setting) where
  abbrev pub in_tx : Setting
  in_tx = record env { in_transaction = true }

  abbrev pub database_engine : Engine
  database_engine = record {
    State = Database;
    QueryResult = QueryResult K;
    pending = affected 0 none;
    execute = λ db query. let r = execute K S in_tx query db in (reply r.0, r.1);
    flush_all = λ db. let r = flush_all db.pool in (reply r.0, record db { pool = r.1 });
  }
