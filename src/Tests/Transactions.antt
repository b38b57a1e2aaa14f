-- ===== src/Tests/Transactions.antt =====
-- Transactions over the executor, and over a toy database: its state is the number of executed queries, and a query of one
-- byte does not return.
use agent_db.Prelude.{ℕ, ◌+◌, ◌≡◌, refl, true, false, none, List, [], ◌∷◌, ◌++◌}
use agent_db.Sql.Text.{Bytes, codes, same, to_upper, contains}
use agent_db.Sql.Lexer.{lex, tokenize, lex_one, lex_string, span, word_token, keyword_list}
use agent_db.Sql.Tokens.{skip, name, kind_is}
use agent_db.Sql.Change.{parse_drop}
use agent_db.Sql.Parse.{parse, parse_statement}
use agent_db.Storage.Disk.{open_disk}
use agent_db.Storage.BufferPool.{new_buffer_pool, flush_all, flush_frames}
use agent_db.Executor.Database.{lookup, QueryResult, failed, affected, no_table}
use agent_db.Executor.Database.Create.{execute_drop}
use agent_db.Executor.Database.Execute.{execute_statement, finish, execute}
use agent_db.Executor.Transaction.DatabaseEngine.{database_engine}
use agent_db.Tests.Heaps.{toy as floats}
use agent_db.Tests.Databases.{unsorted, setting, database}
use agent_db.Executor.Transaction.{
  Engine, Executor, Reply, ok, stops, begin_transaction, commit, rollback,
  execute_in_tx_with_result,
}
use agent_db.Executor.Transaction.Runs.{
  Runs, done, step, state, queue, commit-queue, rollback-queue, commit-execute_in_tx_with_result,
}

abbrev run : ℕ → Bytes → Reply ℕ × ℕ
run d (c ∷ []) = (stops, d)
run d _ = (ok (d + 10), d + 1)

abbrev toy : Engine
toy = record { State = ℕ; QueryResult = ℕ; pending = 0; execute = run; flush_all = λ d. (ok tt, d) }

abbrev idle : Executor toy
idle = state toy 5 false [] []

abbrev two : List Bytes
two = [] ∷ (1 ∷ 2 ∷ []) ∷ []

two-Runs : Runs toy 5 two (15 ∷ 16 ∷ []) 7
two-Runs = step refl (step refl done)

-- the executor itself: the first query fails, and Commit goes on
abbrev engine : Engine
engine = database_engine floats unsorted setting

abbrev two_drops : List Bytes
two_drops = codes "DROP TABLE u" ∷ codes "DROP TABLE IF EXISTS u" ∷ []

abbrev drop_results : List (QueryResult floats)
drop_results = failed no_table ∷ affected 0 none ∷ []

abbrev idle_executor : Executor engine
idle_executor = state engine database false [] []

two_drops-Runs : Runs engine database two_drops drop_results database
unfolding execute execute_statement execute_drop finish lookup parse lex tokenize lex_one lex_string
    span word_token keyword_list parse_statement skip name kind_is parse_drop same to_upper contains
two_drops-Runs = step refl (step refl done)

drops_flushed : engine.flush_all database ≡ (ok tt, database)
unfolding flush_all flush_frames new_buffer_pool open_disk
drops_flushed = refl

commit-queue_example :
    ((queue engine two_drops (begin_transaction engine idle_executor).1).database ≡ database)
    × (commit engine (queue engine two_drops (begin_transaction engine idle_executor).1)
        ≡ (ok tt, state engine database false [] drop_results))
commit-queue_example =
    commit-queue engine idle_executor two_drops drop_results database database refl two_drops-Runs
      drops_flushed

rollback-queue_example :
    rollback toy (queue toy two (begin_transaction toy idle).1) ≡ (ok tt, state toy 5 false [] [])
rollback-queue_example = rollback-queue toy idle two refl

commit-execute_in_tx_with_result_example :
    commit toy (execute_in_tx_with_result toy (state toy 5 true ([] ∷ []) (9 ∷ [])) []).1
    ≡ (ok tt, state toy 8 false [] ((9 ∷ 15 ∷ []) ++ 16 ∷ 17 ∷ []))
commit-execute_in_tx_with_result_example =
    commit-execute_in_tx_with_result toy 5 6 8 8 ([] ∷ []) (9 ∷ []) (16 ∷ 17 ∷ []) [] 15 refl
      (step refl (step refl done)) refl
