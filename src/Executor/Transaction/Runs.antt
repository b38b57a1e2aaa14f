-- ===== src/Executor/Transaction/Runs.antt =====
-- What a transaction does to the database.
use agent_db.Prelude.{
  ◌≡◌, refl, sym, ap, ◌∙◌, Bool, true, false, List, [], ◌∷◌, ◌++◌, append_assoc, append-nil,
}
use agent_db.Sql.Text.{Bytes}
use agent_db.Executor.Transaction.{
  Engine, Executor, ok, begin_transaction, commit_queries, commit_flush, commit, rollback,
  execute_in_tx, execute_in_tx_with_result, query_done, flush_done, executed,
}

module _ (E : Engine) where
  open E use {State, QueryResult, pending, execute, flush_all}

  -- the queries executed one after another, each with a result, which may be an ERROR result
  pub data Runs : State → List Bytes → List QueryResult → State → Type 0 where
    done : {d : State} → Runs d [] [] d
    step :
        {d d1 d2 : State} {q : Bytes} {qs : List Bytes} {r : QueryResult} {rs : List QueryResult}
        → execute d q ≡ (ok r, d1)
        → Runs d1 qs rs d2
        → Runs d (q ∷ qs) (r ∷ rs) d2

  abbrev pub state : State → Bool → List Bytes → List QueryResult → Executor E
  state d active queued results = record {
    database = d;
    in_transaction = active;
    tx_queries = queued;
    tx_results = results;
  }

  run_queries :
      {d d' : State} {qs : List Bytes} {rs : List QueryResult} (queued : List Bytes)
      (before : List QueryResult)
      → Runs d qs rs d'
      → commit_queries E qs (state d true queued before)
        ≡ (ok tt, state d' true queued (before ++ rs))
  unfolding commit_queries
  run_queries {d = d} queued before done =
      ap (λ results. (ok tt, state d true queued results)) (sym (append-nil before))
  run_queries {d = d} {d' = d'} queued before (step {d1 = d1} {qs = qs} {r = r} {rs = rs} e run) =
      ap (query_done E (state d true queued before) (commit_queries E qs)) e
      ∙ (run_queries queued (before ++ r ∷ []) run
          ∙ ap (λ results. (ok tt, state d' true queued results)) (append_assoc before (r ∷ []) rs))

  -- queueing the queries of a list
  unfoldable pub queue : List Bytes → Executor E → Executor E
  queue [] e = e
  queue (q ∷ qs) e = queue qs (execute_in_tx E e q).1

  queue_queries :
      (qs : List Bytes) (d : State) (queued : List Bytes) (rs : List QueryResult)
      → queue qs (state d true queued rs) ≡ state d true (queued ++ qs) rs
  unfolding queue execute_in_tx
  queue_queries [] d queued rs = ap (λ all. state d true all rs) (sym (append-nil queued))
  queue_queries (q ∷ qs) d queued rs =
      queue_queries qs d (queued ++ q ∷ []) rs
      ∙ ap (λ all. state d true all rs) (append_assoc queued (q ∷ []) qs)

  begun :
      (e : Executor E)
      → e.in_transaction ≡ false
      → (begin_transaction E e).1 ≡ state e.database true [] []
  unfolding begin_transaction
  begun e idle = rw idle refl

  -- A transaction of queued queries that all return a result, which for a failing query of Execute is
  -- an ERROR result, followed by a flush that succeeds: Commit succeeds, the database is what the queries make of it one after another, then flushed, the
  -- results are theirs in order, and no transaction is active. Before Commit nothing was executed.
  pub commit-queue :
      (e : Executor E) (qs : List Bytes) (rs : List QueryResult) (d1 d2 : State)
      → e.in_transaction ≡ false
      → Runs e.database qs rs d1
      → flush_all d1 ≡ (ok tt, d2)
      → ((queue qs (begin_transaction E e).1).database ≡ e.database)
        × (commit E (queue qs (begin_transaction E e).1) ≡ (ok tt, state d2 false [] rs))
  unfolding commit
  commit-queue e qs rs d1 d2 idle run flushed =
      let at = begun e idle in
      let queued = queue_queries qs e.database [] [] in
      (
        ap (λ (x : Executor E). (queue qs x).database) at
            ∙ ap (λ (x : Executor E). x.database) queued,
        ap (λ (x : Executor E). commit E (queue qs x)) at
            ∙ ap (λ (x : Executor E). commit E x) queued
            ∙ ap (commit_flush E) (run_queries qs [] run)
            ∙ ap (flush_done E (state d1 true qs rs)) flushed,
      )

  -- Rollback of queued queries succeeds and leaves the database as it was before the transaction.
  pub rollback-queue :
      (e : Executor E) (qs : List Bytes)
      → e.in_transaction ≡ false
      → rollback E (queue qs (begin_transaction E e).1) ≡ (ok tt, state e.database false [] [])
  unfolding rollback
  rollback-queue e qs idle =
      ap (λ (x : Executor E). rollback E (queue qs x)) (begun e idle)
      ∙ ap (λ (x : Executor E). rollback E x) (queue_queries qs e.database [] [])

  -- A query given to ExecuteInTxWithResult in a transaction, which may have queued queries and results
  -- before, is executed at once, and Commit executes all of the queue on the database that this left,
  -- with the same query again at its end: if these return, and the flush succeeds, Commit succeeds, and
  -- the results are those before, that of the first execution, and those of the whole queue.
  pub commit-execute_in_tx_with_result :
      (d d1 d2 d3 : State) (queued : List Bytes) (before rs : List QueryResult) (q : Bytes)
      (r : QueryResult)
      → execute d q ≡ (ok r, d1)
      → Runs d1 (queued ++ q ∷ []) rs d2
      → flush_all d2 ≡ (ok tt, d3)
      → commit E (execute_in_tx_with_result E (state d true queued before) q).1
        ≡ (ok tt, state d3 false [] ((before ++ r ∷ []) ++ rs))
  unfolding commit execute_in_tx_with_result
  commit-execute_in_tx_with_result d d1 d2 d3 queued before rs q r once run flushed =
      let all = queued ++ q ∷ [] in
      ap (λ x. commit E (executed E (state d true queued before) q x).1) once
      ∙ ap (commit_flush E) (run_queries all (before ++ r ∷ []) run)
      ∙ ap (flush_done E (state d2 true all ((before ++ r ∷ []) ++ rs))) flushed
