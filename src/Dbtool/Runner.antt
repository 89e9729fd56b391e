-- ===== src/Dbtool/Runner.antt =====
-- dbtool's checks, its one-off mode and its workers (operator/internal/dbtool/dbtool.go).
pub mod Once
use rca_lab.Base.{
  ℕ, zero, suc, ◌+◌, Bool, true, false, ◌||◌, ◌==◌, String, ◌<>◌, List, [], ◌∷◌, is_empty, Option,
  none, some, if◌then◌else◌,
}
use rca_lab.Base.Int.{ℤ}
use rca_lab.Base.Text.{show_ℕ, quote}
use rca_lab.Go.Duration.{Duration}
use rca_lab.Cluster.Exec.{
  Error, errorf, wrap, Exec, Result, ok, err, pure, fail, observe, ◌>>=◌, ◌>>◌,
}

pub record Options : Type 0 where
  pub engine : String
  pub interval : Duration
  pub concurrency : ℤ
  pub deadline : Duration
  pub once : Bool
  pub queries : List String

-- What dbtool calls: database/sql with its drivers, and the context of the signals and the deadline.
pub record Database : Type 1 where
  pub World : Type 0
  pub open_db : String → String → Exec World (Unit {0})
  pub acquire : Exec World (Unit {0})
  -- a statement on the connection that was acquired; the value is the rows affected, if that is known
  pub exec : String → Exec World (Option ℤ)
  -- a query, with the number of rows read and the error that ended them, if one did
  pub query : String → Exec World (ℕ × Option Error)
  -- `ctx.Err() != nil`
  pub is_done : World → Bool × World
  -- waits so long, or until the context is done: then `true`
  pub wait : Duration → World → Bool × World

-- What was found in order: the driver and the DSN.
pub record Checked : Type 0 where
  pub driver : String
  pub dsn : String

-- The checks of `Run` before the database is opened, in the code's order.
unfoldable pub check : Options → String → Result Checked
check o database_url =
    if (o.engine == "postgres") || (o.engine == "mysql")
    then (if is_empty o.queries
        then err (errorf "at least one --query is required")
        else if database_url == ""
        then err (errorf "DATABASE_URL environment variable is required")
        else ok (record { driver = o.engine; dsn = database_url }))
    else err (errorf ("--engine must be postgres or mysql, got " <> quote o.engine))

module _ (D : Database) where
  open D use {World, open_db, acquire, exec, query, is_done, wait}

  wrapped : {A : Type 0} → String → Result A → Exec World A
  wrapped prefix (ok a) = pure a
  wrapped prefix (err e) = fail (wrap prefix e)

  -- The statements from the one of that number on; the first failure ends the loop.
  unfoldable pub run_statements : ℕ → List String → Exec World (Unit {0})
  unfolding wrapped
  run_statements n [] = pure tt
  run_statements n (q ∷ rest) =
      observe (exec q) (wrapped ("statement " <> (show_ℕ n <> " failed")))
      >> run_statements (suc n) rest

  unfoldable pub run_once : List String → Exec World (Unit {0})
  unfolding wrapped
  run_once queries = observe acquire (wrapped "acquire connection") >> run_statements 1 queries

  -- `runQuery`: the rows, or the error that ended them.
  rows_or_error : ℕ × Option Error → Exec World ℕ
  rows_or_error (n, none) = pure n
  rows_or_error (n, some e) = fail e

  unfoldable pub run_query : String → Exec World ℕ
  unfolding rows_or_error
  run_query q = query q >>= rows_or_error

  -- A query of an iteration, whose error is only logged, or the end of the worker.
  ran : Bool → (World → Bool × World) → String → World → Bool × World
  ran true again q w = (true, w)
  ran false again q w = again (run_query q w).1

  -- One iteration over the queries: whether the context was done before one of them.
  unfoldable pub run_batch : List String → World → Bool × World
  unfolding ran
  run_batch [] w = (false, w)
  run_batch (q ∷ rest) w = let (stopped, w') = is_done w in ran stopped (run_batch rest) q w'

  waited : Bool → (World → Bool × World) → World → Bool × World
  waited true again w = (true, w)
  waited false again w = again w

  paused : Bool → Duration → (World → Bool × World) → World → Bool × World
  unfolding waited
  paused true interval again w = (true, w)
  paused false interval again w = let (stopped, w') = wait interval w in waited stopped again w'

  -- A worker for at most so many iterations, and whether it has returned by then.
  unfoldable pub run_worker : ℕ → List String → Duration → World → Bool × World
  unfolding paused
  run_worker zero queries interval w = (false, w)
  run_worker (suc iterations) queries interval w =
      let (stopped, w') = run_batch queries w in
      paused stopped interval (run_worker iterations queries interval) w'

  checked_run : Result Checked → Options → Exec World (Unit {0})
  unfolding wrapped
  checked_run (err e) o = fail e
  checked_run (ok c) o =
      observe (open_db c.driver c.dsn) (wrapped "open database") >> run_once o.queries

  -- `Run` in its one-off mode.
  unfoldable pub run_one_off : Options → String → Exec World (Unit {0})
  unfolding checked_run
  run_one_off o database_url = checked_run (check o database_url) o
