-- ===== src/Dbtool/Runner/Once.antt =====
-- What the one-off mode has run when it ends (operator/internal/dbtool/dbtool.go).
use rca_lab.Base.{◌≡◌, refl, ℕ, suc, String, ◌<>◌, List, [], ◌∷◌, ◌++◌, length, Option, ◌+◌, arith}
use rca_lab.Base.Int.{ℤ}
use rca_lab.Base.Text.{show_ℕ}
use rca_lab.Cluster.Exec.{Error, wrap, Result, ok, err, continue}
use rca_lab.Dbtool.Runner.{Database, wrapped, run_statements}

-- The statements that were run from a world, each of which succeeded.
pub data Succeeded (D : Database) : List String → D.World → D.World → Type 0 where
  none_left : {w : D.World} → Succeeded D [] w w
  one_more :
      {q : String} {qs : List String} {w v : D.World} (rows : Option ℤ)
      → (D.exec q w).0 ≡ ok rows
      → Succeeded D qs (D.exec q w).1 v
      → Succeeded D (q ∷ qs) w v

-- The statements before the first that failed succeeded, and none was run after it.
pub data Outcome (D : Database) (n : ℕ)
    : List String → D.World → Result (Unit {0}) × D.World → Type 0 where
  all_ran : {qs : List String} {w v : D.World} → Succeeded D qs w v → Outcome D n qs w (ok tt, v)
  failed :
      (before : List String) (q : String) (after : List String) {w v : D.World} {e : Error} (m : ℕ)
      → Succeeded D before w v
      → (D.exec q v).0 ≡ err e
      → m ≡ n + length before
      → Outcome D n
          (before ++ (q ∷ after))
          w
          (err (wrap ("statement " <> (show_ℕ m <> " failed")) e), (D.exec q v).1)

module _ (D : Database) where
  one_more-Outcome :
      (n : ℕ) (q : String) (qs : List String) (rows : Option ℤ) {w : D.World}
      {out : Result (Unit {0}) × D.World}
      → (D.exec q w).0 ≡ ok rows
      → Outcome D (suc n) qs (D.exec q w).1 out
      → Outcome D n (q ∷ qs) w out
  one_more-Outcome n q qs rows h (all_ran s) = all_ran (one_more rows h s)
  one_more-Outcome n q _ rows h (failed before p after m s e k) =
      failed (q ∷ before) p after m (one_more rows h s) e (omega (arith, k))

  statement-Outcome :
      (n : ℕ) (q : String) (rest : List String) (r : Result (Option ℤ)) (w : D.World)
      → (D.exec q w).0 ≡ r
      → ((v : D.World) → Outcome D (suc n) rest v (run_statements D (suc n) rest v))
      → Outcome D n (q ∷ rest) w (
          continue
            (wrapped D ("statement " <> (show_ℕ n <> " failed")) r (D.exec q w).1).0
            (λ _. run_statements D (suc n) rest)
            (wrapped D ("statement " <> (show_ℕ n <> " failed")) r (D.exec q w).1).1)
  unfolding wrapped
  statement-Outcome n q rest (ok rows) w h next = one_more-Outcome n q rest rows h (next _)
  statement-Outcome n q rest (err e) w h next = failed [] q rest n none_left h (omega arith)

  -- The one-off statements run in order up to the first that fails, which no other follows: either
  -- all succeeded, or those before it did and the error names its place, counted from the number of
  -- the first statement.
  pub run_statements-Outcome :
      (n : ℕ) (queries : List String) (w : D.World)
      → Outcome D n queries w (run_statements D n queries w)
  unfolding run_statements
  run_statements-Outcome n [] w = all_ran none_left
  run_statements-Outcome n (q ∷ rest) w =
      statement-Outcome n q rest _ w refl (run_statements-Outcome (suc n) rest)
