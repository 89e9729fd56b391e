-- ===== src/Cluster/Retry.antt =====
-- What a loop of retries keeps (retry.RetryOnConflict, as `Retried` describes it).
use rca_lab.Base.{◌≡◌, refl}
use rca_lab.Cluster.Exec.{Error, Exec, Result, ok, err, Post}
use rca_lab.Cluster.Laws.{Retried, last, again}

module _ {W A : Type 0} (I : W → Type 0) (Q : A → W → Type 0) where
  -- The world that a conflict leaves behind still has what a failure keeps.
  broken :
      (r : Result A) (w : W) (e : Error)
      → r ≡ err e
      → ((a : A) (w' : W) → Q a w' → I w')
      → Post I Q (r, w)
      → I w
  broken (ok a) w e h weaken p = weaken a w p
  broken (err x) w e h weaken p = p

  -- A call that keeps `I` and leads to `Q` does so however often it is retried.
  pub Retried_lem :
      (m : Exec W A) {w : W} {out : Result A × W}
      → ((a : A) (w' : W) → Q a w' → I w')
      → ((w' : W) → I w' → Post I Q (m w'))
      → Retried m w out
      → I w
      → Post I Q out
  Retried_lem m weaken each (last w) i = each w i
  Retried_lem m weaken each (again w e failed kind rest) i =
      Retried_lem m weaken each rest (broken (m w).0 (m w).1 e failed weaken (each w i))

  pub Post-of : (r : Result A) (w : W) → I w → ((a : A) → r ≡ ok a → Q a w) → Post I Q (r, w)
  Post-of (ok a) w i q = q a refl
  Post-of (err e) w i q = i

module _ {W A : Type 0} (I : W → Type 0) where
  pub holds : (x : Result A × W) → Post I {A = A} (λ _ w. I w) x → I x.1
  holds (ok a, w) p = p
  holds (err e, w) p = p
