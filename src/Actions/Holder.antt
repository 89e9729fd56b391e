-- ===== src/Actions/Holder.antt =====
-- The lock on a mutated Deployment: the annotation "<scenario>/<runID>" (action.go, scale.go,
-- deployimage.go).
use Prim.Native.Char.{Char, code}
use text.Mathlib.TextLemmas.{append_assoc, append-ne-nil_of_right_ne-nil, cons-append, cons-ne-nil}
use rca_lab.Base.{
  ◌≡◌, sym, ◌∙◌, ◌≢◌, inl, inr, Bool, Bool-cases, false, not, ◌&&◌, String, ◌<>◌, arith, ◌==ℕ◌,
  ◌==◌, starts_with, starts_with_iff, eq_iff, if◌then◌else◌,
}
use rca_lab.Actions.Action.{RunContext}

-- `cur != "" && !strings.HasPrefix(cur, rc.ScenarioName+"/")`
unfoldable pub is_foreign : RunContext → String → Bool
is_foreign rc cur = not (cur == "") && not (starts_with cur (rc.scenario_name <> "/"))

abbrev pub hold : RunContext → String
hold rc = rc.scenario_name <> ("/" <> rc.run_id)

-- `name, _, _ := strings.Cut(cur, "/")`
unfoldable pub before_slash : String → String
before_slash String.[] = ""
before_slash (String.◌∷◌ c s) = if code c ==ℕ 47 then "" else String.◌∷◌ c (before_slash s)

-- The lock of a run is not foreign to its scenario.
pub hold-own : (rc : RunContext) → is_foreign rc (hold rc) ≡ false
unfolding is_foreign
hold-own rc = ground (
  arith,
  (starts_with_iff (hold rc) (rc.scenario_name <> "/")).1
      (rc.run_id, append_assoc rc.scenario_name "/" rc.run_id),
)

pub hold-ne-empty : (rc : RunContext) → (hold rc == "") ≡ false
hold-ne-empty rc = elim (Bool-cases (hold rc == "")) [
  | inl e ↦ absurd (
      append-ne-nil_of_right_ne-nil rc.scenario_name {t = "/" <> rc.run_id} slash
        ((eq_iff (hold rc) "").0 e))
  | inr e ↦ e
]
  where
    slash : "/" <> rc.run_id ≢ ""
    slash h = let c : Char = "/" in cons-ne-nil c _ (sym (cons-append c "" rc.run_id) ∙ h)
