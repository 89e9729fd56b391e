-- ===== src/Actions/ChaosMesh/Lifetime.antt =====
-- How long a chaos object lives, and whose it is (chaosmesh.go).
use rca_lab.Base.{
  ◌≡◌, ◌≢◌, true, false, String, some, none, arith, ◌==◌, inl, inr, ◌⊎◌, Option, if◌then◌else◌,
}
use rca_lab.Go.Json.{str, obj, Json, Members, end, member, RawMessage}
use rca_lab.Cluster.Exec.{ok, err, is_not_found, Result-cases, Error}
use rca_lab.Cluster.Objects.{Chaos}
use rca_lab.Cluster.Env.{Env}
use rca_lab.Actions.Action.{RunContext, Progress}
use rca_lab.Actions.ChaosMesh.{chaos_owner, chaos_duration, target, revert, revert_chaos}
use rca_lab.Actions.ChaosMesh.Token.{ChaosMeshToken, unmarshal_token}

-- The value of a member.
abbrev pub member_of : String → Members → Option Json
member_of k end = none
member_of k (member j v rest) = if j == k then some v else member_of k rest

-- The members of the spec that the action gives; it may leave the spec out.
abbrev pub given_members : Option RawMessage → Members
given_members (some (some (obj ms))) = ms
given_members _ = end

-- The duration that was given, or the run's.
abbrev pub duration_or_run : RunContext → Option Json → Json
duration_or_run rc none = str (chaos_duration rc.run_duration)
duration_or_run rc (some v) = v

-- The members of a spec that was given, with the duration.
abbrev pub Timed : RunContext → Members → Members → Type 0
Timed rc ms spec =
    (member_of "duration" spec ≡ some (duration_or_run rc (member_of "duration" ms)))
    × ((k : String) → k ≢ "duration" → member_of k spec ≡ member_of k ms)

-- A revert of a ChaosMesh action reports done only where its object is not there or belongs to
-- another owner.
pub revert-lingering :
    (E : Env) (rc : RunContext) (raw : RawMessage) (t : ChaosMeshToken) (w : E.World) (p : Progress)
    → unmarshal_token raw ≡ some t
    → (revert E rc raw w).0 ≡ ok p
    → p.done ≡ true
    → ((e : Error) × ((E.get_chaos t.kind (target t) w).0 ≡ err e) × (is_not_found e ≡ true))
      ⊎ ((object : Chaos) × ((E.get_chaos t.kind (target t) w).0 ≡ ok object)
          × ((chaos_owner object == rc.scenario_name) ≡ false))
unfolding revert revert_chaos
revert-lingering E rc raw t w p h r d = elim (Result-cases (E.get_chaos t.kind (target t) w).0) [
  | inl (object, g) ↦ inr (object, g, ground arith)
  | inr (e, g) ↦ inl (e, g, ground arith)
]
