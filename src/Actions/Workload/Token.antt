-- ===== src/Actions/Workload/Token.antt =====
-- The revert token of a Workload action (workload.go), and its JSON.
use rca_lab.Base.{◌≡◌, refl, String, Option, none, some, if◌then◌else◌}
use rca_lab.Go.Json.{Json, str, obj, end, member, RawMessage, names, text_field, unmarshal}

pub record WorkloadToken : Type 0 where
  pub kind : String
  pub namespace : String
  pub name : String

unfoldable pub marshal : WorkloadToken → RawMessage
marshal t = some (
    obj (
      member "kind" (str t.kind)
        (member "namespace" (str t.namespace) (member "name" (str t.name) end))))

set_field : String → Json → WorkloadToken → Option WorkloadToken
set_field field j t =
    if names field "kind"
    then elim (text_field j t.kind) [ none ↦ none | some s ↦ some (record t { kind = s }) ]
    else if names field "namespace"
    then elim (text_field j t.namespace) [
      | none ↦ none
      | some s ↦ some (record t { namespace = s })
    ]
    else if names field "name"
    then elim (text_field j t.name) [ none ↦ none | some s ↦ some (record t { name = s }) ]
    else some t

abbrev blank : WorkloadToken
blank = record { kind = ""; namespace = ""; name = "" }

unfoldable pub unmarshal_token : RawMessage → Option WorkloadToken
unfolding set_field
unmarshal_token raw = unmarshal set_field raw blank

-- Every token survives writing and reading.
pub unmarshal-marshal : (t : WorkloadToken) → unmarshal_token (marshal t) ≡ some t
unfolding unmarshal_token marshal
unmarshal-marshal t = refl
