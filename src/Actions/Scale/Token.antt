-- ===== src/Actions/Scale/Token.antt =====
-- The revert token of a Scale action (scale.go), and its JSON.
use rca_lab.Base.{◌≡◌, String, Option, none, some, arith, if◌then◌else◌}
use rca_lab.Base.Int.{ℤ, pos, negsuc, ◌≤ℤ◌}
use rca_lab.Go.Json.{
  Json, num, str, obj, end, member, RawMessage, names, text_field, int32_field, unmarshal,
}

pub record ScaleToken : Type 0 where
  pub kind : String
  pub namespace : String
  pub name : String
  pub previous_replicas : ℤ

unfoldable pub marshal : ScaleToken → RawMessage
marshal t = some (
    obj (
      member "kind" (str t.kind) (
        member "namespace" (str t.namespace)
          (member "name" (str t.name) (member "previousReplicas" (num t.previous_replicas) end)))))

set_field : String → Json → ScaleToken → Option ScaleToken
set_field field j t =
    if names field "kind"
    then elim (text_field j t.kind) [ none ↦ none | some s ↦ some (record t { kind = s }) ]
    else if names field "namespace"
    then elim (text_field j t.namespace) [
      | none ↦ none
      | some s ↦ some (record t { namespace = s })
    ]
    else if names field "name"
    then elim (text_field j t.name) [ none ↦ none | some s ↦ some (record t { name = s }) ]
    else if names field "previousReplicas"
    then elim (int32_field j t.previous_replicas) [
      | none ↦ none
      | some n ↦ some (record t { previous_replicas = n })
    ]
    else some t

abbrev blank : ScaleToken
blank = record { kind = ""; namespace = ""; name = ""; previous_replicas = pos 0 }

unfoldable pub unmarshal_token : RawMessage → Option ScaleToken
unfolding set_field
unmarshal_token raw = unmarshal set_field raw blank

-- A token whose replica count is an int32 survives writing and reading.
pub unmarshal-marshal :
    (t : ScaleToken)
    → negsuc 2_147_483_647 ≤ℤ t.previous_replicas
    → t.previous_replicas ≤ℤ pos 2_147_483_647
    → unmarshal_token (marshal t) ≡ some t
unfolding unmarshal_token marshal
unmarshal-marshal t lo hi = ground arith
