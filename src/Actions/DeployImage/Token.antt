-- ===== src/Actions/DeployImage/Token.antt =====
-- The revert token of a DeployImage action (deployimage.go), and its JSON.
use rca_lab.Base.{◌≡◌, refl, String, Option, none, some, if◌then◌else◌}
use rca_lab.Go.Json.{Json, str, obj, end, member, RawMessage, names, text_field, unmarshal}

pub record DeployImageToken : Type 0 where
  pub kind : String
  pub namespace : String
  pub name : String
  pub container : String
  pub good_image : String
  pub bad_image : String

unfoldable pub marshal : DeployImageToken → RawMessage
marshal t = some (
    obj (
      member "kind" (str t.kind) (
        member "namespace" (str t.namespace) (
          member "name" (str t.name) (
            member "container" (str t.container)
              (member "goodImage" (str t.good_image) (member "badImage" (str t.bad_image) end)))))))

set_field : String → Json → DeployImageToken → Option DeployImageToken
set_field field j t =
    if names field "kind"
    then elim (text_field j t.kind) [ none ↦ none | some s ↦ some (record t { kind = s }) ]
    else if names field "namespace"
    then elim (text_field j t.namespace) [
      | none ↦ none
      | some s ↦ some (record t { namespace = s })
    ]
    else if names field "name"
    then elim (text_field j t.name) [ none ↦ none | some s ↦ some (record t { name = s }) ]
    else if names field "container"
    then elim (text_field j t.container) [
      | none ↦ none
      | some s ↦ some (record t { container = s })
    ]
    else if names field "goodImage"
    then elim (text_field j t.good_image) [
      | none ↦ none
      | some s ↦ some (record t { good_image = s })
    ]
    else if names field "badImage"
    then elim (text_field j t.bad_image) [
      | none ↦ none
      | some s ↦ some (record t { bad_image = s })
    ]
    else some t

abbrev blank : DeployImageToken
blank = record {
  kind = "";
  namespace = "";
  name = "";
  container = "";
  good_image = "";
  bad_image = "";
}

unfoldable pub unmarshal_token : RawMessage → Option DeployImageToken
unfolding set_field
unmarshal_token raw = unmarshal set_field raw blank

-- Every token survives writing and reading.
pub unmarshal-marshal : (t : DeployImageToken) → unmarshal_token (marshal t) ≡ some t
unfolding unmarshal_token marshal
unmarshal-marshal t = refl
