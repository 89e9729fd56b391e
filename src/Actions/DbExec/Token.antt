-- ===== src/Actions/DbExec/Token.antt =====
-- The revert token of a DBExec action (dbexec.go), and its JSON. Empty lists are left out.
use rca_lab.Base.{◌≡◌, refl, String, List, [], ◌∷◌, Option, none, some, if◌then◌else◌, ap}
use rca_lab.Go.Json.{
  Json, str, arr, obj, Items, nil, item, Members, end, member, RawMessage, names, items, texts,
  text_items, elements, text_field, texts_field, values_field, fields, unmarshal,
}
use rca_lab.Types.{EnvVar}

pub record DbExecToken : Type 0 where
  pub namespace : String
  pub engine : String
  pub ensure_name : String
  pub revert_name : String
  pub env : List EnvVar
  pub revert : List String

abbrev unless_empty : String → Items → Members → Members
unless_empty key nil rest = rest
unless_empty key (item j js) rest = member key (arr (item j js)) rest

unfoldable pub marshal : DbExecToken → RawMessage
marshal t = some (
    obj (
      member "namespace" (str t.namespace) (
        member "engine" (str t.engine) (
          member "ensureName" (str t.ensure_name) (
            member "revertName" (str t.revert_name)
              (unless_empty "env" (items t.env) (unless_empty "revert" (texts t.revert) end)))))))

set_field : String → Json → DbExecToken → Option DbExecToken
set_field field j t =
    if names field "namespace"
    then elim (text_field j t.namespace) [
      | none ↦ none
      | some s ↦ some (record t { namespace = s })
    ]
    else if names field "engine"
    then elim (text_field j t.engine) [ none ↦ none | some s ↦ some (record t { engine = s }) ]
    else if names field "ensureName"
    then elim (text_field j t.ensure_name) [
      | none ↦ none
      | some s ↦ some (record t { ensure_name = s })
    ]
    else if names field "revertName"
    then elim (text_field j t.revert_name) [
      | none ↦ none
      | some s ↦ some (record t { revert_name = s })
    ]
    else if names field "env"
    then elim (values_field j t.env) [ none ↦ none | some v ↦ some (record t { env = v }) ]
    else if names field "revert"
    then elim (texts_field j t.revert) [ none ↦ none | some v ↦ some (record t { revert = v }) ]
    else some t

abbrev blank : DbExecToken
blank = record {
  namespace = "";
  engine = "";
  ensure_name = "";
  revert_name = "";
  env = [];
  revert = [];
}

unfoldable pub unmarshal_token : RawMessage → Option DbExecToken
unfolding set_field
unmarshal_token raw = unmarshal set_field raw blank

elements-items : (js : List EnvVar) → elements (items js) ≡ js
elements-items [] = refl
elements-items (j ∷ js) = ap (λ r. j ∷ r) (elements-items js)

text_items-texts : (ss : List String) → text_items (texts ss) ≡ some ss
text_items-texts [] = refl
text_items-texts (s ∷ ss) = rw (text_items-texts ss) refl

abbrev filled : String → String → String → String → List EnvVar → List String → DbExecToken
filled namespace engine ensure_name revert_name env revert = record {
  namespace = namespace;
  engine = engine;
  ensure_name = ensure_name;
  revert_name = revert_name;
  env = env;
  revert = revert;
}

-- The two lists that follow the texts.
read_lists :
    (n e x r : String) (env : List EnvVar) (revert : List String)
    → fields set_field
        (unless_empty "env" (items env) (unless_empty "revert" (texts revert) end))
        (filled n e x r [] [])
      ≡ some (filled n e x r env revert)
unfolding unmarshal_token
read_lists n e x r [] [] = refl
read_lists n e x r [] (s ∷ ss) = rw (text_items-texts ss) refl
read_lists n e x r (j ∷ js) [] = rw (elements-items js) refl
read_lists n e x r (j ∷ js) (s ∷ ss) = rw (text_items-texts ss, elements-items js) refl

-- Every token survives writing and reading, the lists that are left out when empty included.
pub unmarshal-marshal : (t : DbExecToken) → unmarshal_token (marshal t) ≡ some t
unfolding unmarshal_token marshal
unmarshal-marshal t = read_lists t.namespace t.engine t.ensure_name t.revert_name t.env t.revert
