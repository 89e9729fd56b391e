-- ===== src/Controller/Helpers/Validation.antt =====
-- Which specs `validateSpec` accepts (helpers.go).
use rca_lab.Base.{
  ◌≡◌, refl, ◌≢◌, ◌↔◌, true, false, String, List, [], ◌∷◌, ◌++◌, none, arith, eq_iff, ◌==◌, is_some,
  any, Option-cases, inl, inr, All, if◌then◌else◌,
}
use rca_lab.Types.{
  ActionType, workload, scale, deploy_image, chaos_mesh, db_exec, ActionSpec, MaintenanceJobSpec,
}
use rca_lab.Cluster.Exec.{is_ok}
use rca_lab.Actions.Action.{Action}
use rca_lab.Actions.Registry.{get}
use rca_lab.Controller.Helpers.{shape_error, action_error, validate_actions, validate_spec}

-- The types whose fields are set in an action.
abbrev pub set_fields : ActionSpec → List ActionType
set_fields a =
    (if is_some a.workload then workload ∷ [] else [])
    ++ ((if is_some a.scale then scale ∷ [] else [])
        ++ ((if is_some a.deploy_image then deploy_image ∷ [] else [])
            ++ ((if is_some a.chaos_mesh then chaos_mesh ∷ [] else [])
                ++ (if is_some a.db_exec then db_exec ∷ [] else []))))

-- Exactly the field that the type names is set.
abbrev pub IsShaped : ActionSpec → Type 0
IsShaped a = set_fields a ≡ a.type ∷ []

abbrev pub Differs : String → ActionSpec → Type 0
Differs name a = name ≢ a.name

abbrev pub Distinct : List ActionSpec → Type 0
Distinct [] = Unit
Distinct (a ∷ rest) = All (Differs a.name) rest × Distinct rest

shape_error_sound : (a : ActionSpec) → shape_error a ≡ none → IsShaped a
unfolding shape_error
shape_error_sound a h = ground arith

shape_error_complete : (a : ActionSpec) → IsShaped a → shape_error a ≡ none
unfolding shape_error
shape_error_complete a h = ground arith

module _ {W : Type 0} (registry : List (Action W)) where
  -- An action that no action before it (of the names `seen`) keeps from being accepted.
  abbrev Accepted : List String → ActionSpec → Type 0
  Accepted seen a =
      (any (λ n. n == a.name) seen ≡ false) × IsShaped a × (is_some (get a.type registry) ≡ true)

  action_sound :
      (seen : List String) (a : ActionSpec) → action_error registry seen a ≡ none → Accepted seen a
  unfolding action_error
  action_sound seen a h = ground (arith, shape_error_sound a)

  action_complete :
      (seen : List String) (a : ActionSpec) → Accepted seen a → action_error registry seen a ≡ none
  unfolding action_error
  action_complete seen a h = ground (arith, shape_error_complete a)

  -- What holds after the name of `a` was seen.
  unsee :
      (name : String) (seen : List String) (as' : List ActionSpec)
      → All (Accepted (name ∷ seen)) as'
      → All (Accepted seen) as' × All (Differs name) as'
  unsee name seen [] h = (tt, tt)
  unsee name seen (a ∷ rest) (p, h) =
      let (q, d) = unsee name seen rest h in
      (((ground arith, p.1, p.2), q), (ground (arith, eq_iff name a.name), d))

  see :
      (name : String) (seen : List String) (as' : List ActionSpec)
      → All (Accepted seen) as'
      → All (Differs name) as'
      → All (Accepted (name ∷ seen)) as'
  see name seen [] h d = tt
  see name seen (a ∷ rest) (p, h) (q, d) =
      ((ground (arith, eq_iff name a.name), p.1, p.2), see name seen rest h d)

  validate_actions_sound :
      (seen : List String) (as' : List ActionSpec)
      → is_ok (validate_actions registry seen as') ≡ true
      → All (Accepted seen) as' × Distinct as'
  unfolding validate_spec
  validate_actions_sound seen [] h = (tt, tt)
  validate_actions_sound seen (a ∷ rest) h = elim (Option-cases (action_error registry seen a)) [
    | inl e ↦
        let tail : is_ok (validate_actions registry (a.name ∷ seen) rest) ≡ true = ground arith in
        let (accepted, distinct) = validate_actions_sound (a.name ∷ seen) rest tail in
        let (below, differ) = unsee a.name seen rest accepted in
        ((action_sound seen a e, below), (differ, distinct))
    | inr (x, e) ↦ absurd (ground arith)
  ]

  validate_actions_complete :
      (seen : List String) (as' : List ActionSpec)
      → All (Accepted seen) as'
      → Distinct as'
      → is_ok (validate_actions registry seen as') ≡ true
  unfolding validate_spec
  validate_actions_complete seen [] h d = refl
  validate_actions_complete seen (a ∷ rest) (p, h) (q, d) = ground (
    arith,
    action_complete seen a p,
    validate_actions_complete (a.name ∷ seen) rest (see a.name seen rest h q) d,
  )

  abbrev pub IsKnown : ActionSpec → Type 0
  IsKnown a = IsShaped a × (is_some (get a.type registry) ≡ true)

  forget : (as' : List ActionSpec) → All (Accepted []) as' → All IsKnown as'
  forget [] h = tt
  forget (a ∷ rest) (p, h) = ((p.1, p.2), forget rest h)

  recall : (as' : List ActionSpec) → All IsKnown as' → All (Accepted []) as'
  recall [] h = tt
  recall (a ∷ rest) (p, h) = ((refl, p.0, p.1), recall rest h)

  -- A spec is accepted exactly if it has an action, the names of its actions differ pairwise, and
  -- each action sets exactly the field that its type names, with that type in the registry.
  pub validate_spec_iff :
      (spec : MaintenanceJobSpec)
      → (is_ok (validate_spec registry spec) ≡ true)
        ↔ ((spec.actions ≢ []) × Distinct spec.actions × All IsKnown spec.actions)
  unfolding validate_spec
  validate_spec_iff spec = (
    λ h.
        let valid : is_ok (validate_actions registry [] spec.actions) ≡ true = ground arith in
        let (accepted, distinct) = validate_actions_sound [] spec.actions valid in
        (ground arith, distinct, forget spec.actions accepted),
    λ h. ground (arith, validate_actions_complete [] spec.actions (recall spec.actions h.2) h.1),
  )
