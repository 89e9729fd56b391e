-- ===== src/Controller/Invariant/Names.antt =====
-- No name stands twice in a list of records, whatever the changes of the list do (helpers.go
-- `findActiveAction`, `statusMutation`).
use rca_lab.Base.{
  ◌≡◌, ◌≢◌, ◌==◌, arith, eq_iff, Bool-cases, inl, inr, String, List, [], ◌∷◌, ◌++◌, none, All,
}
use rca_lab.Types.{ActiveAction}
use rca_lab.Controller.Helpers.{find_active_action, update_active, remove_active}
use rca_lab.Controller.Delete.Release.{AllDiffer}

abbrev Absent : String → List ActiveAction → Type 0
Absent name list = All (λ b. name ≢ b.name) list

-- Appending a record of a new name.
Absent-append :
    (name : String) (list : List ActiveAction) (a : ActiveAction)
    → Absent name list
    → name ≢ a.name
    → Absent name (list ++ a ∷ [])
Absent-append name [] a h d = (d, tt)
Absent-append name (b ∷ list) a (p, h) d = (p, Absent-append name list a h d)

pub AllDiffer-append :
    (list : List ActiveAction) (a : ActiveAction)
    → AllDiffer list
    → find_active_action list a.name ≡ none
    → AllDiffer (list ++ a ∷ [])
unfolding find_active_action
AllDiffer-append [] a h f = (tt, tt)
AllDiffer-append (b ∷ list) a (p, h) f = (
  Absent-append b.name list a p (ground (arith, eq_iff b.name a.name)),
  AllDiffer-append list a h (ground arith),
)

-- Changing a record but for its name.
abbrev pub KeepsName : (ActiveAction → ActiveAction) → Type 0
KeepsName f = (a : ActiveAction) → (f a).name ≡ a.name

Absent-update_active :
    (name other : String) (f : ActiveAction → ActiveAction) (list : List ActiveAction)
    → KeepsName f
    → Absent other list
    → Absent other (update_active name f list)
unfolding update_active
Absent-update_active name other f [] k h = tt
Absent-update_active name other f (b ∷ list) k (p, h) = elim (Bool-cases (b.name == name)) [
  | inl e ↦ rw e (rw (k b) p, h)
  | inr e ↦ rw e (p, Absent-update_active name other f list k h)
]

pub AllDiffer-update_active :
    (name : String) (f : ActiveAction → ActiveAction) (list : List ActiveAction)
    → KeepsName f
    → AllDiffer list
    → AllDiffer (update_active name f list)
unfolding update_active
AllDiffer-update_active name f [] k h = tt
AllDiffer-update_active name f (b ∷ list) k (p, h) = elim (Bool-cases (b.name == name)) [
  | inl e ↦ rw e (rw (k b) p, h)
  | inr e ↦
      rw e (Absent-update_active name b.name f list k p, AllDiffer-update_active name f list k h)
]

-- Removing a record.
Absent-remove_active :
    (name other : String) (list : List ActiveAction)
    → Absent other list
    → Absent other (remove_active name list)
unfolding remove_active
Absent-remove_active name other [] h = tt
Absent-remove_active name other (b ∷ list) (p, h) = elim (Bool-cases (b.name == name)) [
  | inl e ↦ rw e h
  | inr e ↦ rw e (p, Absent-remove_active name other list h)
]

pub AllDiffer-remove_active :
    (name : String) (list : List ActiveAction)
    → AllDiffer list
    → AllDiffer (remove_active name list)
unfolding remove_active
AllDiffer-remove_active name [] h = tt
AllDiffer-remove_active name (b ∷ list) (p, h) = elim (Bool-cases (b.name == name)) [
  | inl e ↦ rw e h
  | inr e ↦ rw e (Absent-remove_active name b.name list p, AllDiffer-remove_active name list h)
]
