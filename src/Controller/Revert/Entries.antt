-- ===== src/Controller/Revert/Entries.antt =====
-- The names, types and tokens of the recorded actions, as the revert takes the last one away
-- (maintenancejob_controller.go `reconcileRevert`, helpers.go `removeActive`).
use rca_lab.Base.{
  ◌≡◌, ◌≢◌, refl, ap, arith, eq_iff, ◌==◌, suc, Bool-cases, inl, inr, List, [], ◌∷◌, All, length,
}
use rca_lab.Types.{ActiveAction}
use rca_lab.Cluster.Laws.{Entry, tokens}
use rca_lab.Controller.Helpers.{remove_active}
use rca_lab.Controller.Revert.{last_of}

-- All but the last.
abbrev pub drop_last : List Entry → List Entry
drop_last [] = []
drop_last (a ∷ []) = []
drop_last (a ∷ (b ∷ rest)) = a ∷ drop_last (b ∷ rest)

abbrev pub Distinct : List Entry → Type 0
Distinct [] = Unit
Distinct (a ∷ rest) = All (λ (b : Entry). a.0 ≢ b.0) rest × Distinct rest

pub All-drop_last : (P : Entry → Type 0) (list : List Entry) → All P list → All P (drop_last list)
All-drop_last P [] h = tt
All-drop_last P (a ∷ []) h = tt
All-drop_last P (a ∷ (b ∷ rest)) (p, h) = (p, All-drop_last P (b ∷ rest) h)

pub Distinct-drop_last : (list : List Entry) → Distinct list → Distinct (drop_last list)
Distinct-drop_last [] h = tt
Distinct-drop_last (a ∷ []) h = tt
Distinct-drop_last (a ∷ (b ∷ rest)) (p, h) =
    (All-drop_last (λ b. a.0 ≢ b.0) (b ∷ rest) p, Distinct-drop_last (b ∷ rest) h)

pub length-drop_last :
    (a : Entry) (list : List Entry) → suc (length (drop_last (a ∷ list))) ≡ length (a ∷ list)
length-drop_last a [] = refl
length-drop_last a (b ∷ list) = ap suc (length-drop_last b list)

pub last_of-All :
    (P : Entry → Type 0) (a : ActiveAction) (rest : List ActiveAction)
    → All P (tokens (a ∷ rest))
    → P ((last_of a rest).name, (last_of a rest).type, (last_of a rest).revert)
last_of-All P a [] (p, h) = p
last_of-All P a (b ∷ rest) (p, h) = last_of-All P b rest h

-- The record of the last action's name is the last one.
pub tokens-remove_active :
    (a : ActiveAction) (rest : List ActiveAction)
    → Distinct (tokens (a ∷ rest))
    → tokens (remove_active (last_of a rest).name (a ∷ rest)) ≡ drop_last (tokens (a ∷ rest))
unfolding remove_active
tokens-remove_active a [] d = ground (arith, eq_iff a.name a.name)
tokens-remove_active a (b ∷ rest) (p, d) =
    let ne = last_of-All (λ (q : Entry). a.name ≢ q.0) b rest p in
    elim (Bool-cases (a.name == (last_of b rest).name)) [
      | inl h ↦ absurd (ne ((eq_iff a.name (last_of b rest).name).0 h))
      | inr h ↦ rw h (ap (λ t. (a.name, a.type, a.revert) ∷ t) (tokens-remove_active b rest d))
    ]

pub moved : (P : List Entry → Type 0) (K J : List Entry) → K ≡ J → P J → P K
moved P K J e p = rw e p
