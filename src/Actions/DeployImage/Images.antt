-- ===== src/Actions/DeployImage/Images.antt =====
-- The images of a Deployment's containers, and its annotations (deployimage.go).
use rca_lab.Base.{
  ◌≡◌, refl, String, List, [], ◌∷◌, none, some, false, ◌==◌, eq_iff, arith, starts_with,
  starts_with_iff, sym, inl, inr, Bool-cases,
}
use rca_lab.Base.Dict.{Dict, lookup, insert, erase, erase-insert}
use rca_lab.Cluster.Objects.{Container}
use rca_lab.Actions.Action.{held_by_annotation}
use rca_lab.Actions.DeployImage.{container_image, set_image, known_good, known_good_prefix}

-- The image that was set is read back, where the container is there.
pub container_image-set_image :
    (name x y : String) (cs : List Container)
    → container_image name cs ≡ some x
    → container_image name (set_image name y cs) ≡ some y
unfolding container_image set_image
container_image-set_image name x y [] h = absurd (ground arith)
container_image-set_image name x y (c ∷ cs) h =
    ground (arith, container_image-set_image name x y cs)

-- Setting the old image again undoes a change.
pub set_image-set_image :
    (name x y : String) (cs : List Container)
    → container_image name cs ≡ some x
    → set_image name x (set_image name y cs) ≡ cs
unfolding container_image set_image
set_image-set_image name x y [] h = refl
set_image-set_image name x y (c ∷ cs) h = ground (arith, set_image-set_image name x y cs)

-- No container's marker is the lock.
pub known_good-held_by : (name : String) → (held_by_annotation == known_good name) ≡ false
known_good-held_by name = elim (Bool-cases (held_by_annotation == known_good name)) [
  | inl e ↦
      let same = (eq_iff held_by_annotation (known_good name)).0 e in
      absurd (
        ground
          (arith, off, (starts_with_iff held_by_annotation known_good_prefix).1 (name, sym same)))
  | inr e ↦ e
]
  where
    off : false ≡ starts_with held_by_annotation known_good_prefix
    off = refl

module _ {ℓ} {V : Type ℓ} where
  -- Removing one key passes over the setting of another.
  pub erase-insert-other :
      (k j : String) (v : V) (m : Dict V)
      → (j == k) ≡ false
      → erase k (insert j v m) ≡ insert j v (erase k m)
  unfolding erase insert
  erase-insert-other k j v [] h = ground (arith, eq_iff k j, eq_iff j k)
  erase-insert-other k j v ((i, w) ∷ m) h =
      ground (arith, eq_iff k j, eq_iff j k, eq_iff i j, eq_iff i k, erase-insert-other k j v m)

  -- Two keys that a map has not, set and removed again.
  pub erase_two :
      (k j : String) (v w : V) (m : Dict V)
      → (k == j) ≡ false
      → lookup k m ≡ none
      → lookup j m ≡ none
      → erase k (erase j (insert k v (insert j w m))) ≡ m
  erase_two k j v w m e a b =
      rw (erase-insert-other j k v (insert j w m) e, erase-insert j w m b, erase-insert k v m a)
        refl
