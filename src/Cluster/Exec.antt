-- ===== src/Cluster/Exec.antt =====
-- Calls that change the world and may fail. What was written before a failure stays written, so the
-- world comes back beside the error too.
use rca_lab.Base.{◌≡◌, refl, String, ◌<>◌, Bool, true, false, ◌⊎◌, inl, inr}

-- The kinds of error that the code tells apart, by apierrors.IsNotFound and its like.
pub data ErrorKind : Type 0 where
  not_found already_exists conflict other : ErrorKind

pub record Error : Type 0 where
  pub kind : ErrorKind
  pub message : String

-- `fmt.Errorf("...")`, and with `%w`, which keeps the kind.
abbrev pub errorf : String → Error
errorf message = record { kind = other; message = message }

abbrev pub wrap : String → Error → Error
wrap prefix e = record e { message = prefix <> (": " <> e.message) }

abbrev pub is_not_found : Error → Bool
is_not_found e = elim e.kind [ not_found ↦ true | _ ↦ false ]

abbrev pub is_already_exists : Error → Bool
is_already_exists e = elim e.kind [ already_exists ↦ true | _ ↦ false ]

pub data Result {ℓ} (A : Type ℓ) : Type ℓ where
  ok : A → Result A
  err : Error → Result A

abbrev pub is_ok {ℓ} : {A : Type ℓ} → Result A → Bool
is_ok (ok _) = true
is_ok (err _) = false

pub Result-cases {ℓ} :
    {A : Type ℓ} (r : Result A) → ((a : A) × (r ≡ ok a)) ⊎ ((e : Error) × (r ≡ err e))
Result-cases (ok a) = inl (a, refl)
Result-cases (err e) = inr (e, refl)

abbrev pub Exec : Type 0 → Type 0 → Type 0
Exec W A = W → Result A × W

module _ {W A : Type 0} where
  abbrev pub pure : A → Exec W A
  pure a w = (ok a, w)

  abbrev pub fail : Error → Exec W A
  fail e w = (err e, w)

module _ {W A B : Type 0} where
  abbrev pub continue : Result A → (A → Exec W B) → Exec W B
  continue (ok a) f w = f a w
  continue (err e) f w = (err e, w)

  infixl 5 ◌>>=◌ ◌>>◌
  abbrev pub ◌>>=◌ : Exec W A → (A → Exec W B) → Exec W B
  ◌>>=◌ m f w = let (r, w') = m w in continue r f w'

  abbrev pub ◌>>◌ : Exec W A → Exec W B → Exec W B
  m >> k = m >>= λ _. k

  -- `x, err := m()` where the code goes on in either case.
  abbrev pub observe : Exec W A → (Result A → Exec W B) → Exec W B
  observe m f w = let (r, w') = m w in f r w'

-- A call leads to `Q` of its value where it succeeds, and to `I` where it fails.
module _ {W : Type 0} (I : W → Type 0) where
  abbrev pub Post : {A : Type 0} → (A → W → Type 0) → Result A × W → Type 0
  Post Q (ok a, w) = Q a w
  Post Q (err e, w) = I w

  pub Post-continue :
      {A B : Type 0} (Q : A → W → Type 0) (R : B → W → Type 0) (f : A → Exec W B) (r : Result A)
      (w : W)
      → Post Q (r, w)
      → ((a : A) (w' : W) → Q a w' → Post R (f a w'))
      → Post R (continue r f w)
  Post-continue Q R f (ok a) w p k = k a w p
  Post-continue Q R f (err e) w p k = p

  pub Post-bind :
      {A B : Type 0} (Q : A → W → Type 0) (R : B → W → Type 0) (m : Exec W A) (f : A → Exec W B)
      (w : W)
      → Post Q (m w)
      → ((a : A) (w' : W) → Q a w' → Post R (f a w'))
      → Post R ((m >>= f) w)
  Post-bind Q R m f w p k = Post-continue Q R f (m w).0 (m w).1 p k
