-- ===== src/Go/Json.antt =====
-- encoding/json, as far as the revert tokens need it: values after parsing, and structs whose
-- fields are texts, an int32 or lists. A raw message is `none` where its text is no JSON.
use rca_lab.Base.{
  ℕ, ◌+◌, Bool, true, false, ◌&&◌, String, List, [], ◌∷◌, Option, none, some, leb, ◌==ℕ◌,
  if◌then◌else◌,
}
use rca_lab.Base.Int.{ℤ, pos, negsuc, leb_ℤ}
use rca_lab.Base.Text.{codes}

mutual
  pub data Json : Type 0 where
    null : Json
    bool : Bool → Json
    num : ℤ → Json
    str : String → Json
    arr : Items → Json
    obj : Members → Json

  pub data Items : Type 0 where
    nil : Items
    item : Json → Items → Items

  pub data Members : Type 0 where
    end : Members
    member : String → Json → Members → Members

abbrev pub RawMessage : Type 0
RawMessage = Option Json

abbrev pub items : List Json → Items
items [] = nil
items (j ∷ js) = item j (items js)

abbrev pub elements : Items → List Json
elements nil = []
elements (item j js) = j ∷ elements js

abbrev pub texts : List String → Items
texts [] = nil
texts (s ∷ ss) = item (str s) (texts ss)

-- ASCII letters are compared without their case, as the decoder does where no field is spelled
-- exactly like the key. No two fields of a token differ in case only.
abbrev lower : ℕ → ℕ
lower c = if leb b'A' c && leb c b'Z' then c + 32 else c

abbrev same : List ℕ → List ℕ → Bool
same [] [] = true
same (a ∷ s) (b ∷ t) = lower a ==ℕ lower b && same s t
same _ _ = false

abbrev pub names : String → String → Bool
names key field = same (codes key) (codes field)

-- A value for a field of each kind; `null` leaves the field as it is, another type is an error.
abbrev pub text_field : Json → String → Option String
text_field null old = some old
text_field (str s) old = some s
text_field _ old = none

abbrev pub int32_field : Json → ℤ → Option ℤ
int32_field null old = some old
int32_field (num n) old =
    if leb_ℤ (negsuc 2_147_483_647) n && leb_ℤ n (pos 2_147_483_647) then some n else none
int32_field _ old = none

abbrev pub text_items : Items → Option (List String)
text_items nil = some []
text_items (item j js) = elim (text_field j "") [
  | none ↦ none
  | some s ↦ elim (text_items js) [ none ↦ none | some ss ↦ some (s ∷ ss) ]
]

abbrev pub texts_field : Json → List String → Option (List String)
texts_field null old = some []
texts_field (arr js) old = text_items js
texts_field _ old = none

-- A list of values that are kept as they stand.
abbrev pub values_field : Json → List Json → Option (List Json)
values_field null old = some []
values_field (arr js) old = some (elements js)
values_field _ old = none

module _ {T : Type 0} (set : String → Json → T → Option T) where
  abbrev pub fields : Members → T → Option T
  fields end t = some t
  fields (member key j rest) t = elim (set key j t) [ none ↦ none | some t' ↦ fields rest t' ]

  -- `json.Unmarshal` into a struct that starts as `t`.
  abbrev pub unmarshal : RawMessage → T → Option T
  unmarshal none t = none
  unmarshal (some null) t = some t
  unmarshal (some (obj ms)) t = fields ms t
  unmarshal (some _) t = none
