-- ===== src/Actions/Names/Valid.antt =====
-- Object names are DNS-1123 labels of bounded length (chaosmesh.go, dbexec.go).
use text.Mathlib.TextLemmas.{nil-append, cons-append}
use rca_lab.Base.{
  ◌≡◌, refl, ap, ℕ, zero, suc, ◌+◌, ◌≤◌, Bool, true, false, not, ◌&&◌, ◌||◌, String, ◌<>◌, ltb,
  arith, inl, inr, Bool-cases, if◌then◌else◌,
}
use rca_lab.Actions.Names.{
  chars, take_text, is_valid, is_dash, is_nil, to_lower, replace_invalid, trim_left, trim_right,
  trim, cap, max_name, sanitize, exec_job_names, exec_revert_suffix,
}

-- Every character is a lower-case letter, a digit or a dash.
abbrev pub AllValid : String → Type 0
AllValid String.[] = Unit
AllValid (String.◌∷◌ c s) = (is_valid c ≡ true) × AllValid s

-- Not empty, and the first and last character are no dash.
abbrev pub starts_well : String → Bool
starts_well String.[] = false
starts_well (String.◌∷◌ c s) = not (is_dash c)

abbrev pub ends_well : String → Bool
ends_well String.[] = false
ends_well (String.◌∷◌ c s) = if is_nil s then not (is_dash c) else ends_well s

pub record IsLabel (s : String) : Type 0 where
  pub valid : AllValid s
  pub short : chars s ≤ 63
  pub start : starts_well s ≡ true
  pub finish : ends_well s ≡ true

replace_invalid-AllValid : (run : Bool) (s : String) → AllValid (replace_invalid run s)
unfolding replace_invalid
replace_invalid-AllValid run String.[] = tt
replace_invalid-AllValid run (String.◌∷◌ c s) = elim (Bool-cases (is_valid c)) [
  | inl h ↦ rw h (h, replace_invalid-AllValid false s)
  | inr h ↦ rw h (after_run (replace_invalid true s) run (replace_invalid-AllValid true s))
]
  where
    after_run :
        (rest : String) (run : Bool)
        → AllValid rest
        → AllValid (if run then rest else String.◌∷◌ "-" rest)
    after_run rest true v = v
    after_run rest false v = (refl, v)

trim_left-AllValid : (s : String) → AllValid s → AllValid (trim_left s)
unfolding trim_left
trim_left-AllValid String.[] h = tt
trim_left-AllValid (String.◌∷◌ c s) (v, h) = elim (Bool-cases (is_dash c)) [
  | inl e ↦ rw e (trim_left-AllValid s h)
  | inr e ↦ rw e (v, h)
]

trim_right-AllValid : (s : String) → AllValid s → AllValid (trim_right s)
unfolding trim_right
trim_right-AllValid String.[] h = tt
trim_right-AllValid (String.◌∷◌ c s) (v, h) =
    elim (Bool-cases (is_dash c && is_nil (trim_right s))) [
      | inl e ↦ rw e tt
      | inr e ↦ rw e (v, trim_right-AllValid s h)
    ]

take_text-AllValid : (n : ℕ) (s : String) → AllValid s → AllValid (take_text n s)
take_text-AllValid zero s h = tt
take_text-AllValid (suc n) String.[] h = tt
take_text-AllValid (suc n) (String.◌∷◌ c s) (v, h) = (v, take_text-AllValid n s h)

chars-take_text : (n : ℕ) (s : String) → chars (take_text n s) ≤ n
chars-take_text zero s = ground arith
chars-take_text (suc n) String.[] = ground arith
chars-take_text (suc n) (String.◌∷◌ c s) = ground (arith, chars-take_text n s)

chars-trim_left : (s : String) → chars (trim_left s) ≤ chars s
unfolding trim_left
chars-trim_left String.[] = ground arith
chars-trim_left (String.◌∷◌ c s) = ground (arith, chars-trim_left s)

chars-trim_right : (s : String) → chars (trim_right s) ≤ chars s
unfolding trim_right
chars-trim_right String.[] = ground arith
chars-trim_right (String.◌∷◌ c s) = ground (arith, chars-trim_right s)

abbrev starts_or_nil : String → Bool
starts_or_nil s = is_nil s || starts_well s

abbrev ends_or_nil : String → Bool
ends_or_nil s = is_nil s || ends_well s

trim_left-starts_well : (s : String) → starts_or_nil (trim_left s) ≡ true
unfolding trim_left
trim_left-starts_well String.[] = refl
trim_left-starts_well (String.◌∷◌ c s) = ground (arith, trim_left-starts_well s)

trim_right-starts_well : (s : String) → starts_or_nil s ≡ true → starts_or_nil (trim_right s) ≡ true
unfolding trim_right
trim_right-starts_well String.[] h = refl
trim_right-starts_well (String.◌∷◌ c s) h = ground arith

trim_right-ends_well : (s : String) → ends_or_nil (trim_right s) ≡ true
unfolding trim_right
trim_right-ends_well String.[] = refl
trim_right-ends_well (String.◌∷◌ c s) = ground (arith, trim_right-ends_well s)

-- What a trimmed text of valid characters is.
abbrev Clean : String → Type 0
Clean s = AllValid s × (starts_or_nil s ≡ true) × (ends_or_nil s ≡ true)

trim-Clean : (s : String) → AllValid s → Clean (trim s)
unfolding trim
trim-Clean s v = (
  trim_right-AllValid (trim_left s) (trim_left-AllValid s v),
  trim_right-starts_well (trim_left s) (trim_left-starts_well s),
  trim_right-ends_well (trim_left s),
)

chars-trim : (s : String) → chars (trim s) ≤ chars s
unfolding trim
chars-trim s = omega (arith, chars-trim_left s, chars-trim_right (trim_left s))

cap-Clean : (s : String) → Clean s → Clean (cap s) × (chars (cap s) ≤ 63)
unfolding cap
cap-Clean s v = elim (Bool-cases (ltb max_name (chars s))) [
  | inl h ↦ rw h (
    trim-Clean (take_text max_name s) (take_text-AllValid max_name s v.0),
    omega (arith, chars-trim (take_text max_name s), chars-take_text max_name s),
  )
  | inr h ↦ rw h (v, ground arith)
]

or_chaos : (s : String) → Clean s → chars s ≤ 63 → IsLabel (if is_nil s then "chaos" else s)
or_chaos String.[] (v, b, e) l = record {
  valid = (refl, (refl, (refl, (refl, (refl, tt)))));
  short = ground arith;
  start = refl;
  finish = refl;
}
or_chaos (String.◌∷◌ c s) (v, b, e) l = record { valid = v; short = l; start = b; finish = e }

-- Whatever text goes in, a DNS-1123 label comes out: 1 to 63 characters, each a lower-case letter, a
-- digit or a dash, with no dash at either end.
pub sanitize-IsLabel : (s : String) → IsLabel (sanitize s)
unfolding sanitize
sanitize-IsLabel s =
    let clean = trim-Clean _ (replace_invalid-AllValid false (to_lower s)) in
    let capped = cap-Clean _ clean in or_chaos _ capped.0 capped.1

chars-append : (s t : String) → chars (s <> t) ≡ chars s + chars t
chars-append String.[] t = rw (nil-append t) (omega arith)
chars-append (String.◌∷◌ c s) t = rw (cons-append c s t) (omega (arith, chars-append s t))

AllValid-append : (s t : String) → AllValid s → AllValid t → AllValid (s <> t)
AllValid-append String.[] t h k = rw (nil-append t) k
AllValid-append (String.◌∷◌ c s) t (v, h) k = rw (cons-append c s t) (v, AllValid-append s t h k)

starts_well-append : (s t : String) → starts_well s ≡ true → starts_well (s <> t) ≡ true
starts_well-append String.[] t h = absurd (ground arith)
starts_well-append (String.◌∷◌ c s) t h = rw (cons-append c s t) h

is_nil-append : (s t : String) → ends_well t ≡ true → is_nil (s <> t) ≡ false
is_nil-append String.[] String.[] h = absurd (ground arith)
is_nil-append String.[] (String.◌∷◌ d t) h = rw (nil-append (String.◌∷◌ d t)) refl
is_nil-append (String.◌∷◌ c s) t h = rw (cons-append c s t) refl

ends_well-append : (s t : String) → ends_well t ≡ true → ends_well (s <> t) ≡ true
ends_well-append String.[] t h = rw (nil-append t) h
ends_well-append (String.◌∷◌ c s) t h =
    rw (cons-append c s t, is_nil-append s t h) (ends_well-append s t h)

chars-to_lower : (s : String) → chars (to_lower s) ≡ chars s
unfolding to_lower
chars-to_lower String.[] = refl
chars-to_lower (String.◌∷◌ c s) = ap suc (chars-to_lower s)

chars-replace_invalid : (run : Bool) (s : String) → chars (replace_invalid run s) ≤ chars s
unfolding replace_invalid
chars-replace_invalid run String.[] = ground arith
chars-replace_invalid run (String.◌∷◌ c s) =
    ground (arith, chars-replace_invalid true s, chars-replace_invalid false s)

chars-cap : (s : String) → chars (cap s) ≤ chars s
unfolding cap
chars-cap s = ground (arith, chars-trim (take_text max_name s), chars-take_text max_name s)

chars-or_chaos : (s : String) → chars s ≤ 55 → chars (if is_nil s then "chaos" else s) ≤ 55
chars-or_chaos String.[] h = ground arith
chars-or_chaos (String.◌∷◌ c s) h = h

chars-sanitize : (s : String) → chars s ≤ 55 → chars (sanitize s) ≤ 55
unfolding sanitize
chars-sanitize s h =
    let low = to_lower s in
    let clean = replace_invalid false low in
    chars-or_chaos _ (
      omega (
        arith,
        h,
        chars-cap (trim clean),
        chars-trim clean,
        chars-replace_invalid false low,
        chars-to_lower s,
      ))

-- Names of exec jobs: where the run's hash has at most 8 characters, both are DNS-1123 labels.
pub exec_job_names-IsLabel :
    (base hash : String)
    → chars hash ≤ 8
    → IsLabel (exec_job_names base hash).0 × IsLabel (exec_job_names base hash).1
unfolding exec_job_names
exec_job_names-IsLabel base hash h =
    let raw = take_text 46 base <> ("-" <> hash) in
    let length_raw : chars raw ≤ 55 = omega (
      arith,
      h,
      chars-take_text 46 base,
      chars-append (take_text 46 base) ("-" <> hash),
      chars-append "-" hash,
    ) in
    let name = sanitize-IsLabel raw in
    (
      name,
      record {
        valid =
            AllValid-append (sanitize raw) exec_revert_suffix name.valid
              (refl, (refl, (refl, (refl, (refl, (refl, (refl, (refl, tt))))))));
        short =
            omega (
              arith,
              chars-append (sanitize raw) exec_revert_suffix,
              chars-sanitize raw length_raw,
            );
        start = starts_well-append (sanitize raw) exec_revert_suffix name.start;
        finish = ends_well-append (sanitize raw) exec_revert_suffix refl;
      },
    )
