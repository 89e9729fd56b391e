-- ===== src/Services/Text.antt =====
-- The parts of Go's strings and strconv packages that the services use.
use Prim.Native.Char.{code}
use rca_lab.Base.{
  ℕ, zero, suc, ◌+◌, ◌*◌, ◌-◌, Bool, true, false, ◌&&◌, ◌||◌, String, ◌<>◌, List, [], ◌∷◌, Option,
  none, some, ltb, leb, ◌==ℕ◌, ◌==◌, if◌then◌else◌,
}
use rca_lab.Base.Int.{ℤ, pos, negsuc}
use rca_lab.Base.Text.{codes}
use rca_lab.Go.Duration.{max64, min64}

-- unicode.IsSpace
abbrev is_space : ℕ → Bool
is_space c =
    (leb 9 c && leb c 13)
    || (c ==ℕ 32)
    || (c ==ℕ 133)
    || (c ==ℕ 160)
    || (c ==ℕ 5_760)
    || (leb 8_192 c && leb c 8_202)
    || (c ==ℕ 8_232)
    || (c ==ℕ 8_233)
    || (c ==ℕ 8_239)
    || (c ==ℕ 8_287)
    || (c ==ℕ 12_288)

trim_left : String → String
trim_left String.[] = ""
trim_left (String.◌∷◌ c s) =
    let rest = trim_left s in if is_space (code c) then rest else String.◌∷◌ c s

trim_right : String → String
trim_right String.[] = ""
trim_right (String.◌∷◌ c s) =
    let rest = trim_right s in if is_space (code c) && (rest == "") then "" else String.◌∷◌ c rest

-- strings.TrimSpace
unfoldable pub trim_space : String → String
unfolding trim_left trim_right
trim_space s = trim_left (trim_right s)

-- strings.TrimSuffix(s, "/")
unfoldable pub trim_slash : String → String
trim_slash String.[] = ""
trim_slash (String.◌∷◌ c s) =
    let rest = trim_slash s in if (code c ==ℕ 47) && (s == "") then "" else String.◌∷◌ c rest

push : String → List String → List String
push c [] = c ∷ []
push c (s ∷ rest) = (c <> s) ∷ rest

-- strings.Split(s, ",")
unfoldable pub split_commas : String → List String
unfolding push
split_commas String.[] = "" ∷ []
split_commas (String.◌∷◌ c s) =
    let rest = split_commas s in if code c ==ℕ 44 then "" ∷ rest else push (String.◌∷◌ c "") rest

before_first : Option (String × String) → String → Option (String × String)
before_first none c = none
before_first (some (name, rest)) c = some (c <> name, rest)

-- strings.Cut(s, ":")
unfoldable pub cut_colon : String → Option (String × String)
unfolding before_first
cut_colon String.[] = none
cut_colon (String.◌∷◌ c s) =
    let rest = cut_colon s in
    if code c ==ℕ 58 then some ("", s) else before_first rest (String.◌∷◌ c "")

-- What strconv finds: no number, one beyond an int64 with the nearest int64, or a number.
pub data Parsed : Type 0 where
  malformed : Parsed
  out_of_range : ℤ → Parsed
  number : ℤ → Parsed

-- The digits of strconv.ParseUint: it stops at the first that leaves 64 bits, whatever follows.
pub data Digits : Type 0 where
  invalid overflow : Digits
  value : ℕ → Digits

read_digits : ℕ → List ℕ → Digits
read_digits n [] = value n
read_digits n (c ∷ s) =
    let more = n * 10 + (c - 48) in
    let rest = read_digits more s in
    if leb 48 c && leb c 57
    then (if ltb more 18_446_744_073_709_551_616 then rest else overflow)
    else invalid

unsigned : List ℕ → Digits
unfolding read_digits
unsigned [] = invalid
unsigned (c ∷ s) = read_digits 0 (c ∷ s)

-- The digits with their sign: whether it is negative.
with_sign : Bool → Digits → Parsed
with_sign negative invalid = malformed
with_sign false overflow = out_of_range max64
with_sign true overflow = out_of_range min64
with_sign false (value n) =
    if ltb n 9_223_372_036_854_775_808 then number (pos n) else out_of_range max64
with_sign true (value zero) = number (pos 0)
with_sign true (value (suc n)) =
    if ltb n 9_223_372_036_854_775_808 then number (negsuc n) else out_of_range min64

signed : List ℕ → Parsed
unfolding unsigned with_sign
signed [] = malformed
signed (c ∷ s) =
    if c ==ℕ 45
    then with_sign true (unsigned s)
    else if c ==ℕ 43
    then with_sign false (unsigned s)
    else with_sign false (unsigned (c ∷ s))

-- strconv.Atoi(s), and strconv.ParseInt(s, 10, 64): a sign or none, then decimal digits.
unfoldable pub parse_int : String → Parsed
unfolding signed
parse_int s = signed (codes s)

-- `n, err := strconv.Atoi(s)` where only `err == nil` counts, and `n, _ := strconv.Atoi(s)`.
abbrev pub accepted : Parsed → Option ℤ
accepted malformed = none
accepted (out_of_range n) = none
accepted (number n) = some n

abbrev pub unchecked : Parsed → ℤ
unchecked malformed = pos 0
unchecked (out_of_range n) = n
unchecked (number n) = n

stripped : Bool → Option String → Option String
stripped false rest = none
stripped true rest = rest

strip_prefix : String → String → Option String
unfolding stripped
strip_prefix String.[] s = some s
strip_prefix (String.◌∷◌ c p) String.[] = none
strip_prefix (String.◌∷◌ c p) (String.◌∷◌ d s) = stripped (code c ==ℕ code d) (strip_prefix p s)

or_whole : String → Option String → String
or_whole s none = s
or_whole s (some rest) = rest

-- strings.TrimPrefix(s, prefix)
unfoldable pub trim_prefix : String → String → String
unfolding strip_prefix or_whole
trim_prefix s prefix = or_whole s (strip_prefix prefix s)

-- strings.Split(s, "/")[0]
unfoldable pub until_slash : String → String
until_slash String.[] = ""
until_slash (String.◌∷◌ c s) =
    let rest = until_slash s in if code c ==ℕ 47 then "" else String.◌∷◌ c rest

-- strings.Contains(s, "/")
unfoldable pub contains_slash : String → Bool
contains_slash String.[] = false
contains_slash (String.◌∷◌ c s) = (code c ==ℕ 47) || contains_slash s
