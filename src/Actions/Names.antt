-- ===== src/Actions/Names.antt =====
-- Names of created objects (chaosmesh.go `sanitizeDNS1123`, `chaosObjectName`; dbexec.go
-- `execJobNames`). Texts are walked character by character.
pub mod Valid
use Prim.Native.Char.{Char, code}
use rca_lab.Base.{
  ◌≡◌, refl, ℕ, zero, suc, ◌-◌, Bool, true, false, ◌&&◌, ◌||◌, not, String, ◌<>◌, ltb, leb, ◌==ℕ◌,
  ◌==◌, if◌then◌else◌,
}
use rca_lab.Types.{ChaosMeshAction}
use rca_lab.Actions.Action.{RunContext}

abbrev pub chars : String → ℕ
chars String.[] = 0
chars (String.◌∷◌ c s) = suc (chars s)

-- `s[:n]` of an ASCII text.
abbrev pub take_text : ℕ → String → String
take_text zero s = ""
take_text (suc n) String.[] = ""
take_text (suc n) (String.◌∷◌ c s) = String.◌∷◌ c (take_text n s)

-- The character of a text at an index below its length.
abbrev char_at : ℕ → String → Char → Char
char_at n String.[] d = d
char_at zero (String.◌∷◌ c s) d = c
char_at (suc n) (String.◌∷◌ c s) d = char_at n s d

-- unicode.ToLower, for the characters that it sends to ASCII: the capitals, the Kelvin sign and the
-- capital I with a dot. All others stay what they are, or stay outside ASCII.
abbrev pub lower : Char → Char
lower c =
    if leb b'A' (code c) && leb (code c) b'Z'
    then char_at (code c - b'A') "abcdefghijklmnopqrstuvwxyz" c
    else if code c ==ℕ 0x212a
    then "k"
    else if code c ==ℕ 0x130
    then "i"
    else c

-- `[a-z0-9-]`
abbrev pub is_valid : Char → Bool
is_valid c =
    leb b'a' (code c) && leb (code c) b'z'
    || leb b'0' (code c) && leb (code c) b'9'
    || code c ==ℕ b'-'

abbrev pub is_dash : Char → Bool
is_dash c = code c ==ℕ b'-'

pub to_lower : String → String
to_lower String.[] = ""
to_lower (String.◌∷◌ c s) = String.◌∷◌ (lower c) (to_lower s)

-- Every run of invalid characters becomes one dash; the flag tells that a run is being read.
pub replace_invalid : Bool → String → String
replace_invalid run String.[] = ""
replace_invalid run (String.◌∷◌ c s) =
    let rest = replace_invalid (not (is_valid c)) s in
    if is_valid c then String.◌∷◌ c rest else if run then rest else String.◌∷◌ "-" rest

-- `strings.Trim(s, "-")`
pub trim_left : String → String
trim_left String.[] = ""
trim_left (String.◌∷◌ c s) = let rest = trim_left s in if is_dash c then rest else String.◌∷◌ c s

abbrev pub is_nil : String → Bool
is_nil String.[] = true
is_nil (String.◌∷◌ c s) = false

pub trim_right : String → String
trim_right String.[] = ""
trim_right (String.◌∷◌ c s) =
    let rest = trim_right s in if is_dash c && is_nil rest then "" else String.◌∷◌ c rest

pub trim : String → String
unfolding trim_left trim_right
trim s = trim_right (trim_left s)

abbrev pub max_name : ℕ
max_name = 63

pub cap : String → String
unfolding trim
cap s = if ltb max_name (chars s) then trim (take_text max_name s) else s

unfoldable pub sanitize : String → String
unfolding to_lower replace_invalid trim cap
sanitize s =
    let capped = cap (trim (replace_invalid false (to_lower s))) in
    if is_nil capped then "chaos" else capped

unfoldable pub chaos_object_name : ChaosMeshAction → RunContext → String → String
chaos_object_name ca rc action_name =
    sanitize
      (if ca.name == "" then "mj-" <> (rc.scenario_name <> ("-" <> action_name)) else ca.name)

-- 63 less a dash, the run's 8 digits and the suffix of the revert job.
abbrev pub max_base : ℕ
max_base = 46

abbrev pub exec_revert_suffix : String
exec_revert_suffix = "-cleanup"

-- The names of the ensure and the revert job; `hash` is the short hash of the run's id.
unfoldable pub exec_job_names : String → String → String × String
exec_job_names base hash =
    let ensure = sanitize (take_text max_base base <> ("-" <> hash)) in
    (ensure, ensure <> exec_revert_suffix)
