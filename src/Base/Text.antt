-- ===== src/Base/Text.antt =====
-- Texts as lists of code points, decimal digits, and the quoting of `%q`.
use Prim.Native.Nat.{ℕ, zero, suc, ◌/◌, ◌%◌}
use Prim.Native.Char.{code}
use Prim.Native.String.{String, ◌++◌ as ◌<>◌}
use mathlib.Core.Bool.{◌||◌}
use mathlib.Core.List.{List, [], ◌∷◌}
use rca_lab.Base.Tests.{◌==ℕ◌, if◌then◌else◌}
use rca_lab.Base.Int.{ℤ, pos, negsuc}

-- The code points of a text. `String` has its own `[]` and `∷`.
abbrev pub codes : String → List ℕ
codes String.[] = []
codes (String.◌∷◌ c s) = code c ∷ codes s

abbrev digit_text : ℕ → String
digit_text zero = "0"
digit_text (suc zero) = "1"
digit_text (suc (suc zero)) = "2"
digit_text (suc (suc (suc zero))) = "3"
digit_text (suc (suc (suc (suc zero)))) = "4"
digit_text (suc (suc (suc (suc (suc zero))))) = "5"
digit_text (suc (suc (suc (suc (suc (suc zero)))))) = "6"
digit_text (suc (suc (suc (suc (suc (suc (suc zero))))))) = "7"
digit_text (suc (suc (suc (suc (suc (suc (suc (suc zero)))))))) = "8"
digit_text _ = "9"

-- The digits of a number below 10 ^ fuel, in front of `rest`.
decimal : ℕ → ℕ → String → String
decimal zero n rest = rest
decimal (suc f) n rest =
    let more = decimal f (n / 10) (digit_text (n % 10) <> rest) in
    if n / 10 ==ℕ 0 then digit_text (n % 10) <> rest else more

-- `%d` of a non-negative number that fits 64 bits, which has at most 20 digits.
unfoldable pub show_ℕ : ℕ → String
unfolding decimal
show_ℕ n = decimal 20 n ""

unfoldable pub show_ℤ : ℤ → String
unfolding show_ℕ
show_ℤ (pos n) = show_ℕ n
show_ℤ (negsuc n) = "-" <> show_ℕ (suc n)

escape : String → String
escape String.[] = ""
escape (String.◌∷◌ c s) =
    if code c ==ℕ 34 || code c ==ℕ 92
    then "\\" <> String.◌∷◌ c (escape s)
    else String.◌∷◌ c (escape s)

-- `%q` of a text of printable characters.
unfoldable pub quote : String → String
unfolding escape
quote s = "\"" <> (escape s <> "\"")
