-- ===== src/Services/Recommendation.antt =====
-- The recommendation service (services/recommendation-service/main.go) and its variant that leaks a
-- profile for each request (variants/memory-leak/src/main.go). The ids are drawn at random.
use rca_lab.Base.{
  ◌≡◌, refl, ℕ, zero, suc, String, ◌<>◌, List, [], ◌∷◌, length, ltb, if◌then◌else◌, none, arith,
}
use rca_lab.Base.Dict.{Dict, lookup, insert}
use rca_lab.Base.Int.{ℤ, pos, negsuc}
use rca_lab.Base.Text.{show_ℕ, show_ℤ}

-- `int(req.Limit)` as it is used: out of the range from 1 to 50 it is 10.
unfoldable pub clamp_limit : ℤ → ℕ
clamp_limit (negsuc n) = 10
clamp_limit (pos zero) = 10
clamp_limit (pos (suc n)) = if ltb 50 (suc n) then 10 else suc n

-- rand.Intn(100000), one draw after another.
module _ {W : Type 0} (intn : ℕ → W → ℕ × W) where
  draw_ids : ℕ → W → List String × W
  draw_ids zero w = ([], w)
  draw_ids (suc left) w =
      let (n, w') = intn 100_000 w in
      let (ids, w'') = draw_ids left w' in (("product-" <> show_ℕ n) ∷ ids, w'')

  unfoldable pub get_recommendations : ℤ → W → List String × W
  unfolding draw_ids
  get_recommendations limit = draw_ids (clamp_limit limit)

-- The variant: the retained profiles, each of 256 KiB, under the user's id and the time of the
-- request in nanoseconds.
abbrev pub profile_size : ℕ
profile_size = 262_144

abbrev pub Leaked : Type 0
Leaked = Dict (List ℕ)

abbrev pub profile_key : String → ℤ → String
profile_key user_id now = user_id <> ("-" <> show_ℤ now)

module _ {W : Type 0} (intn : ℕ → W → ℕ × W) (read_random : ℕ → W → List ℕ × W)
    (now : W → ℤ × W) where
  unfoldable pub get_recommendations_leaking : String → ℤ → Leaked → W → (List String × Leaked) × W
  unfolding get_recommendations
  get_recommendations_leaking user_id limit m w =
      let (profile, w1) = read_random profile_size w in
      let (t, w2) = now w1 in
      let (ids, w3) = get_recommendations intn limit w2 in
      ((ids, insert (profile_key user_id t) profile m), w3)

length-draw :
    {W : Type 0} (intn : ℕ → W → ℕ × W) (left : ℕ) (w : W) → length (draw_ids intn left w).0 ≡ left
unfolding draw_ids
length-draw intn zero w = refl
length-draw intn (suc left) w = omega (arith, length-draw intn left (intn 100_000 w).1)

-- As many ids as are asked for, and ten where that is no number from 1 to 50.
pub length-get_recommendations :
    {W : Type 0} (intn : ℕ → W → ℕ × W) (limit : ℤ) (w : W)
    → length (get_recommendations intn limit w).0 ≡ clamp_limit limit
unfolding get_recommendations
length-get_recommendations intn limit w = length-draw intn (clamp_limit limit) w

length-insert :
    {V : Type 0} (k : String) (v : V) (m : Dict V)
    → lookup k m ≡ none
    → length (insert k v m) ≡ suc (length m)
unfolding lookup insert
length-insert k v [] h = refl
length-insert k v ((j, x) ∷ m) h = ground (arith, length-insert k v m)

-- A request of the variant under a fresh key keeps one profile more, and none is ever removed: what
-- the map held it holds on.
pub get_recommendations_leaking_grows :
    {W : Type 0} (intn : ℕ → W → ℕ × W) (read_random : ℕ → W → List ℕ × W) (now : W → ℤ × W)
    (user_id : String) (limit : ℤ) (m : Leaked) (w : W)
    → lookup (profile_key user_id (now (read_random profile_size w).1).0) m ≡ none
    → length (get_recommendations_leaking intn read_random now user_id limit m w).0.1
      ≡ suc (length m)
unfolding get_recommendations_leaking
get_recommendations_leaking_grows intn read_random now user_id limit m w fresh =
    length-insert _ _ m fresh
