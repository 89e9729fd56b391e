-- ===== src/Services/LoadGenerator/Gateway.antt =====
-- What the load generator calls: the API gateway over HTTP, its random numbers and the clock, as a
-- parameter over an unknown world, and its helpers for requests (services/load-generator/main.go).
use rca_lab.Base.{ℕ, String, ◌<>◌, List, ltb, if◌then◌else◌}
use rca_lab.Base.Int.{ℤ}
use rca_lab.Base.Text.{show_ℕ}
use rca_lab.Go.Duration.{Duration, Time}
use rca_lab.Cluster.Exec.{errorf, Exec, Result, ok, pure, fail, ◌>>=◌}

pub record HttpResponse : Type 0 where
  pub status_code : ℕ
  pub body : String

-- Amounts of money are whole cents, printed as `float64(cents) / 100.0`.
pub record OrderItem : Type 0 where
  pub product_id : String
  pub quantity : ℕ
  pub price_cents : ℕ
  pub name : String

-- The JSON that is posted or put.
pub data Payload : Type 0 where
  checkout : String → Payload
  cart_item : OrderItem → Payload
  order : String → List OrderItem → ℕ → String → Payload
  status : String → Payload
  -- product, user, rating, title, body, verified
  review : String → String → ℕ → String → String → ℕ → Payload
  reservation : ℕ → String → ℕ → Payload
  stock : ℕ → String → Payload
  -- order, user, cents, currency, method
  payment : String → String → ℕ → String → String → Payload

pub record Gateway : Type 1 where
  pub World : Type 0
  pub url : String
  -- the ids drawn at the start, 100 of them
  pub user_ids : List String
  pub intn : ℕ → World → ℕ × World
  pub now : World → Time × World
  pub sleep : Duration → World → World
  pub http_get : String → Exec World HttpResponse
  pub http_post : String → Payload → Exec World HttpResponse
  pub http_put : String → Payload → Exec World HttpResponse
  pub http_delete : String → Exec World HttpResponse
  -- encoding/json at the parts of the answers that are read: the product ids of a cart's items, the
  -- ids of a page of orders, and the id and the status of an order
  pub decode_cart : String → Result (List String)
  pub decode_orders : String → Result (List ℤ)
  pub decode_id : String → Result ℤ
  pub decode_status : String → Result String

module _ (G : Gateway) where
  open G use {World, intn, http_get, http_post, http_put, http_delete}

  -- rand.Intn
  abbrev pub draw : ℕ → Exec World ℕ
  draw n w = (ok (intn n w).0, (intn n w).1)

  -- The body, unless the status is 400 or more.
  checked : HttpResponse → Exec World String
  checked resp =
      if ltb resp.status_code 400
      then pure resp.body
      else fail (errorf ("status " <> show_ℕ resp.status_code))

  unfoldable pub do_get_body : String → Exec World String
  unfolding checked
  do_get_body url = http_get url >>= checked

  unfoldable pub do_get : String → Exec World (Unit {0})
  do_get url = do_get_body url >>= λ _. pure tt

  unfoldable pub do_post : String → Payload → Exec World String
  unfolding checked
  do_post url payload = http_post url payload >>= checked

  -- The status of the answer does not count.
  unfoldable pub do_put : String → Payload → Exec World (Unit {0})
  do_put url payload = http_put url payload >>= λ _. pure tt

  unfoldable pub do_delete : String → Exec World (Unit {0})
  do_delete url = http_delete url >>= λ _. pure tt
