-- ===== src/Services/Fulfillment/Orders.antt =====
-- What is done with the records of the topic order-events (services/fulfillment-service/main.go).
pub mod Protocol
pub mod Runs
pub mod Bounds
pub mod Committed
pub mod Marks
use rca_lab.Base.{
  ℕ, zero, suc, ◌-◌, ◌*◌, Bool, ◌==◌, ◌==ℕ◌, ltb, String, ◌<>◌, List, [], ◌∷◌, Option, none, some,
  if◌then◌else◌,
}
use rca_lab.Base.Int.{ℤ, pos}
use rca_lab.Base.Text.{show_ℕ, show_ℤ}
use rca_lab.Go.Duration.{Duration, Time}
use rca_lab.Cluster.Exec.{Error, errorf, Exec, Result, ok, err, pure, fail, observe, ◌>>=◌, ◌>>◌}
use rca_lab.Services.Text.{trim_space}
use rca_lab.Services.Fulfillment.Outside.{
  OrderItem, OrderEvent, ShipmentEvent, Produced, Fetched, Fetches, HttpResponse, Outside,
}

abbrev produce_topic : String
produce_topic = "shipment-events"

abbrev pub max_attempts : ℕ
max_attempts = 3

-- 500 ms for each attempt made so far.
abbrev pub backoff : ℕ → Duration
backoff attempt = pos ((attempt - 1) * 500_000_000)

abbrev pub reserve_url : String → ℤ → String
reserve_url inventory_url product_id =
    inventory_url <> ("/inventory/" <> (show_ℤ product_id <> "/reserve"))

abbrev pub reserve_payload : ℤ → String
reserve_payload quantity = "{\"quantity\":" <> (show_ℤ quantity <> "}")

-- The answer settles a reservation: made, or refused for lack of stock, which counts as made.
abbrev pub is_settled : HttpResponse → Bool
is_settled resp = if ltb resp.status_code 300 then Bool.true else resp.status_code ==ℕ 409

abbrev pub status_error : HttpResponse → Error
status_error resp = errorf (
    "inventory service returned status "
    <> (show_ℕ resp.status_code <> (": " <> trim_space resp.body)))

abbrev pub shipment_created : ℤ → ℤ → String → Produced
shipment_created order_id shipment_id created_at = record {
  topic = produce_topic;
  key = show_ℤ order_id;
  value = record {
    event_type = "ShipmentCreated";
    order_id = order_id;
    shipment_id = shipment_id;
    status = "CREATED";
    created_at = created_at;
  };
}

abbrev pub insert_shipment : String
insert_shipment = "INSERT INTO shipments (order_id, status) VALUES (?, 'CREATED')"

module _ (O : Outside) where
  open O use {
    World, decode_order_event, new_put, put, wait_or_done, exec_sql, now, rfc3339, produce_sync,
    poll_fetches, context_done, mark_commit,
  }

  -- Before every attempt but the first.
  pause : ℕ → Exec World (Unit {0})
  pause attempt = if ltb 1 attempt then wait_or_done (backoff attempt) else pure tt

  -- What is returned when the attempts are spent: the last error, if there is one.
  give_up : Option Error → Exec World (Unit {0})
  give_up none = pure tt
  give_up (some e) = fail e

  made_request : Result (Unit {0}) → Exec World (Unit {0})
  made_request (ok _) = pure tt
  made_request (err e) = fail e

  -- The answer to a request, or its failure, and what is done with the error of this attempt.
  settle : Result HttpResponse → (Error → Exec World (Unit {0})) → Exec World (Unit {0})
  settle (err e) again = again e
  settle (ok resp) again = if is_settled resp then pure tt else again (status_error resp)

  -- The loop of `reserveInventory` with so many attempts left, the next one's number and the last
  -- error.
  attempts : ℕ → ℕ → Option Error → String → String → Exec World (Unit {0})
  unfolding pause give_up made_request settle
  attempts zero attempt last url payload = give_up last
  attempts (suc left) attempt last url payload =
      (pause attempt >> made_request (new_put url))
      >> observe (put url payload)
          (λ r. settle r (λ e. attempts left (suc attempt) (some e) url payload))

  unfoldable pub reserve_inventory : String → ℤ → ℤ → Exec World (Unit {0})
  unfolding attempts
  reserve_inventory inventory_url product_id quantity =
      attempts max_attempts 1 none (reserve_url inventory_url product_id) (reserve_payload quantity)

  made_request_id : Result ℤ → Exec World ℤ
  made_request_id (ok id) = pure id
  made_request_id (err e) = fail e

  unfoldable pub create_shipment : ℤ → Exec World ℤ
  unfolding made_request_id
  create_shipment order_id = exec_sql insert_shipment (order_id ∷ []) >>= made_request_id

  unfoldable pub publish_shipment_created : ℤ → ℤ → Exec World (Unit {0})
  publish_shipment_created order_id shipment_id w =
      let (t, w') = now w in produce_sync (shipment_created order_id shipment_id (rfc3339 t)) w'

  -- The first item that cannot be reserved ends the loop.
  unfoldable pub reserve_all : String → List OrderItem → Exec World (Unit {0})
  reserve_all inventory_url [] = pure tt
  reserve_all inventory_url (item ∷ rest) =
      reserve_inventory inventory_url item.product_id item.quantity
      >> reserve_all inventory_url rest

  -- The part of `processRecord` after the event was decoded and found to be of a created order.
  unfoldable pub fulfill : String → OrderEvent → Exec World (Unit {0})
  fulfill inventory_url event = do
    reserve_all inventory_url event.items
    shipment_id ← create_shipment event.order_id
    publish_shipment_created event.order_id shipment_id

  -- Errors are logged and go no further.
  abbrev process_event : String → Result OrderEvent → World → World
  process_event inventory_url (err e) w = w
  process_event inventory_url (ok event) w =
      if event.event_type == "OrderCreated" then (fulfill inventory_url event w).1 else w

  unfoldable pub process_record : String → Fetched → World → World
  process_record inventory_url rec = process_event inventory_url (decode_order_event rec.value)

  unfoldable pub process_fetches : String → List Fetched → World → World
  process_fetches inventory_url [] w = w
  process_fetches inventory_url (rec ∷ rest) w =
      process_fetches inventory_url rest (mark_commit rec (process_record inventory_url rec w))

  -- Whether the loop returns after a poll; the context is asked where the client is open.
  is_over : Fetches → World → Bool × World
  is_over fetches w = if fetches.client_closed then (Bool.true, w) else context_done w

  -- The loop returns, or goes on after these records.
  after_poll : String → Bool → List Fetched → (World → Bool × World) → World → Bool × World
  after_poll inventory_url Bool.true records next w = (Bool.true, w)
  after_poll inventory_url Bool.false records next w =
      next (process_fetches inventory_url records w)

  -- The loop for at most so many polls, and whether it has returned by then.
  unfoldable pub consume_loop : ℕ → String → World → Bool × World
  unfolding is_over after_poll
  consume_loop zero inventory_url w = (Bool.false, w)
  consume_loop (suc polls) inventory_url w =
      let (fetches, w') = poll_fetches w in
      let (over, w'') = is_over fetches w' in
      after_poll inventory_url over fetches.records (consume_loop polls inventory_url) w''
