-- ===== src/Services/Fulfillment/Outside.antt =====
-- The events of the fulfillment service, and what it calls: the inventory service over HTTP, MySQL,
-- Kafka, the clock and the process's environment, as a parameter over an unknown world.
use rca_lab.Base.{ℕ, Bool, String, List, Option}
use rca_lab.Base.Int.{ℤ}
use rca_lab.Go.Duration.{Duration, Time}
use rca_lab.Cluster.Exec.{Error, Exec, Result}

-- The price is a float64 that is never read: its JSON text.
pub record OrderItem : Type 0 where
  pub product_id : ℤ
  pub quantity : ℤ
  pub price : String

pub record OrderEvent : Type 0 where
  pub event_type : String
  pub order_id : ℤ
  pub user_id : String
  pub items : List OrderItem
  pub total_amount : String
  pub created_at : String

pub record ShipmentEvent : Type 0 where
  pub event_type : String
  pub order_id : ℤ
  pub shipment_id : ℤ
  pub status : String
  pub created_at : String

-- A record to produce: its value is the JSON of the event.
pub record Produced : Type 0 where
  pub topic : String
  pub key : String
  pub value : ShipmentEvent

-- A record that was fetched, from its partition and offset.
pub record Fetched : Type 0 where
  pub partition : ℕ
  pub offset : ℕ
  pub value : String

-- What a poll returns: whether IsClientClosed holds of it, and its records. (Its errors are logged.)
pub record Fetches : Type 0 where
  pub client_closed : Bool
  pub records : List Fetched

pub record HttpResponse : Type 0 where
  pub status_code : ℕ
  pub body : String

pub record Outside : Type 1 where
  pub World : Type 0
  -- the decoder of encoding/json at OrderEvent
  pub decode_order_event : String → Result OrderEvent
  -- http.NewRequestWithContext, which refuses a malformed URL
  pub new_put : String → Result (Unit {0})
  -- httpClient.Do of a PUT of a body to a URL
  pub put : String → String → Exec World HttpResponse
  -- waits so long, unless the context ends before
  pub wait_or_done : Duration → Exec World (Unit {0})
  pub sleep : Duration → World → World
  -- db.ExecContext of a statement and its arguments; the value is what LastInsertId gives
  pub exec_sql : String → List ℤ → Exec World (Result ℤ)
  -- the number of an error that is a *mysql.MySQLError
  pub mysql_number : Error → Option ℕ
  pub ping_db : Exec World (Unit {0})
  pub ping_kafka : Exec World (Unit {0})
  pub now : World → Time × World
  -- the time in UTC as time.RFC3339 writes it
  pub rfc3339 : Time → String
  pub produce_sync : Produced → Exec World (Unit {0})
  -- kafka.PollFetches
  pub poll_fetches : World → Fetches × World
  -- whether ctx.Err() is not nil
  pub context_done : World → Bool × World
  pub mark_commit : Fetched → World → World
