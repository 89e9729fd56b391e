-- ===== src/Services/Fulfillment/Startup.antt =====
-- What the fulfillment service does before it consumes, and its health check
-- (services/fulfillment-service/main.go). An error of `start` is an exit with status 1.
use rca_lab.Base.{ℕ, Bool, ◌==ℕ◌, String, ◌<>◌, [], Option, none, some, if◌then◌else◌}
use rca_lab.Base.Int.{ℤ}
use rca_lab.Go.Duration.{seconds}
use rca_lab.Cluster.Exec.{Exec, Result, ok, err, pure, fail, observe, ◌>>◌}
use rca_lab.Services.Text.{trim_slash}
use rca_lab.Services.Waiting.{or_fallback, wait_ready}
use rca_lab.Services.Fulfillment.Outside.{Outside}

-- MySQL ER_DUP_KEYNAME: the index already exists.
abbrev pub er_dup_key_name : ℕ
er_dup_key_name = 1_061

-- The statement, with one space for each run of white space.
abbrev pub create_table : String
create_table =
    "CREATE TABLE IF NOT EXISTS shipments ( id BIGINT AUTO_INCREMENT PRIMARY KEY, order_id BIGINT, "
    <> ("status VARCHAR(32) DEFAULT 'PENDING', created_at TIMESTAMP DEFAULT CURRENT_TIMESTAMP )")

abbrev pub create_index : String
create_index = "CREATE INDEX idx_shipments_created_at ON shipments(created_at)"

-- A JSON answer: its status and the text of its one member.
pub record Answer : Type 0 where
  pub status : ℕ
  pub text : String

abbrev is_duplicate : Option ℕ → Bool
is_duplicate none = Bool.false
is_duplicate (some n) = n ==ℕ er_dup_key_name

unfoldable pub inventory_url : String → String
inventory_url set = trim_slash (or_fallback set "http://inventory-service:8080")

module _ (O : Outside) where
  open O use {World, exec_sql, mysql_number, ping_db, ping_kafka, sleep}

  indexed : Result (Result ℤ) → Exec World (Unit {0})
  indexed (ok _) = pure tt
  indexed (err e) = if is_duplicate (mysql_number e) then pure tt else fail e

  unfoldable pub init_db : Exec World (Unit {0})
  unfolding indexed
  init_db = exec_sql create_table [] >> observe (exec_sql create_index []) indexed

  -- Up to 30 pings of the database 2 s apart, its table, then as many of Kafka.
  unfoldable pub start : Exec World (Unit {0})
  start =
      (wait_ready ping_db (sleep (seconds 2)) 30 (ok tt) >> init_db)
      >> wait_ready ping_kafka (sleep (seconds 2)) 30 (ok tt)

  kafka_health : Result (Unit {0}) → Answer
  kafka_health (ok _) = record { status = 200; text = "ok" }
  kafka_health (err _) = record { status = 503; text = "kafka unavailable" }

  db_health : Result (Unit {0}) → World → Answer × World
  unfolding kafka_health
  db_health (err _) w = (record { status = 503; text = "database unavailable" }, w)
  db_health (ok _) w = let (r, w') = ping_kafka w in (kafka_health r, w')

  unfoldable pub health_handler : World → Answer × World
  unfolding db_health
  health_handler w = let (r, w') = ping_db w in db_health r w'
