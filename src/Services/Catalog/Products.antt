-- ===== src/Services/Catalog/Products.antt =====
-- The products, the requests and the answers of the catalog, and what it calls: PostgreSQL and the
-- recommendation service, as a parameter over an unknown world (services/product-catalog/main.go).
use rca_lab.Base.{ℕ, String, List}
use rca_lab.Base.Dict.{Dict}
use rca_lab.Base.Int.{ℤ}
use rca_lab.Go.Duration.{Time}
use rca_lab.Go.Json.{RawMessage}
use rca_lab.Cluster.Exec.{Error, Exec, Result}

-- The price is a float64 that is only passed on: its JSON text.
pub record Product : Type 0 where
  pub id : ℤ
  pub name : String
  pub description : String
  pub category : String
  pub price : String
  pub sku : String
  pub metadata : RawMessage
  pub image_url : String
  pub created_at : Time
  pub updated_at : Time

pub data Argument : Type 0 where
  text : String → Argument
  integer : ℤ → Argument
  json : RawMessage → Argument

-- The body of a request, if it is the JSON of a product, and the parameters of its query.
pub record Request : Type 0 where
  pub method : String
  pub path : String
  pub query : Dict String
  pub body : Result Product

pub data Body : Type 0 where
  product : Product → Body
  -- a list, its page and its limit
  listed : List Product → ℤ → ℤ → Body
  found : List Product → String → Body
  in_category : List Product → String → ℤ → ℤ → Body
  recommended : String → List String → Body
  status_text : String → Body
  failure : String → Body
  plain : String → Body

pub record Response : Type 0 where
  pub status : ℕ
  pub body : Body

abbrev pub respond : ℕ → Body → Response
respond status body = record { status = status; body = body }

-- What a query for one row gives: its row, sql.ErrNoRows, or another error.
pub data Row (A : Type 0) : Type 0 where
  row : A → Row A
  no_rows : Row A
  row_error : Error → Row A

pub record Inserted : Type 0 where
  pub id : ℤ
  pub created_at : Time
  pub updated_at : Time

pub record Store : Type 1 where
  pub World : Type 0
  pub ping : Exec World (Unit {0})
  pub exec : String → Exec World (Unit {0})
  -- a query's rows in order, each with the outcome of its scan into a product
  pub query : String → List Argument → Exec World (List (Result Product))
  pub query_row : String → List Argument → World → Row Product × World
  pub insert_row : String → List Argument → Exec World Inserted
  -- the recommendation service's GetRecommendations, with a deadline of 3 s
  pub recommend : String → ℤ → Exec World (List String)
