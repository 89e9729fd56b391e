-- ===== src/Services/LoadGenerator/Scenarios.antt =====
-- The scenarios of each service and how one is drawn (services/load-generator/main.go).
pub mod Draws
use rca_lab.Base.{ℕ, ◌+◌, ◌-◌, Bool, ltb, String, List, [], ◌∷◌, Option, none, some, if◌then◌else◌}
use rca_lab.Cluster.Exec.{Exec, Result}
use rca_lab.Services.LoadGenerator.Gateway.{Gateway}
use rca_lab.Services.LoadGenerator.Flows
use rca_lab.Services.LoadGenerator.Flows.Others
use rca_lab.Services.LoadGenerator.Flows.Awaiting

-- The scenario functions.
pub data Flow : Type 0 where
  list_products get_product search_products get_products_by_category : Flow
  get_cart add_to_cart remove_from_cart checkout_cart : Flow
  list_orders get_order create_order create_order_and_await_fulfillment get_user_orders : Flow
  update_order_status : Flow
  list_reviews get_product_reviews get_product_review_stats create_review search_reviews : Flow
  list_stock get_stock reserve_stock update_stock get_low_stock : Flow
  list_payments get_user_payments process_payment : Flow
  get_recommendations_via_product_catalog get_recommendations_via_gateway : Flow

pub record Scenario : Type 0 where
  pub name : String
  pub weight : ℕ
  pub flow : Flow

pub record ServiceScenarios : Type 0 where
  pub name : String
  pub scenarios : List Scenario

abbrev scenario : String → ℕ → Flow → Scenario
scenario name weight flow = record { name = name; weight = weight; flow = flow }

abbrev service : String → List Scenario → ServiceScenarios
service name scenarios = record { name = name; scenarios = scenarios }

abbrev pub all_services : List ServiceScenarios
all_services =
    service "product-catalog" (
      scenario "list-products" 30 list_products
      ∷ scenario "get-product" 30 get_product
      ∷ scenario "search-products" 20 search_products
      ∷ scenario "get-by-category" 20 get_products_by_category
      ∷ [])
    ∷ service "cart-service" (
        scenario "get-cart" 30 get_cart
        ∷ scenario "add-to-cart" 40 add_to_cart
        ∷ scenario "remove-from-cart" 20 remove_from_cart
        ∷ scenario "checkout" 10 checkout_cart
        ∷ [])
    ∷ service "order-service" (
        scenario "list-orders" 20 list_orders
        ∷ scenario "get-order" 20 get_order
        ∷ scenario "create-order" 25 create_order
        ∷ scenario "create-order-await-fulfillment" 12 create_order_and_await_fulfillment
        ∷ scenario "get-user-orders" 20 get_user_orders
        ∷ scenario "update-status" 15 update_order_status
        ∷ [])
    ∷ service "review-service" (
        scenario "list-reviews" 20 list_reviews
        ∷ scenario "get-product-reviews" 20 get_product_reviews
        ∷ scenario "get-review-stats" 15 get_product_review_stats
        ∷ scenario "create-review" 25 create_review
        ∷ scenario "search-reviews" 20 search_reviews
        ∷ [])
    ∷ service "inventory-service" (
        scenario "list-stock" 25 list_stock
        ∷ scenario "get-stock" 25 get_stock
        ∷ scenario "reserve-stock" 20 reserve_stock
        ∷ scenario "update-stock" 15 update_stock
        ∷ scenario "get-low-stock" 15 get_low_stock
        ∷ [])
    ∷ service "payment-service" (
        scenario "list-payments" 30 list_payments
        ∷ scenario "get-user-payments" 30 get_user_payments
        ∷ scenario "process-payment" 40 process_payment
        ∷ [])
    ∷ service "recommendation-service" (
        scenario "via-product-catalog-go-grpc" 50 get_recommendations_via_product_catalog
        ∷ scenario "via-api-gateway-py-grpc" 50 get_recommendations_via_gateway
        ∷ [])
    ∷ []

abbrev pub total_weight : List Scenario → ℕ
total_weight [] = 0
total_weight (s ∷ rest) = s.weight + total_weight rest

-- The loop of `pickScenario`, where `r -= s.weight` is below 0 if `r` was below the weight.
unfoldable pub reached : ℕ → List Scenario → Option Scenario
reached r [] = none
reached r (s ∷ rest) =
    let later = reached (r - s.weight) rest in if ltb r s.weight then some s else later

or_first : List Scenario → Option Scenario → Option Scenario
or_first scenarios (some s) = some s
or_first [] none = none
or_first (s ∷ _) none = some s

-- The scenario for a draw below the total weight; rand.Intn and the fallback panic without scenarios.
unfoldable pub pick_scenario : ℕ → List Scenario → Option Scenario
unfolding or_first
pick_scenario r scenarios = or_first scenarios (reached r scenarios)

module _ (G : Gateway) where
  completed :
      Exec (Gateway.World G) (Unit {0})
      → Gateway.World G
      → Option (Result (Unit {0})) × Gateway.World G
  completed m w = let (r, w') = m w in (some r, w')

  unfoldable pub run_flow : Flow → Gateway.World G → Option (Result (Unit {0})) × Gateway.World G
  unfolding completed
  run_flow list_products = completed (Flows.list_products G)
  run_flow get_product = completed (Flows.get_product G)
  run_flow search_products = completed (Flows.search_products G)
  run_flow get_products_by_category = completed (Flows.get_products_by_category G)
  run_flow get_cart = completed (Flows.get_cart G)
  run_flow add_to_cart = completed (Flows.add_to_cart G)
  run_flow remove_from_cart = completed (Flows.remove_from_cart G)
  run_flow checkout_cart = completed (Flows.checkout_cart G)
  run_flow list_orders = completed (Flows.list_orders G)
  run_flow get_order = completed (Flows.get_order G)
  run_flow create_order = completed (Flows.create_order G)
  run_flow create_order_and_await_fulfillment = Awaiting.create_order_and_await_fulfillment G
  run_flow get_user_orders = completed (Flows.get_user_orders G)
  run_flow update_order_status = completed (Flows.update_order_status G)
  run_flow list_reviews = completed (Others.list_reviews G)
  run_flow get_product_reviews = completed (Others.get_product_reviews G)
  run_flow get_product_review_stats = completed (Others.get_product_review_stats G)
  run_flow create_review = completed (Others.create_review G)
  run_flow search_reviews = completed (Others.search_reviews G)
  run_flow list_stock = completed (Others.list_stock G)
  run_flow get_stock = completed (Others.get_stock G)
  run_flow reserve_stock = completed (Others.reserve_stock G)
  run_flow update_stock = completed (Others.update_stock G)
  run_flow get_low_stock = completed (Others.get_low_stock G)
  run_flow list_payments = completed (Others.list_payments G)
  run_flow get_user_payments = completed (Others.get_user_payments G)
  run_flow process_payment = completed (Others.process_payment G)
  run_flow get_recommendations_via_product_catalog =
      completed (Others.get_recommendations_via_product_catalog G)
  run_flow get_recommendations_via_gateway = completed (Others.get_recommendations_via_gateway G)
