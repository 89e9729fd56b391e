-- ===== src/Services/LoadGenerator/Flows/Others.antt =====
-- The requests about reviews, stock, payments and recommendations
-- (services/load-generator/main.go).
use rca_lab.Base.{◌+◌, String, ◌<>◌, [], ◌∷◌}
use rca_lab.Base.Text.{show_ℕ}
use rca_lab.Cluster.Exec.{Exec, pure, ◌>>=◌, ◌>>◌}
use rca_lab.Services.LoadGenerator.Gateway.{
  review, reservation, stock, payment, Gateway, draw, do_get, do_post, do_put,
}
use rca_lab.Services.LoadGenerator.Flows.{search_terms, pick, random_user_id, paged}

module _ (G : Gateway) where
  open G use {World, url}

  unfoldable pub list_reviews : Exec World (Unit {0})
  list_reviews = paged G 100 λ p. "/api/reviews?page=" <> (show_ℕ p <> "&limit=20")

  unfoldable pub get_product_reviews : Exec World (Unit {0})
  get_product_reviews = paged G 500_000 λ id. "/api/reviews/product/" <> show_ℕ id

  unfoldable pub get_product_review_stats : Exec World (Unit {0})
  get_product_review_stats =
      paged G 500_000 λ id. "/api/reviews/product/" <> (show_ℕ id <> "/stats")

  unfoldable pub create_review : Exec World (Unit {0})
  create_review = do
    id ← draw G 500_000
    uid ← random_user_id G
    rating ← draw G 5
    title ← draw G 10_000
    body ← draw G 100_000
    verified ← draw G 2
    do_post G (url <> "/api/reviews") (
        review (show_ℕ (id + 1)) uid (rating + 1) ("Review title " <> show_ℕ title)
          ("This is a detailed review body text number "
            <> (show_ℕ body <> " with lots of words to simulate real review content."))
          verified)
    pure tt

  unfoldable pub search_reviews : Exec World (Unit {0})
  search_reviews =
      pick G "" search_terms >>= λ term. do_get G (url <> ("/api/reviews/search?q=" <> term))

  unfoldable pub list_stock : Exec World (Unit {0})
  list_stock = paged G 50 λ p. "/api/inventory?page=" <> (show_ℕ p <> "&limit=20")

  unfoldable pub get_stock : Exec World (Unit {0})
  get_stock = paged G 500_000 λ id. "/api/inventory/" <> show_ℕ id

  unfoldable pub reserve_stock : Exec World (Unit {0})
  reserve_stock = do
    id ← draw G 500_000
    uid ← random_user_id G
    quantity ← draw G 5
    do_post G (url <> "/api/inventory/reserve") (reservation (id + 1) uid (quantity + 1))
    pure tt

  unfoldable pub update_stock : Exec World (Unit {0})
  update_stock = do
    id ← draw G 500_000
    quantity ← draw G 1_000
    warehouse ← pick G "" ("main" ∷ "east" ∷ "west" ∷ "central" ∷ [])
    do_put G (url <> ("/api/inventory/" <> show_ℕ (id + 1))) (stock quantity warehouse)

  unfoldable pub get_low_stock : Exec World (Unit {0})
  get_low_stock =
      draw G 20 >>= λ n. do_get G (url <> ("/api/inventory/low-stock?threshold=" <> show_ℕ (n + 5)))

  unfoldable pub list_payments : Exec World (Unit {0})
  list_payments = paged G 50 λ p. "/api/payments?page=" <> (show_ℕ p <> "&limit=20")

  unfoldable pub get_user_payments : Exec World (Unit {0})
  get_user_payments = random_user_id G >>= λ uid. do_get G (url <> ("/api/payments/user/" <> uid))

  unfoldable pub process_payment : Exec World (Unit {0})
  process_payment = do
    id ← draw G 100_000
    uid ← random_user_id G
    cents ← draw G 50_000
    currency ← pick G "" ("USD" ∷ "EUR" ∷ "GBP" ∷ [])
    method ← pick G "" ("card" ∷ "paypal" ∷ "crypto" ∷ [])
    do_post G (url <> "/api/payments")
        (payment ("order-" <> show_ℕ (id + 1)) uid cents currency method)
    pure tt

  recommended : String → Exec World (Unit {0})
  recommended path = do
    uid ← random_user_id G
    limit ← draw G 20
    do_get G (url <> (path <> (uid <> ("?limit=" <> show_ℕ (limit + 5)))))

  unfoldable pub get_recommendations_via_product_catalog : Exec World (Unit {0})
  unfolding recommended
  get_recommendations_via_product_catalog = recommended "/api/products/recommendations/"

  unfoldable pub get_recommendations_via_gateway : Exec World (Unit {0})
  unfolding recommended
  get_recommendations_via_gateway = recommended "/api/recommendations/"
