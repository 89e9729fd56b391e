-- ===== src/Services/LoadGenerator/Flows.antt =====
-- The requests of the simulated users (services/load-generator/main.go), one definition for each
-- scenario function.
pub mod Others
pub mod Awaiting
use rca_lab.Base.{
  ℕ, zero, suc, ◌+◌, Bool, ◌==◌, ◌==ℕ◌, ltb, String, ◌<>◌, List, [], ◌∷◌, length, Option, none,
  some, if◌then◌else◌,
}
use rca_lab.Base.Int.{ℤ, pos, ◌==ℤ◌}
use rca_lab.Base.Text.{show_ℕ, show_ℤ}
use rca_lab.Go.Duration.{Time, seconds, after, before}
use rca_lab.Cluster.Exec.{Error, errorf, Exec, Result, ok, err, pure, fail, ◌>>=◌, ◌>>◌}
use rca_lab.Services.LoadGenerator.Gateway.{
  HttpResponse, OrderItem, Payload, checkout, cart_item, order, status, review, reservation, stock,
  payment, Gateway, draw, do_get_body, do_get, do_post, do_put, do_delete,
}

abbrev pub cart_checkout_at : ℕ
cart_checkout_at = 20

abbrev categories : List String
categories =
    "electronics" ∷ "clothing" ∷ "books" ∷ "home" ∷ "sports" ∷ "toys" ∷ "food" ∷ "beauty"
    ∷ "automotive" ∷ "garden" ∷ []

abbrev pub search_terms : List String
search_terms =
    "wireless" ∷ "organic" ∷ "premium" ∷ "vintage" ∷ "smart" ∷ "portable" ∷ "eco" ∷ "professional"
    ∷ "mini" ∷ "ultra" ∷ []

-- `xs[i]`; the code's indices are drawn below the length.
abbrev pub nth : {A : Type 0} → A → List A → ℕ → A
nth default [] i = default
nth default (x ∷ xs) zero = x
nth default (x ∷ xs) (suc i) = nth default xs i

-- `%05d`
abbrev pad : ℕ → String
pad n =
    if ltb n 10
    then "0000" <> show_ℕ n
    else if ltb n 100
    then "000" <> show_ℕ n
    else if ltb n 1_000
    then "00" <> show_ℕ n
    else if ltb n 10_000
    then "0" <> show_ℕ n
    else show_ℕ n

module _ {A : Type 0} (G : Gateway) where
  -- An element of the list, drawn uniformly; the default stands for an empty list.
  abbrev pub pick : A → List A → Exec (Gateway.World G) A
  pick default xs = draw G (length xs) >>= λ i. pure (nth default xs i)

module _ (G : Gateway) where
  open G use {World, url, user_ids, decode_cart, decode_orders, decode_id}

  abbrev pub random_user_id : Exec World String
  random_user_id = pick G "" user_ids

  -- A page of a listing.
  abbrev pub paged : ℕ → (ℕ → String) → Exec World (Unit {0})
  paged pages path = draw G pages >>= λ p. do_get G (url <> path (p + 1))

  unfoldable pub list_products : Exec World (Unit {0})
  list_products = paged 100 λ p. "/api/products?page=" <> (show_ℕ p <> "&limit=20")

  unfoldable pub get_product : Exec World (Unit {0})
  get_product = paged 500_000 λ id. "/api/products/" <> show_ℕ id

  unfoldable pub search_products : Exec World (Unit {0})
  search_products =
      pick G "" search_terms >>= λ term. do_get G (url <> ("/api/products/search?q=" <> term))

  unfoldable pub get_products_by_category : Exec World (Unit {0})
  get_products_by_category =
      pick G "" categories >>= λ cat. do_get G (url <> ("/api/products/category/" <> cat))

  abbrev cart_url : String → String
  cart_url uid = url <> ("/api/cart/" <> uid)

  unfoldable pub get_cart : Exec World (Unit {0})
  get_cart = random_user_id >>= λ uid. do_get G (cart_url uid)

  abbrev pub lifted : {A : Type 0} → Result A → Exec World A
  lifted (ok a) = pure a
  lifted (err e) = fail e

  non_empty : List String → List String
  non_empty [] = []
  non_empty (id ∷ ids) = let rest = non_empty ids in if id == "" then rest else id ∷ rest

  unfoldable pub cart_items : String → Exec World (List String)
  unfolding non_empty
  cart_items uid = do
    body ← do_get_body G (cart_url uid)
    ids ← lifted (decode_cart body)
    pure (non_empty ids)

  check_out : String → Exec World String
  check_out uid = do_post G (cart_url uid <> "/checkout") (checkout "1 Test Street")

  make_room : String → List String → Exec World (Unit {0})
  unfolding check_out
  make_room uid ids =
      if ltb (length ids) cart_checkout_at then pure tt else check_out uid >>= λ _. pure tt

  unfoldable pub add_to_cart : Exec World (Unit {0})
  unfolding make_room
  add_to_cart = do
    uid ← random_user_id
    ids ← cart_items uid
    make_room uid ids
    id ← draw G 500_000
    quantity ← draw G 5
    cents ← draw G 10_000
    n ← draw G 500_000
    do_post G (cart_url uid <> "/items") (
        cart_item record {
          product_id = show_ℕ (id + 1);
          quantity = quantity + 1;
          price_cents = cents;
          name = "Product " <> show_ℕ n;
        })
    pure tt

  remove_one : String → List String → Exec World (Unit {0})
  remove_one uid [] = pure tt
  remove_one uid (id ∷ ids) =
      pick G "" (id ∷ ids) >>= λ held. do_delete G (cart_url uid <> ("/items/" <> held))

  unfoldable pub remove_from_cart : Exec World (Unit {0})
  unfolding remove_one
  remove_from_cart = do uid ← random_user_id; ids ← cart_items uid; remove_one uid ids

  check_out_held : String → List String → Exec World (Unit {0})
  unfolding check_out
  check_out_held uid [] = pure tt
  check_out_held uid (_ ∷ _) = check_out uid >>= λ _. pure tt

  unfoldable pub checkout_cart : Exec World (Unit {0})
  unfolding check_out_held
  checkout_cart = do uid ← random_user_id; ids ← cart_items uid; check_out_held uid ids

  unfoldable pub list_orders : Exec World (Unit {0})
  list_orders = paged 50 λ p. "/api/orders?page=" <> (show_ℕ p <> "&size=20")

  one_of : List ℤ → Exec World ℤ
  one_of [] = pure (pos 0)
  one_of (id ∷ ids) = pick G (pos 0) (id ∷ ids)

  -- An order of a page of the list, or 0 if the page is empty.
  unfoldable pub existing_order_id : Exec World ℤ
  unfolding one_of
  existing_order_id = do
    p ← draw G 5
    body ← do_get_body G (url <> ("/api/orders?page=" <> (show_ℕ (p + 1) <> "&size=20")))
    ids ← lifted (decode_orders body)
    one_of ids

  unfoldable pub get_order : Exec World (Unit {0})
  get_order = existing_order_id >>= λ id.
      if id ==ℤ pos 0 then pure tt else do_get G (url <> ("/api/orders/" <> show_ℤ id))

  item : String → ℕ → ℕ → Exec World OrderItem
  item name most cents_below = do
    id ← draw G 500_000
    quantity ← draw G most
    cents ← draw G cents_below
    pure record {
      product_id = show_ℕ (id + 1);
      quantity = quantity + 1;
      price_cents = cents;
      name = name;
    }

  unfoldable pub new_order : Exec World Payload
  unfolding item
  new_order = do
    uid ← random_user_id
    a ← item "Product A" 3 5_000
    b ← item "Product B" 2 3_000
    total ← draw G 10_000
    number ← draw G 9_999
    city ← draw G 100
    zip ← draw G 99_999
    pure (
        order uid (a ∷ b ∷ []) total
          (show_ℕ (number + 1) <> (" Main St, City " <> (show_ℕ city <> (", ST " <> pad zip)))))

  unfoldable pub create_order : Exec World (Unit {0})
  create_order = do payload ← new_order; do_post G (url <> "/api/orders") payload; pure tt

  unfoldable pub get_user_orders : Exec World (Unit {0})
  get_user_orders = random_user_id >>= λ uid. do_get G (url <> ("/api/orders/user/" <> uid))

  unfoldable pub update_order_status : Exec World (Unit {0})
  update_order_status = existing_order_id >>= λ id.
      if id ==ℤ pos 0
      then pure tt
      else (pick G "" ("CONFIRMED" ∷ "SHIPPED" ∷ "DELIVERED" ∷ []) >>= λ s.
          do_put G (url <> ("/api/orders/" <> (show_ℤ id <> "/status"))) (status s))
