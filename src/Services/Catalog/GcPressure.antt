-- ===== src/Services/Catalog/GcPressure.antt =====
-- The variant of the catalog that renders cards for the products of a page
-- (services/product-catalog/variants/gc-pressure/src/main.go). What it renders is thrown away, so it
-- answers as the original does; a handler's second result is how many bytes it rendered.
use rca_lab.Base.{
  ℕ, zero, suc, ◌+◌, ◌==◌, String, ◌<>◌, List, [], ◌∷◌, Option, none, some, if◌then◌else◌,
}
use rca_lab.Base.Dict.{get}
use rca_lab.Base.Int.{ℤ}
use rca_lab.Cluster.Exec.{Result, ok, err}
use rca_lab.Services.Text.{accepted, parse_int, trim_prefix, until_slash}
use rca_lab.Services.Catalog.Products.{
  Product, text, integer, Request, Body, product, listed, found, in_category, failure, Response,
  respond, Row, row, no_rows, row_error, Store,
}
use rca_lab.Services.Catalog.Handlers.{
  Paging, asked, list_query, category_query, search_query, id_query, scan_all, scan_good,
}

abbrev pub breakpoints : ℕ
breakpoints = 12

abbrev pub slots : ℕ
slots = 96

-- The length of the JSON of a product's card at a breakpoint.
module _ (fragment : Product → ℕ → ℕ) where
  -- The buffer's length after so many slots.
  stamp : ℕ → ℕ → ℕ
  stamp zero size = 0
  stamp (suc left) size = stamp left size + size

  render_card : ℕ → ℕ → Product → ℕ
  unfolding stamp
  render_card zero bp p = 0
  render_card (suc left) bp p = stamp slots (fragment p bp) + render_card left (suc bp) p

  unfoldable pub render_product_cards : List Product → ℕ
  unfolding render_card
  render_product_cards [] = 0
  render_product_cards (p ∷ rest) = render_card breakpoints 0 p + render_product_cards rest

  listing_cards : Paging → Result (List Product) → Response × ℕ
  unfolding render_product_cards
  listing_cards p (err e) = (respond 500 (failure ("scan error: " <> e.message)), 0)
  listing_cards p (ok products) =
      (respond 200 (listed products p.page p.limit), render_product_cards products)

  list_cards : Paging → Result (List (Result Product)) → Response × ℕ
  unfolding scan_all listing_cards
  list_cards p (err e) = (respond 500 (failure ("query error: " <> e.message)), 0)
  list_cards p (ok rows) = listing_cards p (scan_all rows)

  search_cards : String → Result (List (Result Product)) → Response × ℕ
  unfolding scan_good render_product_cards
  search_cards q (err e) = (respond 500 (failure ("search error: " <> e.message)), 0)
  search_cards q (ok rows) =
      (respond 200 (found (scan_good rows) q), render_product_cards (scan_good rows))

  category_cards : String → Paging → Result (List (Result Product)) → Response × ℕ
  unfolding scan_good render_product_cards
  category_cards category p (err e) = (respond 500 (failure ("query error: " <> e.message)), 0)
  category_cards category p (ok rows) = (
    respond 200 (in_category (scan_good rows) category p.page p.limit),
    render_product_cards (scan_good rows),
  )

  row_cards : Row Product → Response × ℕ
  unfolding render_product_cards
  row_cards (row p) = (respond 200 (product p), render_product_cards (p ∷ []))
  row_cards no_rows = (respond 404 (failure "product not found"), 0)
  row_cards (row_error e) = (respond 500 (failure ("query error: " <> e.message)), 0)

  module _ (S : Store) where
    open S use {World, query, query_row}

    abbrev Handler : Type 0
    Handler = World → (Response × ℕ) × World

    abbrev answered : {A : Type 0} → (A → Response × ℕ) → (World → A × World) → Handler
    answered answer m w = let (r, w') = m w in (answer r, w')

    abbrev refuse : ℕ → Body → Handler
    refuse status body w = ((respond status body, 0), w)

    unfoldable pub list_products_rendering : Request → Handler
    unfolding list_cards
    list_products_rendering r =
        let p = asked r in
        answered (list_cards p) (query list_query (integer p.limit ∷ integer p.offset ∷ []))

    by_id : Option ℤ → Handler
    unfolding row_cards
    by_id none = refuse 400 (failure "invalid product ID")
    by_id (some id) = answered row_cards (query_row id_query (integer id ∷ []))

    unfoldable pub product_by_id_rendering : Request → Handler
    unfolding by_id
    product_by_id_rendering r =
        if r.method == "GET"
        then by_id (accepted (parse_int (until_slash (trim_prefix r.path "/products/"))))
        else refuse 405 (failure "method not allowed")

    unfoldable pub search_rendering : Request → Handler
    unfolding search_cards
    search_rendering r =
        let q = get r.query "q" in
        if q == ""
        then refuse 400 (failure "query parameter 'q' is required")
        else answered (search_cards q) (query search_query (text q ∷ []))

    unfoldable pub category_rendering : Request → Handler
    unfolding category_cards
    category_rendering r =
        let category = trim_prefix r.path "/products/category/" in
        let p = asked r in
        if category == ""
        then refuse 400 (failure "category is required")
        else answered (category_cards category p)
            (query category_query (text category ∷ integer p.limit ∷ integer p.offset ∷ []))
