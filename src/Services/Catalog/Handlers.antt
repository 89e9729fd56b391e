-- ===== src/Services/Catalog/Handlers.antt =====
-- The handlers of the catalog (services/product-catalog/main.go).
use rca_lab.Base.{ℕ, ◌||◌, ◌==◌, String, ◌<>◌, List, [], ◌∷◌, Option, none, some, if◌then◌else◌}
use rca_lab.Base.Dict.{get}
use rca_lab.Base.Int.{ℤ, pos, ◌-ℤ◌, ◌*ℤ◌, ltb_ℤ}
use rca_lab.Go.Duration.{wrap64}
use rca_lab.Cluster.Exec.{Exec, Result, ok, err, ◌>>◌}
use rca_lab.Services.Text.{accepted, unchecked, parse_int, trim_prefix, until_slash, contains_slash}
use rca_lab.Services.Catalog.Products.{
  Product, text, integer, json, Request, Body, product, listed, found, in_category, recommended,
  status_text, failure, plain, Response, respond, Row, row, no_rows, row_error, Inserted, Store,
}

-- A page of at least 1, a limit from 1 to 100, and the rows before the page, which wrap at 64 bits.
pub record Paging : Type 0 where
  pub page : ℤ
  pub limit : ℤ
  pub offset : ℤ

abbrev pub clamp_page : ℤ → ℤ
clamp_page page = if ltb_ℤ page (pos 1) then pos 1 else page

abbrev pub clamp_limit : ℤ → ℤ
clamp_limit limit = if ltb_ℤ limit (pos 1) || ltb_ℤ (pos 100) limit then pos 20 else limit

-- `offset := (page - 1) * limit`
unfoldable pub window : ℤ → ℤ → Paging
window page limit = record {
  page = page;
  limit = limit;
  offset = wrap64 (wrap64 (page -ℤ pos 1) *ℤ limit);
}

unfoldable pub paging : ℤ → ℤ → Paging
paging asked_page asked_limit = window (clamp_page asked_page) (clamp_limit asked_limit)

abbrev pub asked : Request → Paging
asked r =
    paging (unchecked (parse_int (get r.query "page")))
      (unchecked (parse_int (get r.query "limit")))

abbrev pub columns : String
columns =
    "SELECT id, name, description, category, price, sku, metadata, image_url, created_at, updated_at FROM products"

abbrev pub list_query : String
list_query = columns <> " ORDER BY id LIMIT $1 OFFSET $2"

abbrev pub category_query : String
category_query = columns <> " WHERE category = $1 ORDER BY id LIMIT $2 OFFSET $3"

abbrev pub search_query : String
search_query = columns <> " WHERE name ILIKE '%' || $1 || '%' LIMIT 50"

abbrev pub id_query : String
id_query = columns <> " WHERE id = $1"

abbrev insert_query : String
insert_query =
    "INSERT INTO products (name, description, category, price, sku, metadata, image_url) "
    <> "VALUES ($1,$2,$3,$4,$5,$6,$7) RETURNING id, created_at, updated_at"

-- The listing of products fails at the first row that does not scan.
unfoldable pub scan_all : List (Result Product) → Result (List Product)
scan_all [] = ok []
scan_all (err e ∷ rows) = err e
scan_all (ok p ∷ rows) = elim (scan_all rows) [ err e ↦ err e | ok ps ↦ ok (p ∷ ps) ]

-- The search and the category leave such rows out.
unfoldable pub scan_good : List (Result Product) → List Product
scan_good [] = []
scan_good (err e ∷ rows) = scan_good rows
scan_good (ok p ∷ rows) = p ∷ scan_good rows

-- What the listing answers, by the outcome of its query and of its scans.
listing : Paging → Result (List Product) → Response
listing p (err e) = respond 500 (failure ("scan error: " <> e.message))
listing p (ok products) = respond 200 (listed products p.page p.limit)

unfoldable pub list_answer : Paging → Result (List (Result Product)) → Response
unfolding scan_all listing
list_answer p (err e) = respond 500 (failure ("query error: " <> e.message))
list_answer p (ok rows) = listing p (scan_all rows)

unfoldable pub search_answer : String → Result (List (Result Product)) → Response
unfolding scan_good
search_answer q (err e) = respond 500 (failure ("search error: " <> e.message))
search_answer q (ok rows) = respond 200 (found (scan_good rows) q)

unfoldable pub category_answer : String → Paging → Result (List (Result Product)) → Response
unfolding scan_good
category_answer category p (err e) = respond 500 (failure ("query error: " <> e.message))
category_answer category p (ok rows) =
    respond 200 (in_category (scan_good rows) category p.page p.limit)

unfoldable pub row_answer : Row Product → Response
row_answer (row p) = respond 200 (product p)
row_answer no_rows = respond 404 (failure "product not found")
row_answer (row_error e) = respond 500 (failure ("query error: " <> e.message))

abbrev created : Product → Inserted → Product
created p new = record p { id = new.id; created_at = new.created_at; updated_at = new.updated_at }

create_answer : Product → Result Inserted → Response
create_answer p (err e) = respond 500 (failure ("insert error: " <> e.message))
create_answer p (ok new) = respond 201 (product (created p new))

-- `l > 0 && l <= 50` of a number that was read without an error; the product of both is an int32.
recommendation_limit : Option ℤ → ℤ
recommendation_limit none = pos 10
recommendation_limit (some l) =
    if ltb_ℤ (pos 0) l then (if ltb_ℤ (pos 50) l then pos 10 else l) else pos 10

recommend_answer : String → Result (List String) → Response
recommend_answer user_id (err e) = respond 502 (plain "upstream error")
recommend_answer user_id (ok ids) = respond 200 (recommended user_id ids)

health_answer : Result (Unit {0}) → Response
health_answer (err e) = respond 503 (failure "database unavailable")
health_answer (ok _) = respond 200 (status_text "ok")

module _ (S : Store) where
  open S use {World, ping, exec, query, query_row, insert_row, recommend}

  abbrev pub Handler : Type 0
  Handler = World → Response × World

  abbrev refuse : ℕ → Body → Handler
  refuse status body w = (respond status body, w)

  abbrev answered : {A : Type 0} → (Result A → Response) → Exec World A → Handler
  answered answer m w = let (r, w') = m w in (answer r, w')

  unfoldable pub health_handler : Handler
  unfolding health_answer
  health_handler = answered health_answer ping

  unfoldable pub list_products : Request → Handler
  list_products r =
      let p = asked r in
      answered (list_answer p) (query list_query (integer p.limit ∷ integer p.offset ∷ []))

  create : Result Product → Handler
  unfolding create_answer
  create (err e) w = (respond 400 (failure "invalid JSON"), w)
  create (ok p) w =
      answered (create_answer p)
        (insert_row insert_query (
          text p.name
          ∷ text p.description
          ∷ text p.category
          ∷ text p.price
          ∷ text p.sku
          ∷ json p.metadata
          ∷ text p.image_url
          ∷ []))
        w

  unfoldable pub create_product : Request → Handler
  unfolding create
  create_product r = create r.body

  unfoldable pub products_handler : Request → Handler
  products_handler r =
      if r.method == "GET"
      then list_products r
      else if r.method == "POST"
      then create_product r
      else refuse 405 (failure "method not allowed")

  by_id : Option ℤ → Handler
  by_id none w = (respond 400 (failure "invalid product ID"), w)
  by_id (some id) w = let (r, w') = query_row id_query (integer id ∷ []) w in (row_answer r, w')

  unfoldable pub product_by_id_handler : Request → Handler
  unfolding by_id
  product_by_id_handler r =
      if r.method == "GET"
      then by_id (accepted (parse_int (until_slash (trim_prefix r.path "/products/"))))
      else refuse 405 (failure "method not allowed")

  unfoldable pub search_handler : Request → Handler
  search_handler r =
      let q = get r.query "q" in
      if q == ""
      then refuse 400 (failure "query parameter 'q' is required")
      else answered (search_answer q) (query search_query (text q ∷ []))

  unfoldable pub category_handler : Request → Handler
  category_handler r =
      let category = trim_prefix r.path "/products/category/" in
      let p = asked r in
      if category == ""
      then refuse 400 (failure "category is required")
      else answered (category_answer category p)
          (query category_query (text category ∷ integer p.limit ∷ integer p.offset ∷ []))

  unfoldable pub recommendations_handler : Request → Handler
  unfolding recommendation_limit recommend_answer
  recommendations_handler r =
      let user_id = trim_prefix r.path "/products/recommendations/" in
      if (user_id == "") || contains_slash user_id
      then refuse 400 (plain "bad user id")
      else answered (recommend_answer user_id)
          (recommend user_id (recommendation_limit (accepted (parse_int (get r.query "limit")))))

  abbrev create_table : String
  create_table =
      "CREATE TABLE IF NOT EXISTS products ( id SERIAL PRIMARY KEY, name VARCHAR(500) NOT NULL, "
      <> ("description TEXT, category VARCHAR(100), price DECIMAL(10,2), sku VARCHAR(100), "
          <> ("metadata JSONB, image_url VARCHAR(500), created_at TIMESTAMP DEFAULT NOW(), "
              <> "updated_at TIMESTAMP DEFAULT NOW() )"))

  -- The table; the extension and the index may fail. An error is an exit with status 1.
  init_indexes : Exec World (Unit {0})
  init_indexes w =
      let (r, w') = exec "CREATE EXTENSION IF NOT EXISTS pg_trgm" w in
      let (r', w'') =
        exec
          "CREATE INDEX IF NOT EXISTS idx_products_name_trgm ON products USING gin (name gin_trgm_ops)"
          w' in
      (ok tt, w'')

  unfoldable pub init_db : Exec World (Unit {0})
  unfolding init_indexes
  init_db = exec create_table >> init_indexes
