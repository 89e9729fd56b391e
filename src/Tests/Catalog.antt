-- ===== src/Tests/Catalog.antt =====
-- A catalog of three products, read two at a time.
use rca_lab.Base.{◌≡◌, refl, ℕ, String, List, [], ◌∷◌, map, take, drop, arith, none, ◌<>◌}
use rca_lab.Base.Dict.{lookup}
use rca_lab.Base.Int.{pos}
use rca_lab.Base.Text.{show_ℕ}
use rca_lab.Cluster.Exec.{Result, ok, err, errorf}
use rca_lab.Services.Text.{parse_int}
use rca_lab.Services.Catalog.Products.{Product, Argument, integer, Request, Store, no_rows}
use rca_lab.Services.Catalog.Pages.{Consecutive, read_pages, read_pages_lem}

abbrev item : ℕ → Product
item n = record {
  id = pos n;
  name = "Product " <> show_ℕ n;
  description = "";
  category = "books";
  price = "1";
  sku = "";
  metadata = none;
  image_url = "";
  created_at = pos 0;
  updated_at = pos 0;
}

abbrev table : List Product
table = item 1 ∷ item 2 ∷ item 3 ∷ []

-- The rows of the table that a limit and an offset select.
abbrev selected : List Argument → Result (List (Result Product))
selected (integer (pos limit) ∷ integer (pos offset) ∷ []) =
    ok (map ok (take limit (drop offset table)))
selected _ = err (errorf "OFFSET must not be negative")

abbrev store : Store
store = record {
  World = Unit;
  ping = λ w. (ok tt, w);
  exec = λ q w. (ok tt, w);
  query = λ q args w. (selected args, w);
  query_row = λ q args w. (no_rows, w);
  insert_row = λ q args w. (err (errorf "read only"), w);
  recommend = λ user limit w. (ok [], w);
}

abbrev page : String → Request
page n = record {
  method = "GET";
  path = "/products";
  query = ("page", n) ∷ ("limit", "2") ∷ [];
  body = err (errorf "EOF");
}

pages : Consecutive 0 2 (page "1" ∷ page "2" ∷ [])
unfolding parse_int lookup
pages = (refl, refl, (refl, refl, tt))

read_pages_lem_example : read_pages store (page "1" ∷ page "2" ∷ []) tt ≡ table
read_pages_lem_example =
    read_pages_lem store table 2 tt 0 (page "1" ∷ page "2" ∷ []) (omega arith) (omega arith)
      (omega arith) pages (λ limit offset. refl)
