-- ===== src/Services/Catalog/Pages.antt =====
-- Reading the catalog page by page (services/product-catalog/main.go).
use rca_lab.Base.{
  ◌≡◌, refl, sym, ap, ◌∙◌, ℕ, zero, suc, ◌+◌, ◌*◌, ◌^◌, ◌≤◌, ◌<◌, List, [], ◌∷◌, ◌++◌, map, length,
  take, drop, arith,
}
use rca_lab.Base.Dict.{get}
use rca_lab.Base.Int.{ℤ, pos, ◌≤ℤ◌, ◌-ℤ◌, ◌*ℤ◌}
use rca_lab.Go.Duration.{wrap64}
use rca_lab.Cluster.Exec.{ok}
use rca_lab.Services.Text.{unchecked, parse_int}
use rca_lab.Services.Catalog.Products.{Product, integer, Request, Body, listed, Store}
use rca_lab.Services.Catalog.Handlers.{
  Paging, clamp_page, clamp_limit, window, paging, list_query, scan_all, list_answer, list_products,
}

-- Whatever is asked for, the page is at least 1 and the limit from 1 to 100.
pub paging_bounds :
    (page limit : ℤ)
    → let p = paging page limit in (pos 1 ≤ℤ p.page) × (pos 1 ≤ℤ p.limit) × (p.limit ≤ℤ pos 100)
unfolding paging window
paging_bounds page limit = (ground arith, ground arith, ground arith)

wrap64_small : (n : ℕ) → n < 2 ^ 63 → wrap64 (pos n) ≡ pos n
wrap64_small n h = ground arith

page_before : (page : ℕ) → (pos (suc page) -ℤ pos 1) ≡ pos page
unfolding ◌-ℤ◌
page_before page = ground arith

times_pos : (a b : ℕ) → (pos a *ℤ pos b) ≡ pos (a * b)
unfolding ◌*ℤ◌
times_pos a b = ground arith

clamp_page-pos : (page : ℕ) → clamp_page (pos (suc page)) ≡ pos (suc page)
clamp_page-pos page = ground arith

clamp_limit-pos : (limit : ℕ) → 1 ≤ limit → limit ≤ 100 → clamp_limit (pos limit) ≡ pos limit
clamp_limit-pos limit a b = ground arith

le_times : (a b : ℕ) → 1 ≤ b → a ≤ a * b
le_times a zero h = ground arith
le_times a (suc b) h = ground arith

window_exact :
    (page limit : ℕ)
    → page < 2 ^ 63
    → page * limit < 2 ^ 63
    → wrap64 (wrap64 (pos (suc page) -ℤ pos 1) *ℤ pos limit) ≡ pos (page * limit)
window_exact page limit c d =
    ap (λ n. wrap64 (wrap64 n *ℤ pos limit)) (page_before page)
    ∙ (ap (λ n. wrap64 (n *ℤ pos limit)) (wrap64_small page c)
        ∙ (ap wrap64 (times_pos page limit) ∙ wrap64_small (page * limit) d))

-- A page and a limit in range are taken as they are, and the offset is exact if it fits 64 bits.
paging_exact :
    (page limit : ℕ)
    → 1 ≤ limit
    → limit ≤ 100
    → page * limit < 2 ^ 63
    → paging (pos (suc page)) (pos limit)
      ≡ record { page = pos (suc page); limit = pos limit; offset = pos (page * limit) }
unfolding paging window
paging_exact page limit a b d =
    rw (clamp_page-pos page, clamp_limit-pos limit a b)
      (ap (λ (o : ℤ). record { page = pos (suc page); limit = pos limit; offset = o })
        (window_exact page limit (omega (arith, le_times page limit a)) d))

-- The products that an answer lists.
abbrev pub shown : Body → List Product
shown (listed products page limit) = products
shown _ = []

-- Requests for consecutive pages of one limit, from the page after so many.
abbrev pub Consecutive : ℕ → ℕ → List Request → Type 0
Consecutive page limit [] = Unit
Consecutive page limit (r ∷ rest) =
    (unchecked (parse_int (get r.query "page")) ≡ pos (suc page))
    × (unchecked (parse_int (get r.query "limit")) ≡ pos limit)
    × Consecutive (suc page) limit rest

-- The database answers the listing's query, whose arguments are a limit and an offset, with those
-- rows of the table, all of which scan, and changes nothing.
abbrev pub Selects : (S : Store) → List Product → S.World → Type 0
Selects S table w =
    (limit offset : ℕ)
    → S.query list_query (integer (pos limit) ∷ integer (pos offset) ∷ []) w
      ≡ (ok (map ok (take limit (drop offset table))), w)

module _ (S : Store) where
  -- The products of the answers to the requests, one request after the other.
  abbrev pub read_pages : List Request → S.World → List Product
  read_pages [] w = []
  read_pages (r ∷ rest) w =
      let (answer, w') = list_products S r w in shown answer.body ++ read_pages rest w'

scan_all-map : (products : List Product) → scan_all (map ok products) ≡ ok products
unfolding scan_all
scan_all-map [] = refl
scan_all-map (p ∷ rest) = rw (scan_all-map rest) refl

list_answer-shown :
    (p : Paging) (products : List Product)
    → shown (list_answer p (ok (map ok products))).body ≡ products
unfolding list_answer
list_answer-shown p products = rw (scan_all-map products) refl

take_nil : {A : Type 0} (n : ℕ) → take {A = A} n [] ≡ []
take_nil zero = refl
take_nil (suc n) = refl

drop_nil : {A : Type 0} (n : ℕ) → drop {A = A} n [] ≡ []
drop_nil zero = refl
drop_nil (suc n) = refl

suc_plus : (n m : ℕ) → suc (n + m) ≡ suc n + m
suc_plus n m = omega arith

take-drop : {A : Type 0} (n m : ℕ) (xs : List A) → take n xs ++ take m (drop n xs) ≡ take (n + m) xs
take-drop zero m xs = ground arith
take-drop {A} (suc n) m [] = ground (arith, take_nil {A = A} m, take_nil {A = A} (suc n + m))
take-drop (suc n) m (x ∷ xs) =
    ap (λ t. x ∷ t) (take-drop n m xs) ∙ ap (λ (k : ℕ). take k (x ∷ xs)) (suc_plus n m)

drop-drop : {A : Type 0} (n m : ℕ) (xs : List A) → drop n (drop m xs) ≡ drop (m + n) xs
drop-drop n zero xs = ground arith
drop-drop {A} n (suc m) [] = ground (arith, drop_nil {A = A} n, drop_nil {A = A} (suc m + n))
drop-drop n (suc m) (x ∷ xs) = drop-drop n m xs ∙ ap (λ (k : ℕ). drop k (x ∷ xs)) (suc_plus m n)

module _ (S : Store) (table : List Product) (limit : ℕ) (w : S.World) where
  page_lem :
      (page : ℕ) (r : Request)
      → 1 ≤ limit
      → limit ≤ 100
      → page * limit < 2 ^ 63
      → unchecked (parse_int (get r.query "page")) ≡ pos (suc page)
      → unchecked (parse_int (get r.query "limit")) ≡ pos limit
      → Selects S table w
      → let (answer, w') = list_products S r w in
        (shown answer.body ≡ take limit (drop (page * limit) table)) × (w' ≡ w)
  unfolding list_products
  page_lem page r a b c p l selects =
      rw (p, l, paging_exact page limit a b c, selects limit (page * limit))
        (list_answer-shown _ _, refl)

  next_stretch :
      (page more : ℕ)
      → take limit (drop (page * limit) table)
          ++ take (more * limit) (drop (suc page * limit) table)
        ≡ take (suc more * limit) (drop (page * limit) table)
  next_stretch page more =
      ap (λ (n : ℕ). take limit (drop (page * limit) table) ++ take (more * limit) (drop n table))
        (omega arith)
      ∙ (ap (λ xs. take limit (drop (page * limit) table) ++ take (more * limit) xs)
            (sym (drop-drop limit (page * limit) table))
          ∙ (take-drop limit (more * limit) (drop (page * limit) table)
              ∙ ap (λ (n : ℕ). take n (drop (page * limit) table)) (omega arith)))

  -- Consecutive pages are consecutive stretches of the table: reading them one after the other shows
  -- its rows from the first page's on, each once and in order, as many as the pages hold or are left.
  -- The limit is from 1 to 100, the offsets fit 64 bits, and the table stays as it is.
  pub read_pages_lem :
      (page : ℕ) (requests : List Request)
      → 1 ≤ limit
      → limit ≤ 100
      → (page + length requests) * limit < 2 ^ 63
      → Consecutive page limit requests
      → Selects S table w
      → read_pages S requests w ≡ take (length requests * limit) (drop (page * limit) table)
  read_pages_lem page [] a b c pages selects = ground arith
  read_pages_lem page (r ∷ rest) a b c (p, l, pages) selects =
      let (first, stays) = page_lem page r a b (ground arith) p l selects in
      rw (first, stays, read_pages_lem (suc page) rest a b (ground arith) pages selects)
        (next_stretch page (length rest))
