-- ===== src/Tests/Listings.antt =====
-- A listing of five items, two on a page.
use plux_mtx.Base.{ℕ, ◌≡◌, ◌≤◌, ◌<◌, ◌↔◌, refl, List, [], ◌∷◌, length, arith}
use plux_mtx.Api.{
  paginate2, paginate, paginate_by, paginated, paginate_err, parse_uint31, parse_digits, page_count,
  invalid_items_per_page,
}
use plux_mtx.Api.Pages.{pages, pages-partition}

abbrev five : List ℕ
five = 1 ∷ 2 ∷ 3 ∷ 4 ∷ 5 ∷ []

pages-partition_example :
    (pages five 2 (paginate2 five 2 1).0 ≡ five)
    × (length (paginate2 five 2 1).1 ≤ 2)
    × ((1 < (paginate2 five 2 1).0) ↔ (0 < length (paginate2 five 2 1).1))
pages-partition_example = pages-partition five 2 1 (omega arith)

second_page : paginate five "2" "1" ≡ paginated (3, 3 ∷ 4 ∷ [])
unfolding paginate paginate_by paginate2 parse_uint31 parse_digits page_count
second_page = refl

no_items : paginate five "0" "" ≡ paginate_err invalid_items_per_page
unfolding paginate parse_uint31 parse_digits
no_items = refl
