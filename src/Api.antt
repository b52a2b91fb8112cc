-- ===== src/Api.antt =====
-- internal/api/paginate.go: the page of a listing that a query asks for, and how many pages there
-- are. The texts are those of the query, as code points.
pub mod Pages
use plux_mtx.Base.{
  ℕ, zero, suc, ◌+◌, ◌-◌, ◌*◌, ◌/◌, ◌%◌, ◌^◌, min, String, Bool, true, false, ◌&&◌, ◌==◌, ◌==s◌,
  ltb, leb, not, if◌then◌else◌, Option, some, none, List, [], ◌∷◌, length, take, drop, codes,
}

unfoldable pub page_count : ℕ → ℕ → ℕ
page_count items_len items_per_page =
    if not (items_len % items_per_page == 0)
    then suc (items_len / items_per_page)
    else items_len / items_per_page

module _ {ℓ} {A : Type ℓ} where
  -- The page count, and the items that are left.
  unfoldable pub paginate2 : List A → ℕ → ℕ → ℕ × List A
  unfolding page_count
  paginate2 items items_per_page page =
      let items_len : ℕ = length items in
      if items_len == 0 then (0, items) else (
        page_count items_len items_per_page,
        drop (min (page * items_per_page) items_len)
            (take (min (suc page * items_per_page) items_len) items),
      )

-- strconv.ParseUint with base 10 and 31 bits; `none` is its error.
unfoldable pub parse_digits : ℕ → List ℕ → Option ℕ
parse_digits n [] = if ltb n (2 ^ 31) then some n else none
parse_digits n (c ∷ cs) =
    let rest = parse_digits (10 * n + (c - 48)) cs in if leb 48 c && leb c 57 then rest else none

unfoldable pub parse_uint31 : List ℕ → Option ℕ
unfolding parse_digits
parse_uint31 [] = none
parse_uint31 (c ∷ cs) = parse_digits 0 (c ∷ cs)

pub data PaginateErr : Type 0 where
  invalid_number invalid_items_per_page : PaginateErr

pub data Paginated {ℓ} (A : Type ℓ) : Type ℓ where
  paginated : ℕ × List A → Paginated A
  paginate_err : PaginateErr → Paginated A

module _ {ℓ} {A : Type ℓ} where
  -- The second half of paginate: the page.
  unfoldable pub paginate_by : List A → ℕ → String → Paginated A
  unfolding parse_uint31 paginate2
  paginate_by items items_per_page page_str =
      if page_str ==s ""
      then paginated (paginate2 items items_per_page 0)
      else elim (parse_uint31 (codes page_str)) [
        | none ↦ paginate_err invalid_number
        | some page ↦ paginated (paginate2 items items_per_page page)
      ]

  unfoldable pub paginate : List A → String → String → Paginated A
  unfolding paginate_by
  paginate items items_per_page_str page_str =
      if items_per_page_str ==s ""
      then paginate_by items 100 page_str
      else elim (parse_uint31 (codes items_per_page_str)) [
        | none ↦ paginate_err invalid_number
        | some n ↦
            if n == 0 then paginate_err invalid_items_per_page else paginate_by items n page_str
      ]
