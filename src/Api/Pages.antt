-- ===== src/Api/Pages.antt =====
-- The pages one after the other.
use native.Mathlib.Nat.{
  suc-mul, zero-mul, div-add-mod', lt-div-mul-add, mul-le-mul_right, div-mul-le_self,
}
use plux_mtx.Base.{
  ℕ, zero, suc, ◌*◌, ◌/◌, ◌%◌, ◌≤◌, ◌<◌, min, ◌≡◌, refl, ◌↔◌, sym, ap, ◌∙◌, true, false, not, ◌==◌,
  if◌then◌else◌, List, [], ◌∷◌, ◌++◌, length, take, drop, arith, Bool-cases, inl, inr, ltb, ltb→lt,
  length-take, length-drop, Bool,
}
use plux_mtx.Api.{page_count, paginate2}

module _ {ℓ} {A : Type ℓ} where
  take-drop : (a b : ℕ) (xs : List A) → a ≤ b → take a xs ++ drop a (take b xs) ≡ take b xs
  take-drop zero b xs h = refl
  take-drop (suc a) zero xs h = ground arith
  take-drop (suc a) (suc b) [] h = refl
  take-drop (suc a) (suc b) (x ∷ xs) h = ap (λ ys. x ∷ ys) (take-drop a b xs (omega arith))

  take_all : (xs : List A) → take (length xs) xs ≡ xs
  take_all [] = refl
  take_all (x ∷ xs) = ap (λ ys. x ∷ ys) (take_all xs)

  -- The first `k` pages.
  unfoldable pub pages : List A → ℕ → ℕ → List A
  unfolding paginate2
  pages items n zero = []
  pages items n (suc k) = pages items n k ++ (paginate2 items n k).1

  pages-take :
      (items : List A) (n k : ℕ)
      → (length items == 0) ≡ false
      → pages items n k ≡ take (min (k * n) (length items)) items
  unfolding pages paginate2
  pages-take items n zero e =
      let z : min (0 * n) (length items) ≡ 0 = omega (arith, zero-mul n) in
      sym (ap (λ m. take m items) z)
  pages-take items n (suc k) e =
      rw (e, pages-take items n k e)
        (take-drop (min (k * n) (length items)) (min (suc k * n) (length items)) items
          (omega (arith, suc-mul k n)))

covers : (len n : ℕ) → 0 < n → len ≤ page_count len n * n
unfolding page_count
covers len n h = go (len % n == 0) refl
  where
    go : (b : Bool) → (len % n == 0) ≡ b → len ≤ (if not b then suc (len / n) else len / n) * n
    go true e = ground (arith, div-add-mod' len n)
    go false e = omega (arith, suc-mul (len / n) n, lt-div-mul-add {a = len} {b = n} h)

-- A page is counted exactly if it begins before the end.
counted_iff : (len n k : ℕ) → 0 < n → (k < page_count len n) ↔ (k * n < len)
unfolding page_count
counted_iff len n k h = go (len % n == 0) refl
  where
    q : ℕ
    q = len / n

    go :
        (b : Bool)
        → (len % n == 0) ≡ b
        → (k < (if not b then suc (len / n) else len / n)) ↔ (k * n < len)
    go true e = (
      λ l.
          let m : suc k ≤ q = omega arith in
          omega (arith, suc-mul k n, mul-le-mul_right n m, div-mul-le_self len n, h),
      λ l. elim (Bool-cases (ltb k q)) [
        | inl f ↦ ltb→lt k q f
        | inr f ↦
            let m : q ≤ k = ground arith in ground (arith, mul-le-mul_right n m, div-add-mod' len n)
      ],
    )
    go false e = (
      λ l. let m : k ≤ q = omega arith in ground (arith, mul-le-mul_right n m, div-add-mod' len n),
      λ l. elim (Bool-cases (ltb k (suc q))) [
        | inl f ↦ ltb→lt k (suc q) f
        | inr f ↦
            let m : suc q ≤ k = ground arith in
            omega (arith, mul-le-mul_right n m, suc-mul q n, lt-div-mul-add {a = len} {b = n} h)
      ],
    )

-- The pages from the first to the last that is counted, one after the other, are all the items,
-- in order; no page is longer than asked for, and a page is counted exactly if it is not empty.
-- The number of items per page is not 0.
pub pages-partition {ℓ} :
    {A : Type ℓ} (items : List A) (n k : ℕ)
    → 0 < n
    → (pages items n (paginate2 items n k).0 ≡ items)
      × (length (paginate2 items n k).1 ≤ n)
      × ((k < (paginate2 items n k).0) ↔ (0 < length (paginate2 items n k).1))
unfolding pages paginate2
pages-partition [] n k h = (refl, omega arith, ((λ l. omega arith), (λ l. omega arith)))
pages-partition {A = A} (x ∷ xs) n k h = rw nonempty (
  pages-take items n count nonempty ∙ ap (λ m. take m items) all ∙ take_all items,
  omega (
    arith,
    suc-mul k n,
    length-take (min (suc k * n) (length items)) items,
    length-drop (min (k * n) (length items)) (take (min (suc k * n) (length items)) items),
  ),
  (
    λ l. omega (
      arith,
      h,
      suc-mul k n,
      (counted_iff (length items) n k h).0 l,
      length-take (min (suc k * n) (length items)) items,
      length-drop (min (k * n) (length items)) (take (min (suc k * n) (length items)) items),
    ),
    λ l. (counted_iff (length items) n k h).1 (
        omega (
          arith,
          length-take (min (suc k * n) (length items)) items,
          length-drop (min (k * n) (length items)) (take (min (suc k * n) (length items)) items),
        )),
  ),
)
  where
    items : List A
    items = x ∷ xs

    count : ℕ
    count = page_count (length items) n

    all : min (count * n) (length items) ≡ length items
    all = omega (arith, covers (length items) n h)

    nonempty : (length items == 0) ≡ false
    nonempty = ground arith
