-- ===== src/Path/Ledger.antt =====
-- The account of the requests of a path: how often each was answered, and how often it is on hold.
use plux_mtx.Base.{
  ℕ, suc, ◌+◌, ◌≡◌, refl, Bool, false, List, [], ◌∷◌, ◌++◌, ◌==◌, arith, if◌then◌else◌,
}
use plux_mtx.Path.State.{CorePath, Effect, DescribeReq, AddReaderReq, describe_res, add_reader_res}

-- Whether an effect answers the describe request, or the reader request, of that identity.
unfoldable pub answers_describe : ℕ → Effect → Bool
answers_describe id (describe_res i r) = i == id
answers_describe id _ = false

unfoldable pub answers_reader : ℕ → Effect → Bool
answers_reader id (add_reader_res i r) = i == id
answers_reader id _ = false

unfoldable pub describes_answered : ℕ → List Effect → ℕ
unfolding answers_describe
describes_answered id [] = 0
describes_answered id (e ∷ es) =
    let rest = describes_answered id es in if answers_describe id e then suc rest else rest

unfoldable pub readers_answered : ℕ → List Effect → ℕ
unfolding answers_reader
readers_answered id [] = 0
readers_answered id (e ∷ es) =
    let rest = readers_answered id es in if answers_reader id e then suc rest else rest

unfoldable pub describes_held : ℕ → List DescribeReq → ℕ
describes_held id [] = 0
describes_held id (r ∷ rs) =
    let rest = describes_held id rs in if r.id == id then suc rest else rest

unfoldable pub readers_held : ℕ → List AddReaderReq → ℕ
readers_held id [] = 0
readers_held id (r ∷ rs) = let rest = readers_held id rs in if r.id == id then suc rest else rest

pub describes_held-append :
    (id : ℕ) (xs ys : List DescribeReq)
    → describes_held id (xs ++ ys) ≡ describes_held id xs + describes_held id ys
unfolding describes_held
describes_held-append id [] ys = omega arith
describes_held-append id (x ∷ xs) ys = ground (arith, describes_held-append id xs ys)

pub readers_held-append :
    (id : ℕ) (xs ys : List AddReaderReq)
    → readers_held id (xs ++ ys) ≡ readers_held id xs + readers_held id ys
unfolding readers_held
readers_held-append id [] ys = omega arith
readers_held-append id (x ∷ xs) ys = ground (arith, readers_held-append id xs ys)

-- A path that has ended has answered what it held, and leaves it in the lists.
unfoldable pub describe_account : ℕ → CorePath → ℕ
unfolding describes_answered describes_held
describe_account id p =
    describes_answered id p.out
    + (if p.done then 0 else describes_held id p.describe_requests_on_hold)

unfoldable pub reader_account : ℕ → CorePath → ℕ
unfolding readers_answered readers_held
reader_account id p =
    readers_answered id p.out
    + (if p.done then 0 else readers_held id p.reader_add_requests_on_hold)

-- The same requests are answered.
pub record SameAnswers (xs ys : List Effect) : Type 0 where
  pub describes : (id : ℕ) → describes_answered id xs ≡ describes_answered id ys
  pub readers : (id : ℕ) → readers_answered id xs ≡ readers_answered id ys

pub SameAnswers-refl : (xs : List Effect) → SameAnswers xs xs
SameAnswers-refl xs = record { describes = λ id. refl; readers = λ id. refl }
