-- ===== src/Base/Texts.antt =====
-- Texts: equality as a decision, the byte order, prefixes and first occurrences.
use Prim.Native.Char.{code}
use Prim.Native.String.{String}
use Prim.Native.Nat.{ℕ, compare, Ordering}
use text.Mathlib.Text.{◌==◌}
use text.Mathlib.TextEquality.{eq_iff}
use mathlib.Core.Path.{◌≡◌, refl}
use mathlib.Core.Bool.{Bool, true, false}
use mathlib.Core.List.{List, [], ◌∷◌}
use mathlib.Core.Logic.{inl, inr}
use native.Mathlib.Omega.{arith}
use plux_mtx.Base.Tests.{Bool-cases}

infix 50 ◌==s◌
abbrev pub ◌==s◌ : String → String → Bool
s ==s t = s == t

pub text_eq : (s t : String) → (s ==s t) ≡ true → s ≡ t
text_eq s t h = (eq_iff s t).0 h

pub eq_text : (s t : String) → s ≡ t → (s ==s t) ≡ true
eq_text s t h = (eq_iff s t).1 h

pub text_refl : (s : String) → (s ==s s) ≡ true
text_refl s = (eq_iff s s).1 refl

unfoldable pub text_discrete : Discrete String
text_discrete s t = elim (Bool-cases (s == t)) [
  | inl h ↦ yes (text_eq s t h)
  | inr h ↦ no λ e. cc (eq_text s t e)
]

-- The code points of a text: its bytes, if it is ASCII.
abbrev pub codes : String → List ℕ
codes String.[] = []
codes (String.◌∷◌ letter rest) = code letter ∷ codes rest

-- The order of Go's strings. UTF-8 keeps the order of code points.
unfoldable pub codes_lt : List ℕ → List ℕ → Bool
codes_lt [] [] = false
codes_lt [] (b ∷ t) = true
codes_lt (a ∷ s) [] = false
codes_lt (a ∷ s) (b ∷ t) =
    let rest = codes_lt s t in
    elim (compare a b) [ Ordering.lt ↦ true | Ordering.eq ↦ rest | Ordering.gt ↦ false ]

unfoldable pub text_lt : String → String → Bool
unfolding codes_lt
text_lt s t = codes_lt (codes s) (codes t)

codes_lt_irrefl : (s : List ℕ) → codes_lt s s ≡ false
unfolding codes_lt
codes_lt_irrefl [] = refl
codes_lt_irrefl (a ∷ s) = ground (arith, codes_lt_irrefl s)

codes_lt_trans : (s t u : List ℕ) → codes_lt s t ≡ true → codes_lt t u ≡ true → codes_lt s u ≡ true
unfolding codes_lt
codes_lt_trans [] [] u h k = cc
codes_lt_trans [] (b ∷ t) [] h k = cc
codes_lt_trans [] (b ∷ t) (c ∷ u) h k = refl
codes_lt_trans (a ∷ s) [] u h k = cc
codes_lt_trans (a ∷ s) (b ∷ t) [] h k = cc
codes_lt_trans (a ∷ s) (b ∷ t) (c ∷ u) h k = ground (arith, codes_lt_trans s t u)

pub text_lt_irrefl : (s : String) → text_lt s s ≡ false
unfolding text_lt
text_lt_irrefl s = codes_lt_irrefl (codes s)

pub text_lt_trans : (s t u : String) → text_lt s t ≡ true → text_lt t u ≡ true → text_lt s u ≡ true
unfolding text_lt
text_lt_trans s t u = codes_lt_trans (codes s) (codes t) (codes u)
