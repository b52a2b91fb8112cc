-- ===== src/Base/Equality.antt =====
-- `!=`, `reflect.DeepEqual` and `slices.Equal` of Go, on every type whose equality is decided.
use mathlib.Core.Path.{◌≡◌, refl}
use mathlib.Core.Bool.{Bool, true, false, ◌||◌}
use mathlib.Core.List.{List}
use Prim.Native.Nat.{ℕ}
use Prim.Native.String.{String}
use native.Mathlib.Decide.{ℕ_discrete}
use plux_mtx.Base.Texts.{text_discrete}

pub record Comparable (A : Type 0) : Type 0 where
  pub discrete : Discrete A

pub Bool-discrete : Discrete Bool
Bool-discrete = hlevel

pub List-String-discrete : Discrete (List String)
List-String-discrete = hlevel text_discrete

pub List-ℕ-discrete : Discrete (List ℕ)
List-ℕ-discrete = hlevel ℕ_discrete

instance abbrev pub Bool-Comparable : Comparable Bool
Bool-Comparable = record { discrete = Bool-discrete }

instance abbrev pub ℕ-Comparable : Comparable ℕ
ℕ-Comparable = record { discrete = ℕ_discrete }

instance abbrev pub String-Comparable : Comparable String
String-Comparable = record { discrete = text_discrete }

instance abbrev pub List-String-Comparable : Comparable (List String)
List-String-Comparable = record { discrete = List-String-discrete }

instance abbrev pub List-ℕ-Comparable : Comparable (List ℕ)
List-ℕ-Comparable = record { discrete = List-ℕ-discrete }

abbrev pub is_refuted {ℓ} : {P : Type ℓ} → Dec P → Bool
is_refuted (yes p) = false
is_refuted (no n) = true

pub or_false : (a b : Bool) → (a || b) ≡ false → (a ≡ false) × (b ≡ false)
or_false true b h = cc
or_false false b h = (refl, h)

module _ {A : Type 0} ⦃c : Comparable A⦄ where
  unfoldable pub differs : A → A → Bool
  differs a b = is_refuted (c.discrete a b)

  pub same : (a b : A) → differs a b ≡ false → a ≡ b
  unfolding differs
  same a b = go (c.discrete a b)
    where
      go : (d : Dec (a ≡ b)) → is_refuted d ≡ false → a ≡ b
      go (yes e) h = e
      go (no n) h = cc

  pub differs_self : (a : A) → differs a a ≡ false
  unfolding differs
  differs_self a = go (c.discrete a a)
    where
      go : (d : Dec (a ≡ a)) → is_refuted d ≡ false
      go (yes e) = refl
      go (no n) = absurd (n refl)

  pub differs_distinct : (a b : A) → ¬ (a ≡ b) → differs a b ≡ true
  unfolding differs
  differs_distinct a b k = go (c.discrete a b)
    where
      go : (d : Dec (a ≡ b)) → is_refuted d ≡ true
      go (yes e) = absurd (k e)
      go (no n) = refl

  -- A condition that ends with a comparison and does not hold.
  pub or_same : (r : Bool) (a b : A) → (r || differs a b) ≡ false → (r ≡ false) × (a ≡ b)
  or_same r a b h = let k = or_false r (differs a b) h in (k.0, same a b k.1)
