-- ===== src/Manager/Maps.antt =====
-- Laws of the maps with text keys.
use text.Mathlib.TextEquality.{eq_iff}
use plux_mtx.Base.{
  String, ◌≡◌, refl, Bool, true, false, Option, some, none, List, [], ◌∷◌, arith, All, ◌==s◌,
  if◌then◌else◌, text_refl, text_eq, sym, ◌∙◌, subst, some_inj,
}
use mathlib.Core.Path.{subst₂}
use plux_mtx.Conf.Find.{lookup}
use plux_mtx.Manager.State.{insert, remove, PathData}
use plux_mtx.Manager.Handlers.{set_ready}
use plux_mtx.Manager.Reload.{move_path}

module _ {ℓ} {V : Type ℓ} where
  pub lookup-insert :
      (name key : String) (value : V) (entries : List (String × V))
      → lookup key (insert name value entries)
        ≡ (if name ==s key then some value else lookup key entries)
  unfolding lookup insert
  lookup-insert name key value [] = refl
  lookup-insert name key value ((first, other) ∷ rest) = ground (
    arith,
    eq_iff first key,
    eq_iff name key,
    eq_iff first name,
    lookup-insert name key value rest,
  )

  pub lookup-remove :
      (k j : String) (m : List (String × V))
      → lookup j (remove k m) ≡ (if k ==s j then none else lookup j m)
  unfolding lookup remove
  lookup-remove k j [] = ground arith
  lookup-remove k j ((i, w) ∷ m) =
      ground (arith, eq_iff i j, eq_iff i k, eq_iff k j, lookup-remove k j m)

  -- Every key stands once.
  abbrev pub IsDistinct : List (String × V) → Type ℓ
  IsDistinct [] = Unit
  IsDistinct ((k, v) ∷ m) = (lookup k m ≡ none) × IsDistinct m

  pub insert-IsDistinct :
      (k : String) (v : V) (m : List (String × V)) → IsDistinct m → IsDistinct (insert k v m)
  unfolding lookup insert
  insert-IsDistinct k v [] d = (refl, tt)
  insert-IsDistinct k v ((i, w) ∷ m) d =
      ground (arith, eq_iff k i, eq_iff i k, lookup-insert k i v m, insert-IsDistinct k v m d.1)

  pub remove-IsDistinct :
      (k : String) (m : List (String × V)) → IsDistinct m → IsDistinct (remove k m)
  unfolding lookup remove
  remove-IsDistinct k [] d = tt
  remove-IsDistinct k ((i, w) ∷ m) d =
      ground (arith, eq_iff k i, eq_iff i k, lookup-remove k i m, remove-IsDistinct k m d.1)

-- What a change of one entry makes of a lookup.
abbrev pub changed : Bool → (PathData → PathData) → Option PathData → Option PathData
changed b f none = none
changed true f (some pd) = some (f pd)
changed false f (some pd) = some pd

pub lookup-move_path :
    (k j name : String) (m : List (String × PathData))
    → lookup j (move_path k name m)
      ≡ changed (k ==s j) (λ pd. record pd { conf_name = name }) (lookup j m)
unfolding lookup move_path
lookup-move_path k j name [] = refl
lookup-move_path k j name ((i, pd) ∷ m) =
    ground (arith, eq_iff i j, eq_iff i k, eq_iff k j, lookup-move_path k j name m)

pub lookup-set_ready :
    (k j : String) (b : Bool) (m : List (String × PathData))
    → lookup j (set_ready k b m) ≡ changed (k ==s j) (λ pd. record pd { ready = b }) (lookup j m)
unfolding lookup set_ready
lookup-set_ready k j b [] = refl
lookup-set_ready k j b ((i, pd) ∷ m) =
    ground (arith, eq_iff i j, eq_iff i k, eq_iff k j, lookup-set_ready k j b m)

pub move_path-IsDistinct :
    (k name : String) (m : List (String × PathData))
    → IsDistinct m
    → IsDistinct (move_path k name m)
unfolding lookup move_path
move_path-IsDistinct k name [] d = tt
move_path-IsDistinct k name ((i, pd) ∷ m) d =
    ground (
      arith,
      eq_iff k i,
      eq_iff i k,
      lookup-move_path k i name m,
      move_path-IsDistinct k name m d.1,
    )

pub set_ready-IsDistinct :
    (k : String) (b : Bool) (m : List (String × PathData))
    → IsDistinct m
    → IsDistinct (set_ready k b m)
unfolding lookup set_ready
set_ready-IsDistinct k b [] d = tt
set_ready-IsDistinct k b ((i, pd) ∷ m) d =
    ground (arith, eq_iff k i, eq_iff i k, lookup-set_ready k i b m, set_ready-IsDistinct k b m d.1)

-- What holds of every entry that can be looked up.
abbrev pub Entries {ℓ} : {V : Type ℓ} → (String → V → Type 0) → List (String × V) → Type ℓ
Entries {V = V} P m = (k : String) (v : V) → lookup k m ≡ some v → P k v

module _ {ℓ} {V : Type ℓ} (P : String → V → Type 0) where
  pub insert-Entries :
      (k : String) (v : V) (m : List (String × V))
      → P k v
      → ((j : String) (w : V) → (k ==s j) ≡ false → lookup j m ≡ some w → P j w)
      → Entries P (insert k v m)
  insert-Entries k v m h es j w e = go (k ==s j) refl (lookup-insert k j v m)
    where
      go :
          (b : Bool)
          → (k ==s j) ≡ b
          → lookup j (insert k v m) ≡ (if b then some v else lookup j m)
          → P j w
      go true same l = subst₂ P (text_eq k j same) (some_inj v w (sym l ∙ e)) h
      go false other l = es j w other (sym l ∙ e)

  pub remove-Entries :
      (k : String) (m : List (String × V))
      → ((j : String) (v : V) → (k ==s j) ≡ false → lookup j m ≡ some v → P j v)
      → Entries P (remove k m)
  remove-Entries k m es j w e = go (k ==s j) refl (lookup-remove k j m)
    where
      go :
          (b : Bool)
          → (k ==s j) ≡ b
          → lookup j (remove k m) ≡ (if b then none else lookup j m)
          → P j w
      go true same l = cc
      go false other l = es j w other (sym l ∙ e)

  -- What holds of the entries that can be looked up holds of all, if every key stands once.
  pub Entries-All :
      (m : List (String × V)) → IsDistinct m → Entries P m → All (λ (e : String × V). P e.0 e.1) m
  unfolding lookup
  Entries-All [] d es = tt
  Entries-All ((k, v) ∷ m) d es =
      (es k v (rw (text_refl k)), Entries-All m d.1 λ j w e. later j w e)
    where
      later : (j : String) (w : V) → lookup j m ≡ some w → P j w
      later j w e = es j w (ground (arith, eq_iff k j, d.0))

-- An entry that is looked up behind a change of one entry.
pub changed-Entries :
    (P Q : String → PathData → Type 0) (f : PathData → PathData) (k : String)
    (m n : List (String × PathData))
    → ((j : String) → lookup j n ≡ changed (k ==s j) f (lookup j m))
    → ((j : String) (pd : PathData) → (k ==s j) ≡ true → P j pd → Q j (f pd))
    → ((j : String) (pd : PathData) → (k ==s j) ≡ false → P j pd → Q j pd)
    → Entries P m
    → Entries Q n
changed-Entries P Q f k m n l h h' es j pd e = go (k ==s j) (lookup j m) refl refl (sym (l j) ∙ e)
  where
    go :
        (b : Bool) (o : Option PathData)
        → (k ==s j) ≡ b
        → lookup j m ≡ o
        → changed b f o ≡ some pd
        → Q j pd
    go b none s r q = cc
    go true (some pd') s r q = subst (Q j) (some_inj _ _ q) (h j pd' s (es j pd' r))
    go false (some pd') s r q = subst (Q j) (some_inj _ _ q) (h' j pd' s (es j pd' r))
