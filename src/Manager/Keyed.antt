-- ===== src/Manager/Keyed.antt =====
-- Configurations that stand each under its own name, each name once, are looked up by their names.
use plux_mtx.Base.{
  String, ◌≡◌, refl, sym, ap, ◌∙◌, subst, inl, inr, Bool, true, false, Option, some, List, [], ◌∷◌,
  ◌==s◌, text_eq, eq_text, if◌then◌else◌, some_inj, Option-cases,
}
use plux_mtx.Conf.PathConf.{PathConf}
use plux_mtx.Conf.Names.{is_valid_path_name}
use plux_mtx.Conf.Find.{PathConfs, found, lookup, find_path_conf}
use plux_mtx.Conf.Find.Order.{Occurs}
use plux_mtx.Conf.Find.Least.{
  IsChosen, find_path_conf-IsChosen, find_path_conf-key, find_path_conf-invalid,
}
use plux_mtx.Manager.Maps.{IsDistinct}
use plux_mtx.Manager.Invariant.{IsKeyed}

pub keyed-lookup :
    (confs : PathConfs) (k : String) (c : PathConf)
    → IsKeyed confs
    → lookup k confs ≡ some c
    → c.name ≡ k
unfolding lookup
keyed-lookup [] k c d e = cc
keyed-lookup ((j, b) ∷ m) k c d e = go (j ==s k) refl e (keyed-lookup m k c d.1)
  where
    go :
        (t : Bool)
        → (j ==s k) ≡ t
        → (if t then some b else lookup k m) ≡ some c
        → (lookup k m ≡ some c → c.name ≡ k)
        → c.name ≡ k
    go true s q ih = sym (ap (λ (x : PathConf). x.name) (some_inj b c q)) ∙ (d.0 ∙ text_eq j k s)
    go false s q ih = ih q

keyed-Occurs :
    (confs : PathConfs) (c : PathConf)
    → IsKeyed confs
    → IsDistinct confs
    → Occurs c confs
    → lookup c.name confs ≡ some c
unfolding lookup
keyed-Occurs [] c d u o = elim o [ ]
keyed-Occurs ((j, b) ∷ m) c d u (inl e) =
    rw (eq_text j c.name (sym d.0 ∙ ap (λ (x : PathConf). x.name) e)) (ap some e)
keyed-Occurs ((j, b) ∷ m) c d u (inr o) = go (j ==s c.name) refl (keyed-Occurs m c d.1 u.1 o)
  where
    go :
        (t : Bool)
        → (j ==s c.name) ≡ t
        → lookup c.name m ≡ some c
        → (if t then some b else lookup c.name m) ≡ some c
    go false h e = e
    go true h e =
        let q : lookup j m ≡ some c = ap (λ x. lookup x m) (text_eq j c.name h) ∙ e in cc (u.0)

pub found_inj : (b c : PathConf) (ks ms : List String) → found b ks ≡ found c ms → b ≡ c
found_inj b c ks ms h = cc

module _ (submatch : String → String → Option (List String)) where
  -- The configuration that a name is looked up to stands under its own name.
  pub found-lookup :
      (confs : PathConfs) (k : String) (c : PathConf) (ms : List String)
      → IsKeyed confs
      → IsDistinct confs
      → find_path_conf submatch confs k ≡ found c ms
      → lookup c.name confs ≡ some c
  found-lookup confs k c ms d u f = elim (Option-cases (lookup k confs)) [
    | inr (b, e) ↦
        subst (λ (x : PathConf). lookup x.name confs ≡ some x)
          (found_inj b c [] ms (sym (find_path_conf-key submatch confs k b e) ∙ f))
          (ap (λ x. lookup x confs) (keyed-lookup confs k b d e) ∙ e)
    | inl e ↦ elim (Option-cases (is_valid_path_name k)) [
      | inr (x, n) ↦ cc (find_path_conf-invalid submatch confs k x e n)
      | inl n ↦
          keyed-Occurs confs c d u
            (subst (IsChosen submatch confs k) f (find_path_conf-IsChosen submatch confs k e n)).0
    ]
  ]
