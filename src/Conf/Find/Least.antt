-- ===== src/Conf/Find/Least.antt =====
-- Which configuration FindPathConf chooses among the regular expressions.
use plux_mtx.Base.{
  String, ◌≡◌, refl, inl, inr, true, false, Option, some, none, List, [], ◌∷◌, All, is_some, ap,
  Option-cases, if◌then◌else◌,
}
use plux_mtx.Conf.PathConf.{PathConf}
use plux_mtx.Conf.Names.{NameErr, is_valid_path_name}
use plux_mtx.Conf.Find.{
  PathConfs, Found, found, not_found, invalid_name, not_configured, lookup, conf_less, insert_conf,
  regexp_confs, conf_match, first_match, find_path_conf,
}
use plux_mtx.Conf.Find.Order.{
  conf_less_irrefl, IsSorted, All-uninsert, regexp_confs-IsSorted, Among, Occurs, Among-Occurs,
}

module _ (submatch : String → String → Option (List String)) where
  -- A configuration that matches is not less than `c`.
  abbrev pub IsAfter : String → PathConf → PathConf → Type 0
  IsAfter name c d = is_some (conf_match submatch d name) ≡ true → conf_less d c ≡ false

  All-IsAfter :
      (name : String) (c : PathConf) (ds : List PathConf)
      → All (λ d. conf_less d c ≡ false) ds
      → All (IsAfter name c) ds
  All-IsAfter name c [] a = tt
  All-IsAfter name c (d ∷ ds) a = ((λ _. a.0), All-IsAfter name c ds a.1)

  -- What `first_match` finds in a sorted list.
  abbrev IsFirst : List PathConf → String → Found → Type 0
  IsFirst cs name (found c m) =
      Among c cs × (conf_match submatch c name ≡ some m) × All (IsAfter name c) cs
  IsFirst cs name (not_found e) =
      (e ≡ not_configured) × All (λ d. conf_match submatch d name ≡ none) cs

  later-IsFirst :
      (c : PathConf) (cs : List PathConf) (name : String) (r : Found)
      → conf_match submatch c name ≡ none
      → IsFirst cs name r
      → IsFirst (c ∷ cs) name r
  later-IsFirst c cs name (found d m) e f = (inr f.0, f.1, ((λ k. cc (ap is_some e)), f.2))
  later-IsFirst c cs name (not_found x) e f = (f.0, (e, f.1))

  first_match-IsFirst :
      (cs : List PathConf) (name : String)
      → IsSorted cs
      → IsFirst cs name (first_match submatch cs name)
  unfolding first_match
  first_match-IsFirst [] name s = (refl, tt)
  first_match-IsFirst (c ∷ cs) name s = elim (Option-cases (conf_match submatch c name)) [
    | inl e ↦ rw (e, first_match) (later-IsFirst c cs name _ e (first_match-IsFirst cs name s.1))
    | inr (m, e) ↦
        rw (e, first_match) (inl refl, e, ((λ _. conf_less_irrefl c), All-IsAfter name c cs s.0))
  ]

  -- What holds of the regular expressions holds of all, if it holds of what does not match.
  All-regexp_confs :
      (P : PathConf → Type 0) (name : String)
      → ((d : PathConf) → conf_match submatch d name ≡ none → P d)
      → (m : PathConfs) → All P (regexp_confs m)
      → All (λ (e : String × PathConf). P e.1) m
  unfolding regexp_confs
  All-regexp_confs P name h [] a = tt
  All-regexp_confs P name h ((k, c) ∷ m) a = go c.regexp refl a (All-regexp_confs P name h m)
    where
      go :
          (r : Option String)
          → c.regexp ≡ r
          → All P (if is_some r then insert_conf c (regexp_confs m) else regexp_confs m)
          → (All P (regexp_confs m) → All (λ (e : String × PathConf). P e.1) m)
          → All (λ (e : String × PathConf). P e.1) ((k, c) ∷ m)
      go none e b ih = (h c (unfold conf_match in rw (e, conf_match)), ih b)
      go (some x) e b ih =
          ((All-uninsert P c (regexp_confs m) b).0, ih (All-uninsert P c (regexp_confs m) b).1)

  abbrev pub IsChosen : PathConfs → String → Found → Type 0
  IsChosen confs name (found c m) =
      Occurs c confs
      × (conf_match submatch c name ≡ some m)
      × All (λ (e : String × PathConf). IsAfter name c e.1) confs
  IsChosen confs name (not_found x) =
      (x ≡ not_configured)
      × All (λ (e : String × PathConf). conf_match submatch e.1 name ≡ none) confs

  IsFirst-IsChosen :
      (confs : PathConfs) (name : String) (r : Found)
      → IsFirst (regexp_confs confs) name r
      → IsChosen confs name r
  IsFirst-IsChosen confs name (found c m) f = (
    Among-Occurs c confs f.0,
    f.1,
    All-regexp_confs (IsAfter name c) name (λ d e k. cc (ap is_some e)) confs f.2,
  )
  IsFirst-IsChosen confs name (not_found x) f =
      (f.0, All-regexp_confs (λ d. conf_match submatch d name ≡ none) name (λ d e. e) confs f.1)

  -- For a valid name that is no key: the result is one of the configurations, whose regular
  -- expression matches, with the groups of the match, and no configuration that matches comes before it in
  -- the order (by name, `all` and `all_others` last); or none of them all matches.
  pub find_path_conf-IsChosen :
      (confs : PathConfs) (name : String)
      → lookup name confs ≡ none
      → is_valid_path_name name ≡ none
      → IsChosen confs name (find_path_conf submatch confs name)
  unfolding find_path_conf
  find_path_conf-IsChosen confs name k v =
      rw (k, find_path_conf)
        (rw (v, find_path_conf)
          (IsFirst-IsChosen confs name _
            (first_match-IsFirst (regexp_confs confs) name (regexp_confs-IsSorted confs))))

  pub find_path_conf-key :
      (confs : PathConfs) (name : String) (c : PathConf)
      → lookup name confs ≡ some c
      → find_path_conf submatch confs name ≡ found c []
  unfolding find_path_conf
  find_path_conf-key confs name c e = rw (e, find_path_conf)

  pub find_path_conf-invalid :
      (confs : PathConfs) (name : String) (x : NameErr)
      → lookup name confs ≡ none
      → is_valid_path_name name ≡ some x
      → find_path_conf submatch confs name ≡ not_found (invalid_name x)
  unfolding find_path_conf
  find_path_conf-invalid confs name x e n = rw (e, find_path_conf) (rw (n, find_path_conf))
