-- ===== src/Conf/Find/Order.antt =====
-- internal/conf/path.go: the order of the configurations with a regular expression.
use plux_mtx.Base.{
  ◌≡◌, ◌⊎◌, inl, inr, Bool, true, false, List, [], ◌∷◌, arith, All, is_some, text_lt_irrefl,
  text_lt_trans, Bool-cases, if◌then◌else◌,
}
use plux_mtx.Conf.PathConf.{PathConf}
use plux_mtx.Conf.Find.{PathConfs, conf_less, insert_conf, regexp_confs}

pub conf_less_irrefl : (c : PathConf) → conf_less c c ≡ false
unfolding conf_less
conf_less_irrefl c = ground (arith, text_lt_irrefl c.name)

conf_less_trans :
    (c d e : PathConf) → conf_less c d ≡ true → conf_less d e ≡ true → conf_less c e ≡ true
unfolding conf_less
conf_less_trans c d e h k = ground (arith, text_lt_trans c.name d.name e.name)

-- No later entry is less than an earlier one.
abbrev pub IsSorted : List PathConf → Type 0
IsSorted [] = Unit
IsSorted (c ∷ cs) = All (λ d. conf_less d c ≡ false) cs × IsSorted cs

All-insert_conf :
    (P : PathConf → Type 0) (c : PathConf) (ds : List PathConf)
    → P c
    → All P ds
    → All P (insert_conf c ds)
unfolding insert_conf
All-insert_conf P c [] h a = (h, tt)
All-insert_conf P c (d ∷ ds) h a = elim (Bool-cases (conf_less c d)) [
  | inl e ↦ rw e (h, a)
  | inr e ↦ rw e (a.0, All-insert_conf P c ds h a.1)
]

pub All-uninsert :
    (P : PathConf → Type 0) (c : PathConf) (ds : List PathConf)
    → All P (insert_conf c ds)
    → P c × All P ds
unfolding insert_conf
All-uninsert P c [] a = a
All-uninsert P c (d ∷ ds) a = go (conf_less c d) a (All-uninsert P c ds)
  where
    go :
        (b : Bool)
        → All P (if b then c ∷ d ∷ ds else d ∷ insert_conf c ds)
        → (All P (insert_conf c ds) → P c × All P ds)
        → P c × All P (d ∷ ds)
    go true h ih = h
    go false h ih = ((ih h.1).0, (h.0, (ih h.1).1))

All-less :
    (c d : PathConf) (ds : List PathConf)
    → conf_less c d ≡ true
    → All (λ e. conf_less e d ≡ false) ds
    → All (λ e. conf_less e c ≡ false) ds
All-less c d [] h a = tt
All-less c d (e ∷ ds) h a = (ground (arith, conf_less_trans e c d), All-less c d ds h a.1)

insert_conf-IsSorted :
    (c : PathConf) (ds : List PathConf) → IsSorted ds → IsSorted (insert_conf c ds)
unfolding insert_conf
insert_conf-IsSorted c [] s = (tt, tt)
insert_conf-IsSorted c (d ∷ ds) s = elim (Bool-cases (conf_less c d)) [
  | inl e ↦ rw e (
    (
      ground (arith, conf_less_trans d c d, conf_less_trans c d c, conf_less_irrefl c),
      All-less c d ds e s.0,
    ),
    s,
  )
  | inr e ↦
      rw e (All-insert_conf (λ x. conf_less x d ≡ false) c ds e s.0, insert_conf-IsSorted c ds s.1)
]

pub regexp_confs-IsSorted : (m : PathConfs) → IsSorted (regexp_confs m)
unfolding regexp_confs
regexp_confs-IsSorted [] = tt
regexp_confs-IsSorted ((k, c) ∷ m) = elim (Bool-cases (is_some c.regexp)) [
  | inl e ↦ rw e (insert_conf-IsSorted c (regexp_confs m) (regexp_confs-IsSorted m))
  | inr e ↦ rw e (regexp_confs-IsSorted m)
]

-- The configuration is one of the list, or of the map.
abbrev pub Among : PathConf → List PathConf → Type 0
Among c [] = ⊥
Among c (d ∷ ds) = (d ≡ c) ⊎ Among c ds

abbrev pub Occurs : PathConf → PathConfs → Type 0
Occurs c [] = ⊥
Occurs c ((k, d) ∷ m) = (d ≡ c) ⊎ Occurs c m

Among-insert_conf :
    (x c : PathConf) (ds : List PathConf) → Among x (insert_conf c ds) → (c ≡ x) ⊎ Among x ds
unfolding insert_conf
Among-insert_conf x c [] a = a
Among-insert_conf x c (d ∷ ds) a = go (conf_less c d) a (Among-insert_conf x c ds)
  where
    go :
        (b : Bool)
        → Among x (if b then c ∷ d ∷ ds else d ∷ insert_conf c ds)
        → (Among x (insert_conf c ds) → (c ≡ x) ⊎ Among x ds)
        → (c ≡ x) ⊎ Among x (d ∷ ds)
    go true h ih = h
    go false (inl e) ih = inr (inl e)
    go false (inr h) ih = elim (ih h) [ inl e ↦ inl e | inr r ↦ inr (inr r) ]

pub Among-Occurs : (x : PathConf) (m : PathConfs) → Among x (regexp_confs m) → Occurs x m
unfolding regexp_confs
Among-Occurs x [] a = a
Among-Occurs x ((k, c) ∷ m) a = go (is_some c.regexp) a (Among-Occurs x m)
  where
    go :
        (b : Bool)
        → Among x (if b then insert_conf c (regexp_confs m) else regexp_confs m)
        → (Among x (regexp_confs m) → Occurs x m)
        → (c ≡ x) ⊎ Occurs x m
    go true h ih = elim (Among-insert_conf x c (regexp_confs m) h) [
      | inl e ↦ inl e
      | inr r ↦ inr (ih r)
    ]
    go false h ih = inr (ih h)
