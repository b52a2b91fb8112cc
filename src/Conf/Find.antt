-- ===== src/Conf/Find.antt =====
-- internal/conf/path.go: FindPathConf. The map of configurations is a list of entries with
-- distinct keys; the regular expression engine is the argument `submatch`, which gives the groups
-- of a match. sort.Slice is an insertion sort by the same comparison.
pub mod Order
pub mod Least
use plux_mtx.Base.{
  String, Bool, true, false, ◌||◌, Option, some, none, List, [], ◌∷◌, ◌==s◌, text_lt, is_some,
  if◌then◌else◌,
}
use plux_mtx.Conf.PathConf.{PathConf}
use plux_mtx.Conf.Names.{NameErr, is_valid_path_name}

abbrev pub PathConfs : Type 0
PathConfs = List (String × PathConf)

unfoldable pub lookup {ℓ} : {V : Type ℓ} → String → List (String × V) → Option V
lookup name [] = none
lookup name ((key, value) ∷ entries) = if key ==s name then some value else lookup name entries

pub data FindErr : Type 0 where
  invalid_name : NameErr → FindErr
  not_configured : FindErr

pub data Found : Type 0 where
  found : PathConf → List String → Found
  not_found : FindErr → Found

unfoldable pub is_catch_all : PathConf → Bool
is_catch_all c = c.name ==s "all" || c.name ==s "all_others"

-- The comparison given to sort.Slice.
unfoldable pub conf_less : PathConf → PathConf → Bool
unfolding is_catch_all
conf_less i j =
    if is_catch_all i then false else if is_catch_all j then true else text_lt i.name j.name

unfoldable pub insert_conf : PathConf → List PathConf → List PathConf
insert_conf c [] = c ∷ []
insert_conf c (d ∷ ds) = if conf_less c d then c ∷ d ∷ ds else d ∷ insert_conf c ds

unfoldable pub regexp_confs : PathConfs → List PathConf
unfolding insert_conf
regexp_confs [] = []
regexp_confs ((k, c) ∷ m) =
    let rest = regexp_confs m in if is_some c.regexp then insert_conf c rest else rest

module _ (submatch : String → String → Option (List String)) where
  -- `pathConf.Regexp.FindStringSubmatch(name)`, or none without a regular expression.
  unfoldable pub conf_match : PathConf → String → Option (List String)
  conf_match c name = elim c.regexp [ none ↦ none | some r ↦ submatch r name ]

  unfoldable pub first_match : List PathConf → String → Found
  unfolding conf_match
  first_match [] name = not_found not_configured
  first_match (c ∷ cs) name =
      let rest = first_match cs name in
      elim (conf_match c name) [ none ↦ rest | some m ↦ found c m ]

  unfoldable pub find_path_conf : PathConfs → String → Found
  unfolding lookup regexp_confs first_match is_valid_path_name
  find_path_conf confs name = elim (lookup name confs) [
    | some c ↦ found c []
    | none ↦ elim (is_valid_path_name name) [
      | some e ↦ not_found (invalid_name e)
      | none ↦ first_match (regexp_confs confs) name
    ]
  ]
