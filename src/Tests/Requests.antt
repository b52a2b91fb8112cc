-- ===== src/Tests/Requests.antt =====
-- Lookups of configurations and the manager's answers, with a regular expression engine that
-- matches everything and an authentication that lets everyone in.
use plux_mtx.Base.{
  ℕ, String, true, false, refl, not, ◌||◌, Option, some, none, List, [], ◌∷◌, is_some,
}
use plux_mtx.Conf.Names.{is_valid_path_name, is_name_char, all_name_chars, check_name, last_char}
use plux_mtx.Conf.Find.{PathConfs, lookup, find_path_conf}
use plux_mtx.Conf.Find.Least.{IsChosen, find_path_conf-IsChosen}
use plux_mtx.Manager.State.{Manager, AccessRequest}
use plux_mtx.Manager.Handlers.{do_describe, do_add_reader, do_add_publisher}
use plux_mtx.Manager.Invariant.{ManagerInv}
use plux_mtx.Manager.Requests.{
  IsServed, do_describe-IsServed, do_add_reader-IsServed, do_add_publisher-IsServed,
}
use plux_mtx.Tests.Data.{camera, open_conf}

abbrev pub match_all : String → String → Option (List String)
match_all r s = some (s ∷ [])

abbrev pub let_in : ℕ → Option ℕ
let_in a = none

abbrev pub confs : PathConfs
confs = ("cam", camera) ∷ ("all_others", open_conf) ∷ []

find_path_conf-IsChosen_example :
    IsChosen match_all confs "street" (find_path_conf match_all confs "street")
unfolding lookup is_valid_path_name check_name all_name_chars is_name_char last_char
find_path_conf-IsChosen_example = find_path_conf-IsChosen match_all confs "street" refl refl

abbrev pub empty_manager : Manager
empty_manager = record { path_confs = confs; hls_server = true; paths = []; next_id = 0; out = [] }

pub empty_manager-ManagerInv : ManagerInv match_all empty_manager
unfolding lookup
empty_manager-ManagerInv = record {
  keyed = (refl, (refl, tt));
  distinct_confs = (refl, (refl, tt));
  distinct = tt;
  configured = λ k pd e. cc;
}

abbrev street : AccessRequest
street = record { name = "street"; access = 5; skip_auth = false }

do_describe-IsServed_example :
    IsServed match_all let_in "street"
      (not (is_some (let_in 5)))
      empty_manager
      (do_describe match_all let_in street empty_manager)
do_describe-IsServed_example =
    do_describe-IsServed match_all let_in street empty_manager empty_manager-ManagerInv

do_add_reader-IsServed_example :
    IsServed match_all let_in "street"
      (false || not (is_some (let_in 5)))
      empty_manager
      (do_add_reader match_all let_in street empty_manager)
do_add_reader-IsServed_example =
    do_add_reader-IsServed match_all let_in street empty_manager empty_manager-ManagerInv

do_add_publisher-IsServed_example :
    IsServed match_all let_in "street"
      (false || not (is_some (let_in 5)))
      empty_manager
      (do_add_publisher match_all let_in (some open_conf) street empty_manager)
do_add_publisher-IsServed_example =
    do_add_publisher-IsServed match_all let_in (some open_conf) street empty_manager
      empty_manager-ManagerInv
