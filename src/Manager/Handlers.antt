-- ===== src/Manager/Handlers.antt =====
-- internal/core/path_manager.go: one function per request. `submatch` is the regular expression
-- engine, and `authenticate` is auth.Manager.Authenticate; `none` is success.
use plux_mtx.Base.{
  ℕ, String, Bool, true, false, not, Option, some, none, List, [], ◌∷◌, ◌==◌, ◌==s◌, is_some,
  if◌then◌else◌,
}
use plux_mtx.Conf.PathConf.{PathConf, equal}
use plux_mtx.Conf.Find.{found, not_found, lookup, find_path_conf}
use plux_mtx.Manager.State.{
  Manager, ManagerEffect, PathData, PathRef, AccessRequest, ManagerRes, res_path, res_conf, res_err,
  find_err, auth_err, conf_changed, path_not_found, hls_path_ready, hls_path_not_ready, send,
  create_path, remove_path,
}

-- `pd, ok := pm.paths[pa.name]; ok && pd.path == pa`.
unfoldable pub is_current : PathRef → Manager → Bool
unfolding lookup
is_current ref m = elim (lookup ref.name m.paths) [ none ↦ false | some pd ↦ pd.path.id == ref.id ]

unfoldable pub do_close_path : PathRef → Manager → Manager
unfolding is_current remove_path
do_close_path ref m = if is_current ref m then remove_path ref m else m

unfoldable pub set_ready : String → Bool → List (String × PathData) → List (String × PathData)
set_ready k b [] = []
set_ready k b ((j, pd) ∷ m) =
    let rest = set_ready k b m in
    if j ==s k then (j, record pd { ready = b }) ∷ m else (j, pd) ∷ rest

unfoldable pub tell_hls : ManagerEffect → Manager → Manager
tell_hls e m = if m.hls_server then send e m else m

unfoldable pub do_path_ready : PathRef → Manager → Manager
unfolding is_current set_ready tell_hls
do_path_ready ref m =
    if is_current ref m
    then tell_hls (hls_path_ready ref) (record m { paths = set_ready ref.name true m.paths })
    else m

unfoldable pub do_path_not_ready : PathRef → Manager → Manager
unfolding is_current set_ready tell_hls
do_path_not_ready ref m =
    if is_current ref m
    then tell_hls (hls_path_not_ready ref) (record m { paths = set_ready ref.name false m.paths })
    else m

unfoldable pub ready_paths : List (String × PathData) → List PathRef
ready_paths [] = []
ready_paths ((j, pd) ∷ m) = let rest = ready_paths m in if pd.ready then pd.path ∷ rest else rest

unfoldable pub do_set_hls_server : Bool → Manager → Manager × List PathRef
unfolding ready_paths
do_set_hls_server s m = (record m { hls_server = s }, ready_paths m.paths)

unfoldable pub do_api_paths_get : String → Manager → ManagerRes
unfolding lookup
do_api_paths_get name m = elim (lookup name m.paths) [
  | none ↦ res_err path_not_found
  | some pd ↦ res_path pd.path
]

-- Creates the path if it doesn't exist, and gives it back.
unfoldable pub path_of : PathConf → String → List String → Manager → Manager × ManagerRes
unfolding lookup create_path
path_of c name matches m =
    let n : Manager = if is_some (lookup name m.paths) then m else create_path c name matches m in
    (n, elim (lookup name n.paths) [ none ↦ res_err path_not_found | some pd ↦ res_path pd.path ])

-- `req.ConfToCompare != nil && !pathConf.Equal(req.ConfToCompare)`.
unfoldable pub differs : PathConf → Option PathConf → Bool
differs c none = false
differs c (some d) = not (equal c d)

module _ (submatch : String → String → Option (List String)) (authenticate : ℕ → Option ℕ) where
  unfoldable pub do_find_path_conf : AccessRequest → Manager → ManagerRes
  do_find_path_conf req m = elim (find_path_conf submatch m.path_confs req.name) [
    | not_found e ↦ res_err (find_err e)
    | found c matches ↦ elim (authenticate req.access) [
      | some e ↦ res_err (auth_err e)
      | none ↦ res_conf c
    ]
  ]

  unfoldable pub do_describe : AccessRequest → Manager → Manager × ManagerRes
  unfolding path_of
  do_describe req m = elim (find_path_conf submatch m.path_confs req.name) [
    | not_found e ↦ (m, res_err (find_err e))
    | found c matches ↦ elim (authenticate req.access) [
      | some e ↦ (m, res_err (auth_err e))
      | none ↦ path_of c req.name matches m
    ]
  ]

  -- The authentication of doAddReader and doAddPublisher.
  unfoldable pub check_access : AccessRequest → Option ℕ
  check_access req = if req.skip_auth then none else authenticate req.access

  unfoldable pub do_add_reader : AccessRequest → Manager → Manager × ManagerRes
  unfolding path_of check_access
  do_add_reader req m = elim (find_path_conf submatch m.path_confs req.name) [
    | not_found e ↦ (m, res_err (find_err e))
    | found c matches ↦ elim (check_access req) [
      | some e ↦ (m, res_err (auth_err e))
      | none ↦ path_of c req.name matches m
    ]
  ]

  unfoldable pub do_add_publisher : Option PathConf → AccessRequest → Manager → Manager × ManagerRes
  unfolding path_of check_access differs
  do_add_publisher compare req m = elim (find_path_conf submatch m.path_confs req.name) [
    | not_found e ↦ (m, res_err (find_err e))
    | found c matches ↦
        if differs c compare then (m, res_err conf_changed) else elim (check_access req) [
          | some e ↦ (m, res_err (auth_err e))
          | none ↦ path_of c req.name matches m
        ]
  ]
