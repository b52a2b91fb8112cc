-- ===== src/Manager/Reload.antt =====
-- internal/core/path_manager.go: initialize and doReloadConf. `none` is the panic of cloning a
-- configuration that is not there.
use plux_mtx.Base.{
  String, Bool, true, false, ◌||◌, ◌&&◌, not, Option, some, none, List, [], ◌∷◌, ◌==s◌, is_some,
  ◌>>=◌, if◌then◌else◌,
}
use plux_mtx.Conf.PathConf.{PathConf, equal}
use plux_mtx.Conf.Find.{PathConfs, found, not_found, lookup, find_path_conf}
use plux_mtx.Manager.Update.{path_conf_can_be_updated}
use plux_mtx.Manager.State.{
  Manager, PathData, path_reloaded, send, create_path, remove_and_close_path,
}

unfoldable pub mem_text : String → List String → Bool
mem_text k [] = false
mem_text k (j ∷ js) = j ==s k || mem_text k js

-- The keys of `confsToRecreate` or, if `reload` holds, of `confsToReload`.
unfoldable pub changed_confs : Bool → PathConfs → PathConfs → List String
unfolding lookup
changed_confs reload new [] = []
changed_confs reload new ((k, old) ∷ olds) =
    let rest = changed_confs reload new olds in
    elim (lookup k new) [
      | none ↦ rest
      | some c ↦
          if not (equal c old)
          then if path_conf_can_be_updated old c
            then if reload then k ∷ rest else rest
            else if reload
            then rest
            else k ∷ rest
          else rest
    ]

unfoldable pub move_path : String → String → List (String × PathData) → List (String × PathData)
move_path k name [] = []
move_path k name ((j, pd) ∷ m) =
    let rest = move_path k name m in
    if j ==s k then (j, record pd { conf_name = name }) ∷ m else (j, pd) ∷ rest

-- `newPathConf.Name != pathData.confName`: hot reload, or the path is deleted.
unfoldable pub change_conf : PathConf → PathData → Manager → Option Manager
unfolding move_path remove_and_close_path
change_conf c pd m = do
  old ← lookup pd.conf_name m.path_confs
  if path_conf_can_be_updated old c
      then some (
          send (path_reloaded pd.path c)
            (record m { paths = move_path pd.path.name c.name m.paths }))
      else some (remove_and_close_path pd.path m)

-- The same configuration, which may have changed.
unfoldable pub same_conf : PathConf → PathData → PathConfs → Manager → Manager
unfolding mem_text changed_confs remove_and_close_path
same_conf c pd new m =
    if mem_text c.name (changed_confs false new m.path_confs)
    then remove_and_close_path pd.path m
    else if mem_text c.name (changed_confs true new m.path_confs)
    then send (path_reloaded pd.path c) m
    else m

-- The last loop of doReloadConf and the loop of initialize, over the configurations given.
unfoldable pub create_static_paths : PathConfs → Manager → Manager
unfolding create_path lookup
create_static_paths [] m = m
create_static_paths ((k, c) ∷ rest) m =
    create_static_paths rest (
      if not (is_some c.regexp) && not (is_some (lookup k m.paths))
      then create_path c k [] m
      else m)

-- The loop of initialize.
unfoldable pub create_initial_paths : PathConfs → Manager → Manager
unfolding create_path
create_initial_paths [] m = m
create_initial_paths ((k, c) ∷ rest) m =
    create_initial_paths rest (if is_some c.regexp then m else create_path c c.name [] m)

unfoldable pub initialize : PathConfs → Manager
unfolding create_initial_paths
initialize confs =
    create_initial_paths confs
      (record { path_confs = confs; hls_server = false; paths = []; next_id = 0; out = [] })

module _ (submatch : String → String → Option (List String)) where
  -- The loop over the paths: one entry of the map.
  unfoldable pub reload_path : PathConfs → String × PathData → Manager → Option Manager
  unfolding change_conf same_conf remove_and_close_path
  reload_path new (k, pd) m = elim (find_path_conf submatch new k) [
    | not_found e ↦ some (remove_and_close_path pd.path m)
    | found c matches ↦
        if not (c.name ==s pd.conf_name) then change_conf c pd m else some (same_conf c pd new m)
  ]

  unfoldable pub reload_paths : PathConfs → List (String × PathData) → Manager → Option Manager
  reload_paths new [] m = some m
  reload_paths new (e ∷ es) m = reload_path new e m >>= reload_paths new es

  unfoldable pub do_reload_conf : PathConfs → Manager → Option Manager
  unfolding create_static_paths
  do_reload_conf new m = do
    n ← reload_paths new m.paths m
    some (create_static_paths new (record n { path_confs = new }))
