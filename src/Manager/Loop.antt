-- ===== src/Manager/Loop.antt =====
-- internal/core/path_manager.go: run. `step` is one round of the `select`, with what it answers.
pub mod Soundness
use plux_mtx.Base.{ℕ, String, Bool, Option, some, none, List, [], ◌∷◌, ◌>>=◌}
use plux_mtx.Conf.PathConf.{PathConf}
use plux_mtx.Conf.Find.{PathConfs}
use plux_mtx.Manager.State.{Manager, PathData, PathRef, AccessRequest, ManagerRes}
use plux_mtx.Manager.Handlers.{
  do_set_hls_server, do_close_path, do_path_ready, do_path_not_ready, do_find_path_conf,
  do_describe, do_add_reader, do_add_publisher, do_api_paths_get,
}
use plux_mtx.Manager.Reload.{do_reload_conf}

pub data ManagerEvent : Type 0 where
  reload_conf : PathConfs → ManagerEvent
  set_hls_server : Bool → ManagerEvent
  close_path path_ready path_not_ready : PathRef → ManagerEvent
  find_path_conf describe add_reader : AccessRequest → ManagerEvent
  add_publisher : Option PathConf → AccessRequest → ManagerEvent
  api_paths_list : ManagerEvent
  api_paths_get : String → ManagerEvent

pub data Answer : Type 0 where
  no_answer : Answer
  reply : ManagerRes → Answer
  ready_list : List PathRef → Answer
  listing : List (String × PathRef) → Answer

unfoldable pub do_api_paths_list : List (String × PathData) → List (String × PathRef)
do_api_paths_list [] = []
do_api_paths_list ((name, pd) ∷ paths) = (name, pd.path) ∷ do_api_paths_list paths

unfoldable pub replied : Manager × ManagerRes → Option (Manager × Answer)
replied (m, r) = some (m, reply r)

unfoldable pub listed : Manager × List PathRef → Option (Manager × Answer)
listed (m, ps) = some (m, ready_list ps)

module _ (submatch : String → String → Option (List String)) (authenticate : ℕ → Option ℕ) where
  unfoldable pub manager_step : ManagerEvent → Manager → Option (Manager × Answer)
  unfolding do_set_hls_server do_api_paths_list replied listed
  manager_step (reload_conf new) m = do_reload_conf submatch new m >>= λ n. some (n, no_answer)
  manager_step (set_hls_server s) m = listed (do_set_hls_server s m)
  manager_step (close_path ref) m = some (do_close_path ref m, no_answer)
  manager_step (path_ready ref) m = some (do_path_ready ref m, no_answer)
  manager_step (path_not_ready ref) m = some (do_path_not_ready ref m, no_answer)
  manager_step (find_path_conf req) m =
      some (m, reply (do_find_path_conf submatch authenticate req m))
  manager_step (describe req) m = replied (do_describe submatch authenticate req m)
  manager_step (add_reader req) m = replied (do_add_reader submatch authenticate req m)
  manager_step (add_publisher c req) m = replied (do_add_publisher submatch authenticate c req m)
  manager_step api_paths_list m = some (m, listing (do_api_paths_list m.paths))
  manager_step (api_paths_get name) m = some (m, reply (do_api_paths_get name m))

  unfoldable pub manager_run : List ManagerEvent → Manager → Option Manager
  manager_run [] m = some m
  manager_run (e ∷ es) m = manager_step e m >>= λ r. manager_run es r.0
