-- ===== src/Tests/Managers.antt =====
-- The manager with a path of the camera, and other configurations to load.
use plux_mtx.Base.{true, false, ◌≡◌, refl, [], ◌∷◌, Ensures, List}
use plux_mtx.Conf.PathConf.{PathConf, equal_iff}
use plux_mtx.Conf.Find.{PathConfs, lookup, find_path_conf}
use plux_mtx.Manager.State.{Manager, create_path, PathRef}
use plux_mtx.Manager.Update.{path_conf_can_be_updated, can_be_updated-IsReload, updated}
use plux_mtx.Manager.Reload.{do_reload_conf, initialize}
use plux_mtx.Manager.Invariant.{ManagerInv, create_path-ManagerInv}
use plux_mtx.Manager.Statics.{IsReloadedTo, do_reload_conf-IsReloadedTo}
use plux_mtx.Path.Invariant.Steps.{IsReload}
use plux_mtx.Manager.Loop.{ManagerEvent, path_ready, reload_conf, describe, close_path, manager_run}
use plux_mtx.Manager.Loop.Soundness.{run-initialize-ManagerInv}
use plux_mtx.Tests.Data.{camera, commanded, open_conf}
use plux_mtx.Tests.Requests.{match_all, let_in, empty_manager, empty_manager-ManagerInv}

abbrev quiet_camera : PathConf
quiet_camera = record camera { records = false }

quiet_camera_lem : path_conf_can_be_updated camera quiet_camera ≡ true
unfolding path_conf_can_be_updated
quiet_camera_lem = (equal_iff quiet_camera (updated camera quiet_camera)).1 refl

can_be_updated-IsReload_example : IsReload quiet_camera camera
can_be_updated-IsReload_example = can_be_updated-IsReload camera quiet_camera quiet_camera_lem

abbrev one_path : Manager
one_path = create_path camera "cam" [] empty_manager

one_path-ManagerInv : ManagerInv match_all one_path
unfolding find_path_conf lookup
one_path-ManagerInv =
    create_path-ManagerInv match_all camera "cam" [] empty_manager refl empty_manager-ManagerInv

abbrev cam_ref : PathRef
cam_ref = record { id = 0; name = "cam" }

-- The camera's configuration is gone and there is one for a command.
abbrev new_confs : PathConfs
new_confs = ("live", commanded) ∷ ("all_others", open_conf) ∷ []

do_reload_conf-IsReloadedTo_example :
    Ensures (IsReloadedTo match_all new_confs) (do_reload_conf match_all new_confs one_path)
unfolding lookup
do_reload_conf-IsReloadedTo_example =
    do_reload_conf-IsReloadedTo match_all new_confs one_path (refl, (refl, tt)) (refl, (refl, tt))
      one_path-ManagerInv

abbrev messages : List ManagerEvent
messages =
    path_ready cam_ref
    ∷ reload_conf new_confs
    ∷ describe (record { name = "street"; access = 1; skip_auth = false })
    ∷ close_path cam_ref
    ∷ []

-- The camera has a path from the start.
run-initialize-ManagerInv_example :
    Ensures
      (ManagerInv match_all)
      (manager_run match_all let_in messages (initialize (("cam", camera) ∷ [])))
unfolding lookup
run-initialize-ManagerInv_example =
    run-initialize-ManagerInv match_all let_in (("cam", camera) ∷ []) messages (refl, tt) (refl, tt)
      (tt, (((refl, (refl, tt)), (refl, (refl, tt))), (tt, (tt, tt))))
