-- ===== src/Manager/Loop/Soundness.antt =====
-- What every round of the manager's loop keeps.
use plux_mtx.Base.{
  Bool, true, false, ◌≡◌, refl, ap, ◌∙◌, some, is_some, if◌then◌else◌, ℕ, String, Option, List, [],
  ◌∷◌, Ensures, Ensures-bind, All,
}
use plux_mtx.Conf.PathConf.{PathConf}
use plux_mtx.Conf.Find.{PathConfs, lookup, found, find_path_conf as find_conf}
use plux_mtx.Conf.Find.Least.{find_path_conf-key}
use plux_mtx.Manager.State.{Manager, create_path}
use plux_mtx.Manager.Handlers.{do_set_hls_server}
use plux_mtx.Manager.Maps.{IsDistinct, Entries-All}
use plux_mtx.Manager.Invariant.{
  IsKeyed, ManagerInv, create_path-ManagerInv, do_close_path-ManagerInv, do_path_ready-ManagerInv,
  do_path_not_ready-ManagerInv,
}
use plux_mtx.Manager.Reload.{do_reload_conf, create_initial_paths, initialize}
use plux_mtx.Manager.Served.{create_path-confs}
use plux_mtx.Manager.Requests.{
  do_describe-IsServed, do_add_reader-IsServed, do_add_publisher-IsServed,
}
use plux_mtx.Manager.Statics.{IsReloadedTo, do_reload_conf-IsReloadedTo}
use plux_mtx.Manager.Loop.{
  ManagerEvent, Answer, reload_conf, set_hls_server, close_path, path_ready, path_not_ready,
  find_path_conf, describe, add_reader, add_publisher, api_paths_list, api_paths_get, manager_step,
  manager_run, replied, listed,
}

-- Configurations that are loaded stand each under its own name, and each name once.
abbrev pub IsLoadable : ManagerEvent → Type 0
IsLoadable (reload_conf new) = IsKeyed new × IsDistinct new
IsLoadable _ = Unit

module _ (submatch : String → String → Option (List String)) (authenticate : ℕ → Option ℕ) where
  abbrev KeepsInv : Manager × Answer → Type 0
  KeepsInv r = ManagerInv submatch r.0

  step-ManagerInv :
      (e : ManagerEvent) (m : Manager)
      → IsLoadable e
      → ManagerInv submatch m
      → Ensures KeepsInv (manager_step submatch authenticate e m)
  unfolding manager_step replied listed do_set_hls_server
  step-ManagerInv (reload_conf new) m h v =
      Ensures-bind (IsReloadedTo submatch new) KeepsInv (do_reload_conf submatch new m) _
        (do_reload_conf-IsReloadedTo submatch new m h.0 h.1 v) λ n k. k.0
  step-ManagerInv (set_hls_server s) m h v = record {
    keyed = v.keyed;
    distinct_confs = v.distinct_confs;
    distinct = v.distinct;
    configured = v.configured;
  }
  step-ManagerInv (close_path ref) m h v = do_close_path-ManagerInv submatch ref m v
  step-ManagerInv (path_ready ref) m h v = do_path_ready-ManagerInv submatch ref m v
  step-ManagerInv (path_not_ready ref) m h v = do_path_not_ready-ManagerInv submatch ref m v
  step-ManagerInv (find_path_conf req) m h v = v
  step-ManagerInv (describe req) m h v = (do_describe-IsServed submatch authenticate req m v).inv
  step-ManagerInv (add_reader req) m h v =
      (do_add_reader-IsServed submatch authenticate req m v).inv
  step-ManagerInv (add_publisher c req) m h v =
      (do_add_publisher-IsServed submatch authenticate c req m v).inv
  step-ManagerInv api_paths_list m h v = v
  step-ManagerInv (api_paths_get name) m h v = v

  run-ManagerInv :
      (es : List ManagerEvent) (m : Manager)
      → All IsLoadable es
      → ManagerInv submatch m
      → Ensures (ManagerInv submatch) (manager_run submatch authenticate es m)
  unfolding manager_run
  run-ManagerInv [] m h v = v
  run-ManagerInv (e ∷ es) m h v =
      Ensures-bind KeepsInv (ManagerInv submatch) (manager_step submatch authenticate e m) _
        (step-ManagerInv e m h.0 v) λ r w. run-ManagerInv es r.0 h.1 w

  -- The loop of initialize over the configurations that are left.
  create_initial_paths-ManagerInv :
      (confs rest : PathConfs) (m : Manager)
      → m.path_confs ≡ confs
      → IsKeyed rest
      → All (λ (e : String × PathConf). lookup e.0 confs ≡ some e.1) rest
      → ManagerInv submatch m
      → ManagerInv submatch (create_initial_paths rest m)
  unfolding create_initial_paths
  create_initial_paths-ManagerInv confs [] m n d a v = v
  create_initial_paths-ManagerInv confs ((k, c) ∷ rest) m n d a v =
      let (w, e) = go (is_some c.regexp) in create_initial_paths-ManagerInv confs rest _ e d.1 a.1 w
    where
      known : find_conf submatch m.path_confs c.name ≡ found c []
      known =
          find_path_conf-key submatch m.path_confs c.name c
            (ap (λ (x : PathConfs). lookup c.name x) n ∙ ap (λ x. lookup x confs) d.0 ∙ a.0)

      go :
          (b : Bool)
          → ManagerInv submatch (if b then m else create_path c c.name [] m)
            × ((if b then m else create_path c c.name [] m).path_confs ≡ confs)
      go true = (v, n)
      go false = (
        create_path-ManagerInv submatch c c.name [] m known v,
        create_path-confs c c.name [] m ∙ n,
      )

  initialize-ManagerInv :
      (confs : PathConfs)
      → IsKeyed confs
      → IsDistinct confs
      → ManagerInv submatch (initialize confs)
  unfolding initialize lookup
  initialize-ManagerInv confs d u =
      create_initial_paths-ManagerInv confs confs _ refl d
        (Entries-All (λ k c. lookup k confs ≡ some c) confs u (λ k c q. q))
        (record { keyed = d; distinct_confs = u; distinct = tt; configured = λ k pd e. cc })

  -- From its start on and through any messages, in any order, the manager does not panic; each of its
  -- paths stands under its own name, each name once, and the last configuration that was sent to a
  -- path of this name, when it was created or by a reload, is the one that the name is looked up to. The
  -- configurations at the start and those that are loaded on the way stand each under its own name,
  -- each name once.
  pub run-initialize-ManagerInv :
      (confs : PathConfs) (es : List ManagerEvent)
      → IsKeyed confs
      → IsDistinct confs
      → All IsLoadable es
      → Ensures (ManagerInv submatch) (manager_run submatch authenticate es (initialize confs))
  run-initialize-ManagerInv confs es d u h =
      run-ManagerInv es (initialize confs) h (initialize-ManagerInv confs d u)
