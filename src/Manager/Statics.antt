-- ===== src/Manager/Statics.antt =====
-- Creating the paths of the names without a regular expression, and the whole of doReloadConf.
use plux_mtx.Base.{
  String, ◌≡◌, refl, sym, ap, ◌∙◌, inl, inr, Bool, true, false, not, ◌&&◌, Option, some, List, [],
  ◌∷◌, is_some, if◌then◌else◌, All, Ensures, Ensures-bind,
}
use plux_mtx.Conf.PathConf.{PathConf}
use plux_mtx.Conf.Find.{PathConfs, lookup}
use plux_mtx.Conf.Find.Least.{find_path_conf-key}
use plux_mtx.Manager.State.{Manager, ManagerEffect, PathData, create_path}
use plux_mtx.Manager.Reload.{create_static_paths, do_reload_conf}
use plux_mtx.Manager.Maps.{IsDistinct, Entries, Entries-All}
use plux_mtx.Manager.Invariant.{ManagerInv, IsKeyed, IsConfigured, create_path-ManagerInv}
use plux_mtx.Manager.Reloading.{Loop, WasTold, IsSettled, IsVisitable, reload_paths-Loop}
use plux_mtx.Manager.Keyed.{found-lookup}
use plux_mtx.Manager.Served.{
  AreServed, create_path-confs, lookup-Pending, with_static, create_static_paths-AreServed,
}

module _ (submatch : String → String → Option (List String)) where
  create_static_paths-ManagerInv :
      (new rest : PathConfs) (m : Manager)
      → m.path_confs ≡ new
      → All (λ (e : String × PathConf). lookup e.0 new ≡ some e.1) rest
      → ManagerInv submatch m
      → ManagerInv submatch (create_static_paths rest m)
        × ((create_static_paths rest m).path_confs ≡ new)
  unfolding create_static_paths
  create_static_paths-ManagerInv new [] m n a v = (v, n)
  create_static_paths-ManagerInv new ((k, c) ∷ rest) m n a v =
      let (w, e) = go (not (is_some c.regexp) && not (is_some (lookup k m.paths))) in
      create_static_paths-ManagerInv new rest (with_static k c m) e a.1 w
    where
      created : Manager
      created = create_path c k [] m

      go :
          (b : Bool)
          → ManagerInv submatch (if b then created else m)
            × ((if b then created else m).path_confs ≡ new)
      go true = (
        create_path-ManagerInv submatch c k [] m
            (find_path_conf-key submatch m.path_confs k c
              (ap (λ (x : PathConfs). lookup k x) n ∙ a.0))
            v,
        create_path-confs c k [] m ∙ n,
      )
      go false = (v, n)

  was_told : (m : Manager) → ManagerInv submatch m → Entries (WasTold m.path_confs m.out) m.paths
  was_told m v k pd e =
      let (name, c, ms, f, n, t) = v.configured k pd e in
      (
        c,
        ap (λ (x : String). lookup x m.path_confs) (sym n)
            ∙ found-lookup submatch m.path_confs k c ms v.keyed v.distinct_confs f,
        t,
      )

  paths-IsVisitable : (m : Manager) → ManagerInv submatch m → IsVisitable m.path_confs m.paths
  paths-IsVisitable m v =
      Entries-All (λ k pd. (pd.path.name ≡ k) × (is_some (lookup pd.conf_name m.path_confs) ≡ true))
        m.paths v.distinct
        λ k pd e. let (b, l, t) = was_told m v k pd e in ((v.configured k pd e).0, ap is_some l)

  -- The manager after a reload: its invariant for the new configurations, and a path for each of
  -- their names without a regular expression.
  abbrev pub IsReloadedTo : PathConfs → Manager → Type 0
  IsReloadedTo new m = ManagerInv submatch m × (m.path_confs ≡ new) × AreServed new m.paths

  settled-IsConfigured :
      (old new : PathConfs) (out : List ManagerEffect) (k : String) (pd : PathData)
      → IsSettled submatch old new out [] k pd
      → IsConfigured submatch new out k pd
  settled-IsConfigured old new out k pd (inl c) = c
  settled-IsConfigured old new out k pd (inr x) = elim x.0 [ ]

  -- Loading new configurations, each under its own name and each name once, does not panic. Then
  -- every path that is left or new stands under its name; the last configuration that was sent to
  -- a path of this name, when it was created or by a reload, is the one that the name is looked up
  -- to, and the path is recorded with its name; and every name without a regular expression has a path.
  pub do_reload_conf-IsReloadedTo :
      (new : PathConfs) (m : Manager)
      → IsKeyed new
      → IsDistinct new
      → ManagerInv submatch m
      → Ensures (IsReloadedTo new) (do_reload_conf submatch new m)
  unfolding do_reload_conf
  do_reload_conf-IsReloadedTo new m d u v =
      Ensures-bind (Loop submatch m.path_confs new []) (IsReloadedTo new) _ _
        (reload_paths-Loop submatch m.path_confs new m.paths m
          (λ k c ms f. found-lookup submatch new k c ms d u f) (paths-IsVisitable m v) v.distinct
          (record {
            confs = refl;
            distinct = v.distinct;
            settled = λ k pd e. inr (lookup-Pending m.paths k pd e, was_told m v k pd e);
          }))
        λ n l.
          let o : Manager = record n { path_confs = new } in
          let (w, e) =
            create_static_paths-ManagerInv new new o refl
              (Entries-All (λ k c. lookup k new ≡ some c) new u (λ k c q. q))
              (record {
                keyed = d;
                distinct_confs = u;
                distinct = l.distinct;
                configured =
                    λ k pd q. settled-IsConfigured m.path_confs new n.out k pd (l.settled k pd q);
              }) in
          (w, e, create_static_paths-AreServed new o)
