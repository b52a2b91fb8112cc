-- ===== src/Manager/Invariant.antt =====
-- What holds of the path manager between two requests: the paths stand under their names, once
-- each, and each was last sent the configuration that its name is looked up to.
use plux_mtx.Base.{
  String, ◌≡◌, refl, Bool, true, false, Option, some, List, ◌∷◌, All, ◌∙◌, text_refl, if◌then◌else◌,
}
use plux_mtx.Conf.PathConf.{PathConf}
use plux_mtx.Conf.Find.{PathConfs, found, find_path_conf}
use plux_mtx.Manager.State.{
  Manager, ManagerEffect, path_created, hls_path_ready, hls_path_not_ready, send, PathData, PathRef,
  create_path, remove_path,
}
use plux_mtx.Manager.Handlers.{
  is_current, do_close_path, do_path_ready, do_path_not_ready, tell_hls, set_ready,
}
use plux_mtx.Manager.Told.{told, told_created, told_created_other}
use plux_mtx.Manager.Maps.{
  lookup-set_ready, IsDistinct, Entries, insert-Entries, remove-Entries, changed-Entries,
  insert-IsDistinct, remove-IsDistinct, set_ready-IsDistinct,
}

-- A configuration is called like its key, which `validate` sees to.
abbrev pub IsKeyed : PathConfs → Type 0
IsKeyed = All (λ e. e.1.name ≡ e.0)

module _ (submatch : String → String → Option (List String)) where
  -- The name is looked up to the configuration that was last sent to a path of this name, and that
  -- the path is recorded with.
  abbrev pub IsConfigured : PathConfs → List ManagerEffect → String → PathData → Type 0
  IsConfigured confs out k pd =
      (pd.path.name ≡ k)
      × (c : PathConf) × (ms : List String) × (find_path_conf submatch confs k ≡ found c ms)
      × (c.name ≡ pd.conf_name)
      × (told k out ≡ some c)

  pub record ManagerInv (m : Manager) : Type 0 where
    pub keyed : IsKeyed m.path_confs
    pub distinct_confs : IsDistinct m.path_confs
    pub distinct : IsDistinct m.paths
    pub configured : Entries (IsConfigured m.path_confs m.out) m.paths

  pub create_path-ManagerInv :
      (c : PathConf) (name : String) (ms : List String) (m : Manager)
      → find_path_conf submatch m.path_confs name ≡ found c ms
      → ManagerInv m
      → ManagerInv (create_path c name ms m)
  unfolding create_path
  create_path-ManagerInv c name ms m f v =
      let ref : PathRef = record { id = m.next_id; name = name } in
      record {
        keyed = v.keyed;
        distinct_confs = v.distinct_confs;
        distinct = insert-IsDistinct name _ m.paths v.distinct;
        configured =
            insert-Entries (IsConfigured m.path_confs (path_created ref c ms ∷ m.out)) name _
              m.paths (refl, c, ms, f, refl, told_created name ref c ms m.out (text_refl name))
              λ j pd h e.
                let (n, d, ks, g, s, t) = v.configured j pd e in
                (n, d, ks, g, s, told_created_other j ref c ms m.out h ∙ t);
      }

  -- When a path asks to be closed.
  pub do_close_path-ManagerInv :
      (ref : PathRef) (m : Manager) → ManagerInv m → ManagerInv (do_close_path ref m)
  unfolding do_close_path remove_path
  do_close_path-ManagerInv ref m v = go (is_current ref m)
    where
      go : (b : Bool) → ManagerInv (if b then remove_path ref m else m)
      go true = record {
        keyed = v.keyed;
        distinct_confs = v.distinct_confs;
        distinct = remove-IsDistinct ref.name m.paths v.distinct;
        configured =
            remove-Entries (IsConfigured m.path_confs m.out) ref.name m.paths
              (λ j pd _. v.configured j pd);
      }
      go false = v

  set_ready-ManagerInv :
      (k : String) (b : Bool) (m : Manager)
      → ManagerInv m
      → ManagerInv (record m { paths = set_ready k b m.paths })
  set_ready-ManagerInv k b m v = record {
    keyed = v.keyed;
    distinct_confs = v.distinct_confs;
    distinct = set_ready-IsDistinct k b m.paths v.distinct;
    configured =
        changed-Entries (IsConfigured m.path_confs m.out) (IsConfigured m.path_confs m.out)
          (λ pd. record pd { ready = b }) k m.paths (set_ready k b m.paths)
          (λ j. lookup-set_ready k j b m.paths) (λ j pd _ h. h) (λ j pd _ h. h) v.configured;
  }

  -- An effect that gives no path a configuration.
  abbrev IsQuiet : ManagerEffect → Type 0
  IsQuiet e = (k : String) (out : List ManagerEffect) → told k (e ∷ out) ≡ told k out

  sent-ManagerInv :
      (e : ManagerEffect) (m : Manager) → IsQuiet e → ManagerInv m → ManagerInv (send e m)
  sent-ManagerInv e m q v = record {
    keyed = v.keyed;
    distinct_confs = v.distinct_confs;
    distinct = v.distinct;
    configured =
        λ k pd h. let (n, c, ms, f, s, t) = v.configured k pd h in (n, c, ms, f, s, q k m.out ∙ t);
  }

  tell_hls-ManagerInv :
      (e : ManagerEffect) (m : Manager) → IsQuiet e → ManagerInv m → ManagerInv (tell_hls e m)
  unfolding tell_hls
  tell_hls-ManagerInv e m q v = go m.hls_server
    where
      go : (b : Bool) → ManagerInv (if b then send e m else m)
      go true = sent-ManagerInv e m q v
      go false = v

  -- A path that tells the manager that it is ready leaves the invariant as it is, also if the path
  -- has been replaced under its name in the meantime.
  pub do_path_ready-ManagerInv :
      (ref : PathRef) (m : Manager) → ManagerInv m → ManagerInv (do_path_ready ref m)
  unfolding do_path_ready told
  do_path_ready-ManagerInv ref m v = go (is_current ref m)
    where
      n : Manager
      n = record m { paths = set_ready ref.name true m.paths }

      go : (b : Bool) → ManagerInv (if b then tell_hls (hls_path_ready ref) n else m)
      go true = tell_hls-ManagerInv _ n (λ k out. refl) (set_ready-ManagerInv ref.name true m v)
      go false = v

  pub do_path_not_ready-ManagerInv :
      (ref : PathRef) (m : Manager) → ManagerInv m → ManagerInv (do_path_not_ready ref m)
  unfolding do_path_not_ready told
  do_path_not_ready-ManagerInv ref m v = go (is_current ref m)
    where
      n : Manager
      n = record m { paths = set_ready ref.name false m.paths }

      go : (b : Bool) → ManagerInv (if b then tell_hls (hls_path_not_ready ref) n else m)
      go true = tell_hls-ManagerInv _ n (λ k out. refl) (set_ready-ManagerInv ref.name false m v)
      go false = v
