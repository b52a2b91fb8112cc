-- ===== src/Manager/Requests.antt =====
-- Requests to the path manager: who gets a path, which one, and that a refusal changes nothing.
use plux_mtx.Base.{
  ℕ, String, ◌≡◌, refl, subst, inl, inr, Bool, true, false, not, ◌||◌, Option, some, none, List,
  arith, is_some, text_refl, Option-cases, if◌then◌else◌,
}
use plux_mtx.Conf.PathConf.{PathConf}
use plux_mtx.Conf.Find.{Found, found, not_found, lookup, find_path_conf}
use plux_mtx.Manager.State.{
  Manager, PathData, PathRef, ManagerRes, ManagerErr, AccessRequest, res_path, res_conf, res_err,
  find_err, auth_err, conf_changed, create_path,
}
use plux_mtx.Manager.Handlers.{
  path_of, do_describe, do_add_reader, do_add_publisher, check_access, differs,
}
use plux_mtx.Manager.Maps.{lookup-insert}
use plux_mtx.Manager.Invariant.{ManagerInv, create_path-ManagerInv}

create_path-lookup :
    (c : PathConf) (name : String) (ms : List String) (m : Manager)
    → (pd : PathData) × (lookup name (create_path c name ms m).paths ≡ some pd)
      × (pd.path.name ≡ name)
unfolding create_path
create_path-lookup c name ms m =
    let pd : PathData = record {
      path = record { id = m.next_id; name = name };
      ready = false;
      conf_name = c.name;
    } in
    (pd, rw (lookup-insert name name pd m.paths, text_refl name), refl)

module _ (submatch : String → String → Option (List String)) (authenticate : ℕ → Option ℕ) where
  -- A path is given back under the name that was asked for, and is the one registered there; with
  -- an error the manager is as before.
  abbrev pub IsAnswer : String → Manager → Manager → ManagerRes → Type 0
  IsAnswer name m n (res_path ref) =
      (ref.name ≡ name) × (pd : PathData) × (lookup name n.paths ≡ some pd) × (pd.path ≡ ref)
  IsAnswer name m n (res_err e) = n ≡ m
  IsAnswer name m n (res_conf c) = ⊥

  -- The answer, the invariant, and that the access was granted if a path is given back.
  pub record IsServed (name : String) (granted : Bool) (m : Manager) (r : Manager × ManagerRes)
      : Type 0 where
    pub inv : ManagerInv submatch r.0
    pub answer : IsAnswer name m r.0 r.1
    pub access : (ref : PathRef) → r.1 ≡ res_path ref → granted ≡ true

  path_of-IsServed :
      (c : PathConf) (name : String) (ms : List String) (m : Manager)
      → find_path_conf submatch m.path_confs name ≡ found c ms
      → ManagerInv submatch m
      → IsServed name true m (path_of c name ms m)
  unfolding path_of
  path_of-IsServed c name ms m f v = elim (Option-cases (lookup name m.paths)) [
    | inl e ↦
        let (pd, l, k) = create_path-lookup c name ms m in
        rw (e, l)
          (record {
            inv = create_path-ManagerInv submatch c name ms m f v;
            answer = (k, pd, l, refl);
            access = λ ref _. refl;
          })
    | inr (pd, e) ↦
        rw (e, e)
          (record {
            inv = v;
            answer = ((v.configured name pd e).0, pd, e, refl);
            access = λ ref _. refl;
          })
  ]

  refused-IsServed :
      (name : String) (granted : Bool) (e : ManagerErr) (m : Manager)
      → ManagerInv submatch m
      → IsServed name granted m (m, res_err e)
  refused-IsServed name granted e m v = record { inv = v; answer = refl; access = λ ref k. cc }

  -- The authentication, and then the path.
  abbrev served : PathConf → String → List String → Manager → Option ℕ → Manager × ManagerRes
  served c name ms m none = path_of c name ms m
  served c name ms m (some e) = (m, res_err (auth_err e))

  served_if :
      (c : PathConf) (name : String) (ms : List String) (m : Manager) (o : Option ℕ) (b : Bool)
      → not (is_some o) ≡ b
      → find_path_conf submatch m.path_confs name ≡ found c ms
      → ManagerInv submatch m
      → IsServed name b m (served c name ms m o)
  served_if c name ms m none b h f v =
      subst (λ g. IsServed name g m (path_of c name ms m)) h (path_of-IsServed c name ms m f v)
  served_if c name ms m (some e) b h f v = refused-IsServed name b (auth_err e) m v

  granted_lem :
      (req : AccessRequest)
      → not (is_some (check_access submatch authenticate req))
        ≡ (req.skip_auth || not (is_some (authenticate req.access)))
  unfolding check_access
  granted_lem req = ground arith

  -- A describe request for a path name: with an error, of the lookup of the configuration or of the
  -- authentication, the manager is unchanged; else the access is granted, and the answer is the
  -- path that is then registered under the name. The invariant is kept.
  pub do_describe-IsServed :
      (req : AccessRequest) (m : Manager)
      → ManagerInv submatch m
      → IsServed req.name
          (not (is_some (authenticate req.access)))
          m
          (do_describe submatch authenticate req m)
  unfolding do_describe
  do_describe-IsServed req m v = go (find_path_conf submatch m.path_confs req.name) refl
    where
      go :
          (r : Found)
          → find_path_conf submatch m.path_confs req.name ≡ r
          → IsServed req.name (not (is_some (authenticate req.access))) m (elim r [
            | not_found e ↦ (m, res_err (find_err e))
            | found c matches ↦ elim (authenticate req.access) [
              | some e ↦ (m, res_err (auth_err e))
              | none ↦ path_of c req.name matches m
            ]
          ])
      go (not_found e) f = refused-IsServed req.name _ (find_err e) m v
      go (found c ms) f = served_if c req.name ms m (authenticate req.access) _ refl f v

  -- A reader for a path name: with an error, of the lookup of the configuration or of the
  -- authentication, the manager is unchanged; else the access is granted, or its check is skipped,
  -- and the answer is the path that is then registered under the name. The invariant is kept.
  pub do_add_reader-IsServed :
      (req : AccessRequest) (m : Manager)
      → ManagerInv submatch m
      → IsServed req.name
          (req.skip_auth || not (is_some (authenticate req.access)))
          m
          (do_add_reader submatch authenticate req m)
  unfolding do_add_reader
  do_add_reader-IsServed req m v = go (find_path_conf submatch m.path_confs req.name) refl
    where
      go :
          (r : Found)
          → find_path_conf submatch m.path_confs req.name ≡ r
          → IsServed req.name (req.skip_auth || not (is_some (authenticate req.access))) m (elim r [
            | not_found e ↦ (m, res_err (find_err e))
            | found c matches ↦ elim (check_access submatch authenticate req) [
              | some e ↦ (m, res_err (auth_err e))
              | none ↦ path_of c req.name matches m
            ]
          ])
      go (not_found e) f = refused-IsServed req.name _ (find_err e) m v
      go (found c ms) f =
          served_if c req.name ms m (check_access submatch authenticate req) _ (granted_lem req) f v

  -- A publisher for a path name: with an error, of the lookup, of a configuration that has changed or
  -- of the authentication, the manager is unchanged; else the access is granted, or its check is
  -- skipped, and the answer is the path that is then registered under the name. The invariant is kept.
  pub do_add_publisher-IsServed :
      (compare : Option PathConf) (req : AccessRequest) (m : Manager)
      → ManagerInv submatch m
      → IsServed req.name
          (req.skip_auth || not (is_some (authenticate req.access)))
          m
          (do_add_publisher submatch authenticate compare req m)
  unfolding do_add_publisher
  do_add_publisher-IsServed compare req m v =
      go (find_path_conf submatch m.path_confs req.name) refl
    where
      granted : Bool
      granted = req.skip_auth || not (is_some (authenticate req.access))

      checked : PathConf → List String → Manager × ManagerRes
      checked c ms = elim (check_access submatch authenticate req) [
        | some e ↦ (m, res_err (auth_err e))
        | none ↦ path_of c req.name ms m
      ]

      compared :
          (c : PathConf) (ms : List String) (b : Bool)
          → find_path_conf submatch m.path_confs req.name ≡ found c ms
          → IsServed req.name granted m (if b then (m, res_err conf_changed) else checked c ms)
      compared c ms true f = refused-IsServed req.name granted conf_changed m v
      compared c ms false f =
          served_if c req.name ms m (check_access submatch authenticate req) granted
            (granted_lem req) f v

      go :
          (r : Found)
          → find_path_conf submatch m.path_confs req.name ≡ r
          → IsServed req.name granted m (elim r [
            | not_found e ↦ (m, res_err (find_err e))
            | found c matches ↦
                if differs c compare then (m, res_err conf_changed) else checked c matches
          ])
      go (not_found e) f = refused-IsServed req.name granted (find_err e) m v
      go (found c ms) f = compared c ms (differs c compare) f
