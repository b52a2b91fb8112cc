-- ===== src/Manager/State.antt =====
-- internal/core/path_manager.go: the state of the path manager and what it sends to others. A path
-- is known by its name and by a number that no two paths share. The maps are lists of entries;
-- the order of a loop over a map, which Go leaves open, is that of the list.
use plux_mtx.Base.{ℕ, String, Bool, List, ◌∷◌, ◌==s◌, if◌then◌else◌, [], suc, false}
use plux_mtx.Conf.PathConf.{PathConf}
use plux_mtx.Conf.Find.{PathConfs, FindErr}

pub record PathRef : Type 0 where
  pub id : ℕ
  pub name : String

pub record PathData : Type 0 where
  pub path : PathRef
  pub ready : Bool
  pub conf_name : String

-- defs.PathAccessRequest, as far as the manager reads it; `access` is what is authenticated.
pub record AccessRequest : Type 0 where
  pub name : String
  pub access : ℕ
  pub skip_auth : Bool

pub data ManagerErr : Type 0 where
  find_err : FindErr → ManagerErr
  auth_err : ℕ → ManagerErr
  conf_changed path_not_found : ManagerErr

pub data ManagerRes : Type 0 where
  res_path : PathRef → ManagerRes
  res_conf : PathConf → ManagerRes
  res_err : ManagerErr → ManagerRes

pub data ManagerEffect : Type 0 where
  path_created : PathRef → PathConf → List String → ManagerEffect
  path_closed : PathRef → ManagerEffect
  path_reloaded : PathRef → PathConf → ManagerEffect
  hls_path_ready hls_path_not_ready : PathRef → ManagerEffect

pub record Manager : Type 0 where
  pub path_confs : PathConfs
  pub hls_server : Bool  -- whether it is set
  pub paths : List (String × PathData)
  pub next_id : ℕ
  pub out : List ManagerEffect  -- newest first

abbrev pub send : ManagerEffect → Manager → Manager
send e m = record m { out = e ∷ m.out }

-- `m[k] = v` on a map.
unfoldable pub insert {ℓ} : {V : Type ℓ} → String → V → List (String × V) → List (String × V)
insert name value [] = (name, value) ∷ []
insert name value ((key, other) ∷ entries) =
    let rest = insert name value entries in
    if key ==s name then (key, value) ∷ entries else (key, other) ∷ rest

-- `delete(m, k)`.
unfoldable pub remove {ℓ} : {V : Type ℓ} → String → List (String × V) → List (String × V)
remove name [] = []
remove name ((key, value) ∷ entries) =
    let rest = remove name entries in if key ==s name then rest else (key, value) ∷ rest

unfoldable pub create_path : PathConf → String → List String → Manager → Manager
unfolding insert
create_path c name matches m =
    let ref : PathRef = record { id = m.next_id; name = name } in
    let pd : PathData = record { path = ref; ready = false; conf_name = c.name } in
    send (path_created ref c matches)
      (record m { paths = insert name pd m.paths; next_id = suc m.next_id })

unfoldable pub remove_path : PathRef → Manager → Manager
unfolding remove
remove_path ref m = record m { paths = remove ref.name m.paths }

unfoldable pub remove_and_close_path : PathRef → Manager → Manager
unfolding remove_path
remove_and_close_path ref m = send (path_closed ref) (remove_path ref m)
