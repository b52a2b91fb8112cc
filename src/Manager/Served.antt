-- ===== src/Manager/Served.antt =====
-- The last loop of doReloadConf gives each name without a regular expression a path.
use plux_mtx.Base.{
  String, ◌≡◌, refl, inl, inr, Bool, true, false, not, ◌&&◌, some, List, [], ◌∷◌, arith, is_some,
  ◌==s◌, text_refl, text_eq, if◌then◌else◌, All, some_inj,
}
use plux_mtx.Conf.PathConf.{PathConf}
use plux_mtx.Conf.Find.{PathConfs, lookup}
use plux_mtx.Manager.State.{Manager, PathData, create_path}
use plux_mtx.Manager.Reload.{create_static_paths}
use plux_mtx.Manager.Maps.{lookup-insert}
use plux_mtx.Manager.Reloading.{Pending}

-- The names without a regular expression that have a path.
abbrev pub AreServed : PathConfs → List (String × PathData) → Type 0
AreServed confs paths =
    All (λ (e : String × PathConf). is_some e.1.regexp ≡ false → is_some (lookup e.0 paths) ≡ true)
      confs

pub create_path-confs :
    (c : PathConf) (k : String) (ms : List String) (m : Manager)
    → (create_path c k ms m).path_confs ≡ m.path_confs
unfolding create_path
create_path-confs c k ms m = refl

pub lookup-Pending :
    (es : List (String × PathData)) (k : String) (pd : PathData)
    → lookup k es ≡ some pd
    → Pending es k pd
unfolding lookup
lookup-Pending [] k pd e = cc
lookup-Pending ((j, q) ∷ es) k pd e = go (j ==s k) refl e (lookup-Pending es k pd)
  where
    go :
        (b : Bool)
        → (j ==s k) ≡ b
        → (if b then some q else lookup k es) ≡ some pd
        → (lookup k es ≡ some pd → Pending es k pd)
        → Pending ((j, q) ∷ es) k pd
    go true s h ih = inl (text_eq j k s, some_inj q pd h)
    go false s h ih = inr (ih h)

create_path-keeps :
    (c : PathConf) (k j : String) (ms : List String) (m : Manager)
    → is_some (lookup j m.paths) ≡ true
    → is_some (lookup j (create_path c k ms m).paths) ≡ true
unfolding create_path
create_path-keeps c k j ms m h = rw lookup-insert (ground arith)

create_path-adds :
    (c : PathConf) (k : String) (ms : List String) (m : Manager)
    → is_some (lookup k (create_path c k ms m).paths) ≡ true
unfolding create_path
create_path-adds c k ms m = rw (lookup-insert, text_refl k)

-- One round of the loop.
abbrev pub with_static : String → PathConf → Manager → Manager
with_static k c m =
    if not (is_some c.regexp) && not (is_some (lookup k m.paths)) then create_path c k [] m else m

with_static-keeps :
    (c : PathConf) (k j : String) (m : Manager)
    → is_some (lookup j m.paths) ≡ true
    → is_some (lookup j (with_static k c m).paths) ≡ true
with_static-keeps c k j m h = go (not (is_some c.regexp) && not (is_some (lookup k m.paths)))
  where
    go : (b : Bool) → is_some (lookup j (if b then create_path c k [] m else m).paths) ≡ true
    go true = create_path-keeps c k j [] m h
    go false = h

with_static-adds :
    (c : PathConf) (k : String) (m : Manager)
    → is_some c.regexp ≡ false
    → is_some (lookup k (with_static k c m).paths) ≡ true
with_static-adds c k m h = go (is_some c.regexp) h (is_some (lookup k m.paths)) refl
  where
    go :
        (r : Bool)
        → r ≡ false
        → (b : Bool) → is_some (lookup k m.paths) ≡ b
        → is_some (lookup k (if not r && not b then create_path c k [] m else m).paths) ≡ true
    go true z b e = cc
    go false z true e = e
    go false z false e = create_path-adds c k [] m

create_static_paths-keeps :
    (rest : PathConfs) (j : String) (m : Manager)
    → is_some (lookup j m.paths) ≡ true
    → is_some (lookup j (create_static_paths rest m).paths) ≡ true
unfolding create_static_paths
create_static_paths-keeps [] j m h = h
create_static_paths-keeps ((k, c) ∷ rest) j m h =
    create_static_paths-keeps rest j (with_static k c m) (with_static-keeps c k j m h)

pub create_static_paths-AreServed :
    (rest : PathConfs) (m : Manager) → AreServed rest (create_static_paths rest m).paths
unfolding create_static_paths
create_static_paths-AreServed [] m = tt
create_static_paths-AreServed ((k, c) ∷ rest) m = (
  (λ r. create_static_paths-keeps rest k (with_static k c m) (with_static-adds c k m r)),
  create_static_paths-AreServed rest (with_static k c m),
)
