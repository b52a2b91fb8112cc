-- ===== src/Manager/Told.antt =====
-- What the manager has told the paths: createPath and reloadConf are the calls that give a path its
-- configuration.
use plux_mtx.Base.{
  String, ◌≡◌, refl, ap, ◌∙◌, Bool, true, false, Option, some, none, List, [], ◌∷◌, arith, ◌==s◌,
  text_eq, if◌then◌else◌, some_inj,
}
use plux_mtx.Conf.PathConf.{PathConf, equal, equal_iff}
use plux_mtx.Conf.Find.{PathConfs, lookup}
use plux_mtx.Manager.State.{
  ManagerEffect, PathRef, path_created, path_reloaded, path_closed, hls_path_ready,
  hls_path_not_ready,
}
use plux_mtx.Manager.Reload.{mem_text, changed_confs}

-- The last configuration that was sent to a path of the name, on its creation or later.
unfoldable pub told : String → List ManagerEffect → Option PathConf
told k [] = none
told k (path_created ref c ms ∷ out) =
    let rest = told k out in if ref.name ==s k then some c else rest
told k (path_reloaded ref c ∷ out) =
    let rest = told k out in if ref.name ==s k then some c else rest
told k (path_closed ref ∷ out) = told k out
told k (hls_path_ready ref ∷ out) = told k out
told k (hls_path_not_ready ref ∷ out) = told k out

-- A configuration that is in neither of the two lists of doReloadConf has not changed.
pub unchanged_lem :
    (n : String) (b c : PathConf) (new old : PathConfs)
    → lookup n new ≡ some c
    → lookup n old ≡ some b
    → mem_text n (changed_confs false new old) ≡ false
    → mem_text n (changed_confs true new old) ≡ false
    → c ≡ b
unfolding lookup mem_text changed_confs
unchanged_lem n b c new [] e h r s = cc
unchanged_lem n b c new ((k, o) ∷ old) e h r s = go (k ==s n) refl (unchanged_lem n b c new old e)
  where
    here : Bool → List String
    here reload = changed_confs reload new ((k, o) ∷ old)

    later : (d : Bool) → mem_text n (here d) ≡ false → mem_text n (changed_confs d new old) ≡ false
    later d h = ground arith

    is_equal : lookup k new ≡ some c → (k ==s n) ≡ true → equal c o ≡ true
    is_equal l i = ground (arith, l, i, r, s)

    go :
        (t : Bool)
        → (k ==s n) ≡ t
        → (lookup n old ≡ some b
            → mem_text n (changed_confs false new old) ≡ false
            → mem_text n (changed_confs true new old) ≡ false
            → c ≡ b)
        → c ≡ b
    go true i ih =
        (equal_iff c o).0 (is_equal (ap (λ x. lookup x new) (text_eq k n i) ∙ e) i)
        ∙ some_inj o b (ground arith)
    go false i ih = ih (ground arith) (later false r) (later true s)

-- What is sent to a path of another name.
pub told_created_other :
    (k : String) (ref : PathRef) (c : PathConf) (ms : List String) (out : List ManagerEffect)
    → (ref.name ==s k) ≡ false
    → told k (path_created ref c ms ∷ out) ≡ told k out
unfolding told
told_created_other k ref c ms out h = rw h refl

pub told_created :
    (k : String) (ref : PathRef) (c : PathConf) (ms : List String) (out : List ManagerEffect)
    → (ref.name ==s k) ≡ true
    → told k (path_created ref c ms ∷ out) ≡ some c
unfolding told
told_created k ref c ms out h = rw h refl

pub told_reloaded_other :
    (k : String) (ref : PathRef) (c : PathConf) (out : List ManagerEffect)
    → (ref.name ==s k) ≡ false
    → told k (path_reloaded ref c ∷ out) ≡ told k out
unfolding told
told_reloaded_other k ref c out h = rw h refl

pub told_reloaded :
    (k : String) (ref : PathRef) (c : PathConf) (out : List ManagerEffect)
    → (ref.name ==s k) ≡ true
    → told k (path_reloaded ref c ∷ out) ≡ some c
unfolding told
told_reloaded k ref c out h = rw h refl

pub told_closed :
    (k : String) (ref : PathRef) (out : List ManagerEffect)
    → told k (path_closed ref ∷ out) ≡ told k out
unfolding told
told_closed k ref out = refl
