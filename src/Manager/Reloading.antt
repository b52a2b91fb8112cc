-- ===== src/Manager/Reloading.antt =====
-- After new configurations are loaded, every path was last sent the one that its name is looked up to, and
-- every name without a regular expression has a path.
use plux_mtx.Base.{
  String, ◌≡◌, refl, sym, ap, ◌∙◌, subst, ◌⊎◌, inl, inr, Bool, true, false, not, Option, some, none,
  List, [], ◌∷◌, arith, is_some, ◌==s◌, text_eq, eq_text, if◌then◌else◌, All, Ensures, Ensures-bind,
  Ensures-if, ◌>>=◌,
}
use plux_mtx.Conf.PathConf.{PathConf}
use plux_mtx.Conf.Find.{PathConfs, Found, found, not_found, lookup, find_path_conf}
use plux_mtx.Manager.State.{
  Manager, ManagerEffect, PathData, send, path_reloaded, path_closed, remove_and_close_path,
}
use plux_mtx.Manager.Update.{path_conf_can_be_updated}
use plux_mtx.Manager.Reload.{
  mem_text, changed_confs, change_conf, same_conf, move_path, reload_path, reload_paths,
}
use plux_mtx.Manager.Maps.{
  lookup-move_path, IsDistinct, Entries, remove-Entries, changed-Entries, remove-IsDistinct,
  move_path-IsDistinct,
}
use plux_mtx.Manager.Told.{told, told_reloaded, told_reloaded_other, told_closed, unchanged_lem}
use plux_mtx.Manager.Keyed.{found_inj}
use plux_mtx.Manager.Invariant.{IsConfigured}

-- An entry that the loop has still to visit.
abbrev pub Pending : List (String × PathData) → String → PathData → Type 0
Pending [] k pd = ⊥
Pending ((j, q) ∷ es) k pd = ((j ≡ k) × (q ≡ pd)) ⊎ Pending es k pd

-- What is known of the entries to visit.
abbrev pub IsVisitable : PathConfs → List (String × PathData) → Type 0
IsVisitable old =
    All
      λ (e : String × PathData). (e.1.path.name ≡ e.0) × (is_some (lookup e.1.conf_name old) ≡ true)

-- A path that is still to be visited was last sent the old configuration of the name that it is
-- recorded with.
abbrev pub WasTold : PathConfs → List ManagerEffect → String → PathData → Type 0
WasTold old out k pd = (b : PathConf) × (lookup pd.conf_name old ≡ some b) × (told k out ≡ some b)

Pending-name :
    (old : PathConfs) (es : List (String × PathData)) (k : String) (pd : PathData)
    → IsVisitable old es
    → Pending es k pd
    → pd.path.name ≡ k
Pending-name old [] k pd a h = elim h [ ]
Pending-name old ((j, q) ∷ es) k pd a (inl e) =
    sym (ap (λ (x : PathData). x.path.name) e.1) ∙ (a.0.0 ∙ e.0)
Pending-name old ((j, q) ∷ es) k pd a (inr h) = Pending-name old es k pd a.1 h

not_Pending :
    (es : List (String × PathData)) (k j : String) (pd : PathData)
    → lookup k es ≡ none
    → k ≡ j
    → Pending es j pd
    → ⊥
unfolding lookup
not_Pending [] k j pd l e h = h
not_Pending ((i, q) ∷ es) k j pd l e (inl h) = cc (eq_text i k (h.0 ∙ sym e))
not_Pending ((i, q) ∷ es) k j pd l e (inr h) = not_Pending es k j pd (ground arith) e h

-- What is looked up stands under its own name.
abbrev pub IsFindable : (String → String → Option (List String)) → PathConfs → Type 0
IsFindable submatch confs =
    (k : String) (c : PathConf) (ms : List String)
    → find_path_conf submatch confs k ≡ found c ms
    → lookup c.name confs ≡ some c

module _ (submatch : String → String → Option (List String)) (old new : PathConfs) where
  abbrev pub IsSettled : List ManagerEffect → List (String × PathData) → String → PathData → Type 0
  IsSettled out es k pd =
      IsConfigured submatch new out k pd ⊎ (Pending es k pd × WasTold old out k pd)

  pub record Loop (es : List (String × PathData)) (m : Manager) : Type 0 where
    pub confs : m.path_confs ≡ old
    pub distinct : IsDistinct m.paths
    pub settled : Entries (IsSettled m.out es) m.paths

  IsSettled-other :
      (k j : String) (q pd : PathData) (es : List (String × PathData))
      (out out' : List ManagerEffect)
      → (k ==s j) ≡ false
      → told j out' ≡ told j out
      → IsSettled out ((k, q) ∷ es) j pd
      → IsSettled out' es j pd
  IsSettled-other k j q pd es out out' h o (inl (n, c, ms, f, s, t)) = inl (n, c, ms, f, s, o ∙ t)
  IsSettled-other k j q pd es out out' h o (inr (inl e, b)) = cc (eq_text k j e.0)
  IsSettled-other k j q pd es out out' h o (inr (inr r, (b, l, t))) = inr (r, (b, l, o ∙ t))

  removed-Loop :
      (k : String) (q : PathData) (es : List (String × PathData)) (m : Manager)
      → q.path.name ≡ k
      → Loop ((k, q) ∷ es) m
      → Loop es (remove_and_close_path q.path m)
  unfolding remove_and_close_path
  removed-Loop k q es m n l = record {
    confs = l.confs;
    distinct = remove-IsDistinct q.path.name m.paths l.distinct;
    settled =
        remove-Entries (IsSettled (path_closed q.path ∷ m.out) es) q.path.name m.paths (λ j pd h e.
          IsSettled-other k j q pd es m.out (path_closed q.path ∷ m.out)
            (ap (λ x. x ==s j) (sym n) ∙ h) (told_closed j q.path m.out) (l.settled j pd e));
  }

  settled-name :
      (es : List (String × PathData)) (out : List ManagerEffect) (k : String) (pd : PathData)
      → IsVisitable old es
      → IsSettled out es k pd
      → pd.path.name ≡ k
  settled-name es out k pd a (inl c) = c.0
  settled-name es out k pd a (inr p) = Pending-name old es k pd a p.0

  module _ (c : PathConf) (ms : List String) (k : String) (q : PathData)
      (es : List (String × PathData)) (m : Manager) (f : find_path_conf submatch new k ≡ found c ms)
      (a : IsVisitable old ((k, q) ∷ es)) (u : IsDistinct ((k, q) ∷ es))
      (l : Loop ((k, q) ∷ es) m) where
    moved-Loop :
        Loop es (
          send (path_reloaded q.path c) (record m { paths = move_path q.path.name c.name m.paths }))
    moved-Loop = record {
      confs = l.confs;
      distinct = move_path-IsDistinct q.path.name c.name m.paths l.distinct;
      settled =
          changed-Entries (IsSettled m.out ((k, q) ∷ es))
            (IsSettled (path_reloaded q.path c ∷ m.out) es) (λ pd. record pd { conf_name = c.name })
            q.path.name m.paths (move_path q.path.name c.name m.paths)
            (λ j. lookup-move_path q.path.name j c.name m.paths)
            (λ j pd h s. inl (
              settled-name ((k, q) ∷ es) m.out j pd a s,
              c,
              ms,
              subst (λ x. find_path_conf submatch new x ≡ found c ms)
                  (sym a.0.0 ∙ text_eq q.path.name j h) f,
              refl,
              told_reloaded j q.path c m.out h,
            ))
            (λ j pd h s.
              IsSettled-other k j q pd es m.out (path_reloaded q.path c ∷ m.out)
                (ap (λ x. x ==s j) (sym a.0.0) ∙ h) (told_reloaded_other j q.path c m.out h) s)
            l.settled;
    }

    -- The old configuration of the name is the new one.
    kept-Loop :
        c.name ≡ q.conf_name
        → ((b : PathConf) → lookup q.conf_name old ≡ some b → c ≡ b)
        → Loop es m
    kept-Loop n same = record {
      confs = l.confs;
      distinct = l.distinct;
      settled = λ j pd e. go j pd (l.settled j pd e);
    }
      where
        go :
            (j : String) (pd : PathData)
            → IsSettled m.out ((k, q) ∷ es) j pd
            → IsSettled m.out es j pd
        go j pd (inl s) = inl s
        go j pd (inr (inr r, t)) = inr (r, t)
        go j pd (inr (inl e, (b, o, t))) = inl (
          sym (ap (λ (x : PathData). x.path.name) e.1) ∙ (a.0.0 ∙ e.0),
          c,
          ms,
          subst (λ x. find_path_conf submatch new x ≡ found c ms) e.0 f,
          n ∙ ap (λ (x : PathData). x.conf_name) e.1,
          t ∙ ap some (sym (same b (ap (λ (x : PathData). lookup x.conf_name old) e.1 ∙ o))),
        )

    -- The path is sent the new configuration of the same name.
    sent-Loop : c.name ≡ q.conf_name → Loop es (send (path_reloaded q.path c) m)
    sent-Loop n = record {
      confs = l.confs;
      distinct = l.distinct;
      settled = λ j pd e. go j pd (q.path.name ==s j) refl (l.settled j pd e);
    }
      where
        at : (j : String) → (q.path.name ==s j) ≡ true → find_path_conf submatch new j ≡ found c ms
        at j h =
            subst (λ x. find_path_conf submatch new x ≡ found c ms)
              (sym a.0.0 ∙ text_eq q.path.name j h) f

        go :
            (j : String) (pd : PathData) (b : Bool)
            → (q.path.name ==s j) ≡ b
            → IsSettled m.out ((k, q) ∷ es) j pd
            → IsSettled (path_reloaded q.path c ∷ m.out) es j pd
        go j pd false h s =
            IsSettled-other k j q pd es m.out (path_reloaded q.path c ∷ m.out)
              (ap (λ x. x ==s j) (sym a.0.0) ∙ h) (told_reloaded_other j q.path c m.out h) s
        go j pd true h (inl (n', c', ms', f', s', t')) = inl (
          n',
          c,
          ms,
          at j h,
          ap (λ (x : PathConf). x.name) (found_inj c c' ms ms' (sym (at j h) ∙ f')) ∙ s',
          told_reloaded j q.path c m.out h,
        )
        go j pd true h (inr (inl e, t)) = inl (
          sym (ap (λ (x : PathData). x.path.name) e.1) ∙ (a.0.0 ∙ e.0),
          c,
          ms,
          at j h,
          n ∙ ap (λ (x : PathData). x.conf_name) e.1,
          told_reloaded j q.path c m.out h,
        )
        go j pd true h (inr (inr r, t)) =
            elim (not_Pending es k j pd u.0 (sym a.0.0 ∙ text_eq q.path.name j h) r) [ ]

    change_conf-Loop : Ensures (Loop es) (change_conf c q m)
    unfolding change_conf
    change_conf-Loop = go (lookup q.conf_name m.path_confs) known
      where
        known : is_some (lookup q.conf_name m.path_confs) ≡ true
        known = ap (λ (x : PathConfs). is_some (lookup q.conf_name x)) l.confs ∙ a.0.1

        go :
            (o : Option PathConf)
            → is_some o ≡ true
            → Ensures (Loop es) (
                o >>= λ o'.
                if path_conf_can_be_updated o' c
                then some (
                    send
                      (path_reloaded q.path c)
                      (record m { paths = move_path q.path.name c.name m.paths }))
                else some (remove_and_close_path q.path m))
        go none h = cc
        go (some o') h =
            Ensures-if (Loop es) (path_conf_can_be_updated o' c) _ _ (λ _. moved-Loop)
              (λ _. removed-Loop k q es m a.0.0 l)

    same_conf-Loop :
        lookup c.name new ≡ some c → c.name ≡ q.conf_name → Loop es (same_conf c q new m)
    unfolding same_conf
    same_conf-Loop g n =
        go (mem_text c.name (changed_confs false new m.path_confs))
          (mem_text c.name (changed_confs true new m.path_confs)) refl refl
      where
        go :
            (b d : Bool)
            → mem_text c.name (changed_confs false new m.path_confs) ≡ b
            → mem_text c.name (changed_confs true new m.path_confs) ≡ d
            → Loop es (
                if b
                then remove_and_close_path q.path m
                else if d
                then send (path_reloaded q.path c) m
                else m)
        go true d r s = removed-Loop k q es m a.0.0 l
        go false true r s = sent-Loop n
        go false false r s = kept-Loop n λ b e.
            unchanged_lem c.name b c new m.path_confs g
              (ap (λ (x : PathConfs). lookup c.name x) l.confs ∙ ap (λ x. lookup x old) n ∙ e) r s

  reload_path-Loop :
      (k : String) (q : PathData) (es : List (String × PathData)) (m : Manager)
      → IsFindable submatch new
      → IsVisitable old ((k, q) ∷ es)
      → IsDistinct ((k, q) ∷ es)
      → Loop ((k, q) ∷ es) m
      → Ensures (Loop es) (reload_path submatch new (k, q) m)
  unfolding reload_path
  reload_path-Loop k q es m w a u l = go (find_path_conf submatch new k) refl
    where
      go :
          (r : Found)
          → find_path_conf submatch new k ≡ r
          → Ensures (Loop es) (elim r [
            | not_found e ↦ some (remove_and_close_path q.path m)
            | found c matches ↦
                if not (c.name ==s q.conf_name)
                then change_conf c q m
                else some (same_conf c q new m)
          ])
      go (not_found e) f = removed-Loop k q es m a.0.0 l
      go (found c ms) f =
          Ensures-if (Loop es) (not (c.name ==s q.conf_name)) _ _
            (λ _. change_conf-Loop c ms k q es m f a u l)
            (λ n.
              same_conf-Loop c ms k q es m f a u l (w k c ms f)
                (text_eq c.name q.conf_name (ground arith)))

  pub reload_paths-Loop :
      (es : List (String × PathData)) (m : Manager)
      → IsFindable submatch new
      → IsVisitable old es
      → IsDistinct es
      → Loop es m
      → Ensures (Loop []) (reload_paths submatch new es m)
  unfolding reload_paths
  reload_paths-Loop [] m w a u l = l
  reload_paths-Loop ((k, q) ∷ es) m w a u l =
      Ensures-bind (Loop es) (Loop []) _ _ (reload_path-Loop k q es m w a u l)
        (λ n l'. reload_paths-Loop es n w a.1 u.1 l')
