-- ===== src/Path/Invariant/Runs.antt =====
-- Every round of the loop keeps the invariant or ends the path, and none panics.
use plux_mtx.Base.{
  zero, suc, String, true, false, ◌≡◌, refl, ◌⊎◌, inl, inr, Option, some, none, List, [], ◌∷◌,
  arith, Ensures, Ensures-bind, Ensures-if, Ensures-mono, is_some, count, ◌>>=◌, if◌then◌else◌, sym,
  subst,
}
use plux_mtx.Conf.PathConf.{PathConf}
use plux_mtx.Conf.Flags.{source_tests, IsValidDemand}
use plux_mtx.Path.State.{CorePath}
use plux_mtx.Path.Run.{
  Event, static_ready_fires, static_close_fires, publisher_ready_fires, publisher_close_fires,
  reload_conf, static_set_ready, static_set_not_ready, describe, add_publisher, remove_publisher,
  add_reader, remove_reader, terminate, initialize, start, handle, ends, refuse, step_open, step,
  run,
}
use plux_mtx.Path.Invariant.{Inv, IsCapped, is_running}
use plux_mtx.Base.Int.{ℤ, pos, negsuc}
use plux_mtx.Path.Invariant.Requests.{do_describe-Inv, do_add_reader-Inv, do_remove_reader-Inv}
use plux_mtx.Path.Invariant.Timers.{
  static_ready_fires-Inv, static_close_fires-Inv, publisher_ready_fires-Inv,
  publisher_close_fires-Inv,
}
use plux_mtx.Path.Invariant.Sources.{
  do_source_static_set_ready-Inv, do_source_static_set_not_ready-Inv, do_remove_publisher-Inv,
}
use plux_mtx.Path.Invariant.Publishers.{do_add_publisher-Inv}
use plux_mtx.Path.Invariant.Steps.{IsReload, IsClosed, do_reload_conf-Inv, close_down-IsClosed}

-- What the rest of the program promises: a timer fires while it is armed, a static source reports
-- itself ready once and only while it runs, and the formats of a session can be processed.
abbrev pub IsEnabled : Event → CorePath → Type 0
IsEnabled static_ready_fires p = is_some p.static_source.ready_timer ≡ true
IsEnabled static_close_fires p = is_some p.static_source.close_timer ≡ true
IsEnabled publisher_ready_fires p = is_some p.demand_publisher.ready_timer ≡ true
IsEnabled publisher_close_fires p = is_some p.demand_publisher.close_timer ≡ true
IsEnabled (reload_conf c) p = IsReload c p.conf
IsEnabled (static_set_ready req) p =
    (is_running p.source ≡ true) × (is_some p.stream ≡ false) × (req.desc.initializes ≡ true)
IsEnabled (static_set_not_ready id) p = (is_running p.source ≡ true) × (is_some p.stream ≡ true)
IsEnabled (describe req) p = Unit
IsEnabled (add_publisher req) p = req.desc.initializes ≡ true
IsEnabled (remove_publisher id author) p = Unit
IsEnabled (add_reader req) p = Unit
IsEnabled (remove_reader id author) p = Unit
IsEnabled terminate p = Unit

handle-Inv : (e : Event) (p : CorePath) → IsEnabled e p → Inv p → Ensures Inv (handle e p)
unfolding handle
handle-Inv static_ready_fires p h v = static_ready_fires-Inv p h v
handle-Inv static_close_fires p h v = static_close_fires-Inv p h v
handle-Inv publisher_ready_fires p h v = publisher_ready_fires-Inv p h v
handle-Inv publisher_close_fires p h v = publisher_close_fires-Inv p h v
handle-Inv (reload_conf c) p h v = do_reload_conf-Inv c p h v
handle-Inv (static_set_ready req) p h v = do_source_static_set_ready-Inv req p h.0 h.1 h.2 v
handle-Inv (static_set_not_ready id) p h v = do_source_static_set_not_ready-Inv id p h.0 h.1 v
handle-Inv (describe req) p h v = do_describe-Inv req p v
handle-Inv (add_publisher req) p h v = do_add_publisher-Inv req p h v
handle-Inv (remove_publisher id author) p h v = do_remove_publisher-Inv id author p v
handle-Inv (add_reader req) p h v = do_add_reader-Inv req p v
handle-Inv (remove_reader id author) p h v = do_remove_reader-Inv id author p v
handle-Inv terminate p h v = v

-- A path is in its loop, or has ended.
abbrev pub IsSound : CorePath → Type 0
IsSound p = Inv p ⊎ IsClosed p

step_open-IsSound :
    (e : Event) (p : CorePath) → IsEnabled e p → Inv p → Ensures IsSound (step_open e p)
unfolding step_open
step_open-IsSound e p h v = Ensures-bind Inv IsSound (handle e p) _ (handle-Inv e p h v) (λ q w.
    Ensures-if IsSound (ends e q) _ _
      (λ _. Ensures-mono IsClosed IsSound _ (close_down-IsClosed q w) (λ r c. inr c)) (λ _. inl w))

refuse-IsClosed : (e : Event) (p : CorePath) → IsClosed p → IsClosed (refuse e p)
unfolding refuse
refuse-IsClosed (static_set_ready req) p c = ground arith
refuse-IsClosed _ p c = ground arith

-- A path whose loop runs keeps its invariant through a round of the loop, or ends closed: no
-- stream, recorder, reader, running source or armed timer is left. A path that has ended stays
-- closed. No round panics. While the loop runs, the event is a possible one: a timer fires only if
-- it is armed, a source reports only while it runs, a reload keeps what the path relies on, and the
-- formats of a published description can be initialized.
pub step-IsSound :
    (e : Event) (p : CorePath)
    → (p.done ≡ false → IsEnabled e p)
    → IsSound p
    → Ensures IsSound (step e p)
unfolding step
step-IsSound e p h (inl v) =
    subst (λ d. Ensures IsSound (if d then some (refuse e p) else step_open e p))
      (sym v.serving.not_done) (step_open-IsSound e p (h v.serving.not_done) v)
step-IsSound e p h (inr c) =
    subst (λ d. Ensures IsSound (if d then some (refuse e p) else step_open e p)) (sym c.ended)
      (inr (refuse-IsClosed e p c))

IsCapped-zero : (m : ℤ) → IsCapped m 0
IsCapped-zero (pos zero) = tt
IsCapped-zero (pos (suc m)) = omega arith
IsCapped-zero (negsuc m) = omega arith

start-Inv : (c : PathConf) (name : String) → IsValidDemand c → Inv (start (initialize c name))
unfolding start initialize count
start-Inv c name v = ground (arith, source_tests c, IsCapped-zero c.max_readers)

-- Every event of the list can occur when its turn comes.
abbrev pub IsPossible : List Event → CorePath → Type 0
IsPossible [] p = Unit
IsPossible (e ∷ es) p =
    (p.done ≡ false → IsEnabled e p) × ((q : CorePath) → step e p ≡ some q → IsPossible es q)

run-IsSound :
    (es : List Event) (p : CorePath) → IsPossible es p → IsSound p → Ensures IsSound (run es p)
unfolding run
run-IsSound [] p h s = s
run-IsSound (e ∷ es) p h s = go (step e p) refl (step-IsSound e p h.0 s) (λ q. run-IsSound es q)
  where
    go :
        (m : Option CorePath)
        → step e p ≡ m
        → Ensures IsSound m
        → ((q : CorePath) → IsPossible es q → IsSound q → Ensures IsSound (run es q))
        → Ensures IsSound (m >>= run es)
    go none k w later = elim w [ ]
    go (some q) k w later = later q (h.1 q k) w

-- A path that is created with a valid configuration never panics, whatever possible events follow,
-- and then satisfies the invariant or has ended closed. A timer fires only if it is armed, a source
-- reports only while it runs, a reload keeps the source, the on-demand settings and the limit of
-- readers, and the formats of a published description can be initialized.
pub run-start-IsSound :
    (c : PathConf) (name : String) (es : List Event)
    → IsValidDemand c
    → IsPossible es (start (initialize c name))
    → Ensures IsSound (run es (start (initialize c name)))
run-start-IsSound c name es v h =
    run-IsSound es (start (initialize c name)) h (inl (start-Inv c name v))
