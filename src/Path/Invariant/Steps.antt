-- ===== src/Path/Invariant/Steps.antt =====
-- Every round of the loop keeps the invariant, and none panics.
use plux_mtx.Base.{
  ℕ, is_empty, true, false, ◌≡◌, refl, ◌&&◌, Option, some, none, List, [], ◌∷◌, arith, Ensures,
  Ensures-bind, Ensures-if, Ensures-mono, is_some, if◌then◌else◌, sym, subst,
}
use plux_mtx.Conf.PathConf.{
  PathConf, has_static_source, has_on_demand_static_source, has_on_demand_publisher,
}
use plux_mtx.Conf.Flags.{source_tests}
use plux_mtx.Path.State.{
  CorePath, Effect, Recorder, emit, terminated, describe_err, hook_un_init, hook_un_demand,
  close_path,
}
use plux_mtx.Path.OnDemand.{reload_handler, stop_handler}
use plux_mtx.Path.Run.{stopped_timers, refuse_held, close_source, close_down}
use plux_mtx.Path.Exact.{
  describe_out, refuse_out, describe_each_lem, add_reader_err_each_lem, set_not_ready_lem,
}
use plux_mtx.Path.Ready.{set_not_ready, start_recording, close_recorder}
use plux_mtx.Path.Handlers.{do_reload_conf, record_conf_changed}
use plux_mtx.Path.Invariant.{Inv, is_running}

-- The fields that a configuration keeps when it is reloaded into a path.
pub record IsReload (new old : PathConf) : Type 0 where
  pub same_source : new.source ≡ old.source
  pub same_on_demand : new.source_on_demand ≡ old.source_on_demand
  pub same_demand : new.run_on_demand ≡ old.run_on_demand
  pub same_limit : new.max_readers ≡ old.max_readers

reload-flags :
    (new old : PathConf)
    → IsReload new old
    → (has_static_source new ≡ has_static_source old)
      × (has_on_demand_static_source new ≡ has_on_demand_static_source old)
      × (has_on_demand_publisher new ≡ has_on_demand_publisher old)
unfolding has_static_source has_on_demand_static_source has_on_demand_publisher
reload-flags new old r = (cc, cc, cc)

reloaded-Inv :
    (new : PathConf) (r : Option Recorder) (es : List Effect) (p : CorePath)
    → IsReload new p.conf
    → is_some r ≡ (new.records && is_some p.stream)
    → Inv p
    → Inv (record p { conf = new; recorder = r; out = es })
reloaded-Inv new r es p k s v =
    ground (arith, source_tests new, source_tests p.conf, reload-flags new p.conf k)

-- A reload changes the configuration, the recorder and what is sent, and records as it should.
abbrev IsReloaded : PathConf → CorePath → CorePath → Type 0
IsReloaded new p q =
    (q ≡ record p { conf = new; recorder = q.recorder; out = q.out })
    × (is_some q.recorder ≡ (new.records && is_some p.stream))

do_reload_conf-IsReloaded :
    (new : PathConf) (p : CorePath)
    → IsReload new p.conf
    → Inv p
    → Ensures (IsReloaded new p) (do_reload_conf new p)
unfolding do_reload_conf reload_handler close_recorder start_recording record_conf_changed
do_reload_conf-IsReloaded new p k v = ground (arith, source_tests p.conf, reload-flags new p.conf k)

pub do_reload_conf-Inv :
    (new : PathConf) (p : CorePath)
    → IsReload new p.conf
    → Inv p
    → Ensures Inv (do_reload_conf new p)
do_reload_conf-Inv new p k v =
    Ensures-mono (IsReloaded new p) Inv _ (do_reload_conf-IsReloaded new p k v)
      (λ q w. subst Inv (sym w.0) (reloaded-Inv new q.recorder q.out p k w.1 v))

-- The path has ended: nothing is left running, open or armed.
pub record IsClosed (p : CorePath) : Type 0 where
  pub ended : p.done ≡ true
  pub no_stream : p.stream ≡ none
  pub no_recorder : p.recorder ≡ none
  pub no_readers : p.readers ≡ []
  pub not_running : is_running p.source ≡ false
  pub static_timers : (p.static_source.ready_timer ≡ none) × (p.static_source.close_timer ≡ none)
  pub publisher_timers :
      (p.demand_publisher.ready_timer ≡ none) × (p.demand_publisher.close_timer ≡ none)

abbrev pub closing_path : List Effect → CorePath → CorePath
closing_path es p = record p {
  done = true;
  static_source = stopped_timers p.static_source;
  demand_publisher = stopped_timers p.demand_publisher;
  out = es;
}

unfoldable pub refused_out : CorePath → List Effect
refused_out p = refuse_out terminated p.reader_add_requests_on_hold (
    describe_out (describe_err terminated) p.describe_requests_on_hold
      (hook_un_init ∷ (close_path ∷ p.out)))

pub refuse_held_lem : (p : CorePath) → refuse_held p ≡ closing_path (refused_out p) p
unfolding refuse_held refused_out
refuse_held_lem p =
    rw (describe_each_lem (describe_err terminated) p.describe_requests_on_hold)
      (rw (add_reader_err_each_lem terminated p.reader_add_requests_on_hold) refl)

empty_nil : (rs : List ℕ) → is_empty rs ≡ true → rs ≡ []
empty_nil [] h = refl
empty_nil (r ∷ rs) h = cc

-- A path whose stream is gone, if there was one.
abbrev IsSilenced : CorePath → CorePath → Type 0
IsSilenced p q = q ≡ record p { stream = none; recorder = none; readers = []; out = q.out }

silence-IsSilenced :
    (es : List Effect) (p : CorePath)
    → Inv p
    → Ensures
        (IsSilenced (closing_path es p))
        (if is_some p.stream then set_not_ready (closing_path es p) else some (closing_path es p))
silence-IsSilenced es p v =
    Ensures-if (IsSilenced (closing_path es p)) (is_some p.stream) _ _
      (λ s. rw (set_not_ready_lem (closing_path es p) (v.serving.hook_set s)) refl)
      (λ s. ground (arith, empty_nil p.readers (v.serving.no_readers s), v.serving.recording))

close_source-IsClosed :
    (es : List Effect) (p : CorePath)
    → Inv p
    → Ensures IsClosed (
        close_source p.source
          (record (closing_path es p) { stream = none; recorder = none; readers = [] }))
unfolding close_source stop_handler
close_source-IsClosed es p v = ground (arith, source_tests p.conf)

-- Ending the loop of a path that keeps the invariant does not panic and leaves it closed: no stream,
-- recorder or reader, no running source and no armed timer.
pub close_down-IsClosed : (p : CorePath) → Inv p → Ensures IsClosed (close_down p)
unfolding close_down
close_down-IsClosed p v = rw (refuse_held_lem p) (
    Ensures-bind (IsSilenced (closing_path (refused_out p) p)) IsClosed _ _
      (silence-IsSilenced (refused_out p) p v)
      (λ q e.
        Ensures-bind IsClosed IsClosed _ _
          (subst (λ r. Ensures IsClosed (close_source r.source r)) (sym e)
            (close_source-IsClosed q.out p v))
          hook_called))
  where
    hook_called :
        (q : CorePath)
        → IsClosed q
        → Ensures IsClosed
            (some (if q.on_un_demand_hook then emit (hook_un_demand "path destroyed") q else q))
    hook_called q c = ground arith
