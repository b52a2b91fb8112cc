-- ===== src/Path/Run.antt =====
-- internal/core/path.go: the loop of a path. `step` is one round of the `select` of `runInner`, with
-- what `run` does behind the loop when the round ends it, and what the callers on the other
-- side of the channels do when the path has ended.
use plux_mtx.Base.{
  ℕ, String, Bool, true, false, ◌&&◌, ◌||◌, not, Option, some, none, List, [], ◌∷◌, ◌==s◌, is_empty,
  is_some, ◌>>=◌, if◌then◌else◌,
}
use plux_mtx.Conf.PathConf.{PathConf, has_static_source}
use plux_mtx.Path.State.{
  CorePath, Source, OnDemand, DescribeReq, AddReaderReq, AddPublisherReq, SetReadyReq, redirect,
  handler, publisher, idle, emit, is_initial, describe_res, describe_err, add_reader_res, add_err,
  add_publisher_res, set_ready_res, closed_res, publisher_close, close_path, hook_init,
  hook_un_init, hook_un_demand, source_start, terminated,
}
use plux_mtx.Path.OnDemand.{stop_handler}
use plux_mtx.Path.Ready.{set_not_ready, describe_each, add_reader_err_each}
use plux_mtx.Path.Handlers.{
  do_on_demand_static_source_ready_timer, do_on_demand_static_source_close_timer,
  do_on_demand_publisher_ready_timer, do_on_demand_publisher_close_timer, do_reload_conf,
  do_source_static_set_ready, do_source_static_set_not_ready, do_describe, do_add_publisher,
  do_remove_publisher, do_add_reader, do_remove_reader,
}

pub data Event : Type 0 where
  static_ready_fires static_close_fires publisher_ready_fires publisher_close_fires : Event
  reload_conf : PathConf → Event
  static_set_ready : SetReadyReq → Event
  static_set_not_ready : ℕ → Event
  describe : DescribeReq → Event
  add_publisher : AddPublisherReq → Event
  remove_publisher : ℕ → ℕ → Event
  add_reader : AddReaderReq → Event
  remove_reader : ℕ → ℕ → Event
  terminate : Event

unfoldable pub initialize : PathConf → String → CorePath
initialize c name = record {
  conf = c;
  name = name;
  source = none;
  publisher_query = "";
  stream = none;
  recorder = none;
  ready_time = 0;
  on_un_demand_hook = false;
  on_not_ready_hook = false;
  readers = [];
  describe_requests_on_hold = [];
  reader_add_requests_on_hold = [];
  static_source = idle;
  demand_publisher = idle;
  done = false;
  out = [];
}

-- What `run` does before the loop: the source, and the start of one that is always on.
unfoldable pub start : CorePath → CorePath
start p = emit hook_init (
    if p.conf.source ==s "redirect"
    then record p { source = some redirect }
    else if has_static_source p.conf
    then if p.conf.source_on_demand
      then record p { source = some (handler false) }
      else emit (source_start false "") (record p { source = some (handler true) })
    else p)

unfoldable pub should_close : CorePath → Bool
should_close p =
    is_some p.conf.regexp
    && (not (is_some p.source)
        && (is_empty p.readers
            && (is_empty p.describe_requests_on_hold && is_empty p.reader_add_requests_on_hold)))

-- A timer that fires is no longer armed.
abbrev pub fired_ready : OnDemand → OnDemand
fired_ready d = record { state = d.state; ready_timer = none; close_timer = d.close_timer }

abbrev pub fired_close : OnDemand → OnDemand
fired_close d = record { state = d.state; ready_timer = d.ready_timer; close_timer = none }

-- A case of the `select`, and whether `shouldClose` is asked behind it.
unfoldable pub handle : Event → CorePath → Option CorePath
handle static_ready_fires p =
    do_on_demand_static_source_ready_timer
      (record p { static_source = fired_ready p.static_source })
handle static_close_fires p =
    do_on_demand_static_source_close_timer
      (record p { static_source = fired_close p.static_source })
handle publisher_ready_fires p =
    do_on_demand_publisher_ready_timer
      (record p { demand_publisher = fired_ready p.demand_publisher })
handle publisher_close_fires p =
    do_on_demand_publisher_close_timer
      (record p { demand_publisher = fired_close p.demand_publisher })
handle (reload_conf c) p = do_reload_conf c p
handle (static_set_ready req) p = do_source_static_set_ready req p
handle (static_set_not_ready id) p = do_source_static_set_not_ready id p
handle (describe req) p = do_describe req p
handle (add_publisher req) p = do_add_publisher req p
handle (remove_publisher id author) p = do_remove_publisher id author p
handle (add_reader req) p = do_add_reader req p
handle (remove_reader id author) p = some (do_remove_reader id author p)
handle terminate p = some p

unfoldable pub ends : Event → CorePath → Bool
unfolding should_close
ends static_ready_fires p = should_close p
ends static_close_fires p = should_close p
ends publisher_ready_fires p = should_close p
ends publisher_close_fires p = false
ends (reload_conf c) p = false
ends (static_set_ready req) p = false
ends (static_set_not_ready id) p = should_close p
ends (describe req) p = should_close p
ends (add_publisher req) p = false
ends (remove_publisher id author) p = should_close p
ends (add_reader req) p = should_close p
ends (remove_reader id author) p = false
ends terminate p = true

-- The source is closed: a handler that was started, or a publisher.
unfoldable pub close_source : Option Source → CorePath → Option CorePath
close_source none p = some p
close_source (some redirect) p = some p
close_source (some (handler running)) p =
    if not p.conf.source_on_demand || not (is_initial p.static_source.state)
    then stop_handler "path is closing" p
    else some p
close_source (some (publisher a)) p = some (emit (publisher_close a) p)

abbrev pub stopped_timers : OnDemand → OnDemand
stopped_timers d = record { state = d.state; ready_timer = none; close_timer = none }

-- What `run` does behind the loop, up to the requests on hold, which stay in the lists.
unfoldable pub refuse_held : CorePath → CorePath
refuse_held p =
    let q : CorePath = emit hook_un_init (
      emit close_path (record p {
        done = true;
        static_source = stopped_timers p.static_source;
        demand_publisher = stopped_timers p.demand_publisher;
      })) in
    add_reader_err_each terminated q.reader_add_requests_on_hold
      (describe_each (describe_err terminated) q.describe_requests_on_hold q)

unfoldable pub close_down : CorePath → Option CorePath
unfolding refuse_held close_source
close_down p = do
  let p₁ : CorePath = refuse_held p
  p₂ ← (if is_some p₁.stream then set_not_ready p₁ else some p₁)
  p₃ ← close_source p₂.source p₂
  some (if p₃.on_un_demand_hook then emit (hook_un_demand "path destroyed") p₃ else p₃)

-- The other side of the channels once the path's context is done.
unfoldable pub refuse : Event → CorePath → CorePath
refuse (static_set_ready req) p = emit (set_ready_res req.id (add_err terminated)) p
refuse (static_set_not_ready id) p = emit (closed_res id) p
refuse (describe req) p = emit (describe_res req.id (describe_err terminated)) p
refuse (add_publisher req) p = emit (add_publisher_res req.id (add_err terminated)) p
refuse (add_reader req) p = emit (add_reader_res req.id (add_err terminated)) p
refuse _ p = p

unfoldable pub step_open : Event → CorePath → Option CorePath
step_open e p = do q ← handle e p; if ends e q then close_down q else some q

unfoldable pub step : Event → CorePath → Option CorePath
step e p = if p.done then some (refuse e p) else step_open e p

unfoldable pub run : List Event → CorePath → Option CorePath
run [] p = some p
run (e ∷ es) p = step e p >>= run es
