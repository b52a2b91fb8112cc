-- ===== src/Path/OnDemand.antt =====
-- internal/core/path.go: starting, scheduling the close of, and stopping what runs on demand, and
-- the calls of staticsources.Handler (Start, Stop, Close, ReloadConf), which panic when misused.
use plux_mtx.Base.{String, Bool, true, false, Option, some, none, ◌>>=◌, if◌then◌else◌}
use plux_mtx.Conf.PathConf.{PathConf}
use plux_mtx.Path.State.{
  CorePath, OnDemand, waiting_ready, closing, initial, handler, emit, as_handler, is_closing,
  source_start, source_stop, source_reload, hook_demand, hook_un_demand,
}

-- Handler.Start panics if the handler runs.
unfoldable pub start_handler : Bool → String → CorePath → Option CorePath
start_handler on_demand query p = do
  running ← as_handler p.source
  if running
      then none
      else some (emit (source_start on_demand query) (record p { source = some (handler true) }))

-- Handler.Stop panics if the handler does not run.
unfoldable pub stop_handler : String → CorePath → Option CorePath
stop_handler reason p = do
  running ← as_handler p.source
  if running
      then some (emit (source_stop reason) (record p { source = some (handler false) }))
      else none

-- Handler.ReloadConf does nothing if the handler does not run.
unfoldable pub reload_handler : PathConf → CorePath → Option CorePath
reload_handler c p = do
  running ← as_handler p.source
  some (if running then emit (source_reload c) p else p)

unfoldable pub on_demand_static_source_start : String → CorePath → Option CorePath
unfolding start_handler
on_demand_static_source_start query p = do
  q ← start_handler true query p
  some (record q {
    static_source = record {
      state = waiting_ready;
      ready_timer = some q.conf.source_on_demand_start_timeout;
      close_timer = q.static_source.close_timer;
    };
  })

unfoldable pub on_demand_static_source_schedule_close : CorePath → CorePath
on_demand_static_source_schedule_close p = record p {
  static_source = record {
    state = closing;
    ready_timer = p.static_source.ready_timer;
    close_timer = some p.conf.source_on_demand_close_after;
  };
}

-- The close timer is stopped if it was running; the ready timer is left as it is.
unfoldable pub stopped : OnDemand → OnDemand
stopped d = record {
  state = initial;
  ready_timer = d.ready_timer;
  close_timer = if is_closing d.state then none else d.close_timer;
}

unfoldable pub on_demand_static_source_stop : String → CorePath → Option CorePath
unfolding stop_handler stopped
on_demand_static_source_stop reason p =
    stop_handler reason (record p { static_source = stopped p.static_source })

unfoldable pub on_demand_publisher_start : String → CorePath → CorePath
on_demand_publisher_start query p = emit (hook_demand query) (record p {
  on_un_demand_hook = true;
  demand_publisher = record {
    state = waiting_ready;
    ready_timer = some p.conf.run_on_demand_start_timeout;
    close_timer = p.demand_publisher.close_timer;
  };
})

unfoldable pub on_demand_publisher_schedule_close : CorePath → CorePath
on_demand_publisher_schedule_close p = record p {
  demand_publisher = record {
    state = closing;
    ready_timer = p.demand_publisher.ready_timer;
    close_timer = some p.conf.run_on_demand_close_after;
  };
}

-- Calling a nil `onUnDemandHook` panics.
unfoldable pub on_demand_publisher_stop : String → CorePath → Option CorePath
unfolding stopped
on_demand_publisher_stop reason p =
    if p.on_un_demand_hook
    then some (
        emit (hook_un_demand reason)
          (record p { on_un_demand_hook = false; demand_publisher = stopped p.demand_publisher }))
    else none
