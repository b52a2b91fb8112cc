-- ===== src/Path/Invariant/Timers.antt =====
-- The timers keep the invariant, when they fire while they are armed.
use plux_mtx.Base.{◌≡◌, refl, List, [], true, arith, Ensures, is_some, count}
use plux_mtx.Conf.Flags.{source_tests}
use plux_mtx.Path.State.{CorePath, Effect, describe_err, timed_out}
use plux_mtx.Path.OnDemand.{
  stop_handler, stopped, on_demand_static_source_stop, on_demand_publisher_stop,
}
use plux_mtx.Path.Handlers.{
  time_out_requests, do_on_demand_static_source_ready_timer, do_on_demand_static_source_close_timer,
  do_on_demand_publisher_ready_timer, do_on_demand_publisher_close_timer,
}
use plux_mtx.Path.Run.{
  fired_ready, fired_close, handle, static_ready_fires, static_close_fires, publisher_ready_fires,
  publisher_close_fires,
}
use plux_mtx.Path.Exact.{
  describe_out, refuse_out, describe_each_lem, add_reader_err_each_lem, set_not_ready_lem,
}
use plux_mtx.Path.Invariant.{Inv}

-- The path without the requests that it held.
abbrev pub released : CorePath → List Effect → CorePath
released p es = record p {
  describe_requests_on_hold = [];
  reader_add_requests_on_hold = [];
  out = es;
}

pub time_out_requests_lem :
    (p : CorePath)
    → time_out_requests p
      ≡ released p (
          refuse_out timed_out p.reader_add_requests_on_hold
            (describe_out (describe_err timed_out) p.describe_requests_on_hold p.out))
unfolding time_out_requests
time_out_requests_lem p =
    rw (describe_each_lem (describe_err timed_out) p.describe_requests_on_hold p)
      (rw (add_reader_err_each_lem timed_out p.reader_add_requests_on_hold) refl)

pub static_ready_fires-Inv :
    (p : CorePath)
    → is_some p.static_source.ready_timer ≡ true
    → Inv p
    → Ensures Inv (handle static_ready_fires p)
unfolding handle do_on_demand_static_source_ready_timer on_demand_static_source_stop stop_handler
    stopped
static_ready_fires-Inv p h v =
    rw (time_out_requests_lem (record p { static_source = fired_ready p.static_source }))
      (ground (arith, source_tests p.conf))

pub publisher_ready_fires-Inv :
    (p : CorePath)
    → is_some p.demand_publisher.ready_timer ≡ true
    → Inv p
    → Ensures Inv (handle publisher_ready_fires p)
unfolding handle do_on_demand_publisher_ready_timer on_demand_publisher_stop stopped
publisher_ready_fires-Inv p h v =
    rw (time_out_requests_lem (record p { demand_publisher = fired_ready p.demand_publisher }))
      (ground (arith, source_tests p.conf))

pub publisher_close_fires-Inv :
    (p : CorePath)
    → is_some p.demand_publisher.close_timer ≡ true
    → Inv p
    → Ensures Inv (handle publisher_close_fires p)
unfolding handle do_on_demand_publisher_close_timer on_demand_publisher_stop stopped
publisher_close_fires-Inv p h v = ground (arith, source_tests p.conf)

pub static_close_fires-Inv :
    (p : CorePath)
    → is_some p.static_source.close_timer ≡ true
    → Inv p
    → Ensures Inv (handle static_close_fires p)
unfolding handle do_on_demand_static_source_close_timer on_demand_static_source_stop stop_handler
    stopped count
static_close_fires-Inv p h v =
    rw
      (set_not_ready_lem (record p { static_source = fired_close p.static_source })
        (ground (arith, source_tests p.conf)))
      (ground (arith, source_tests p.conf))
