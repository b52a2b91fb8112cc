-- ===== src/Tests/Sources.antt =====
-- A source that fails once, and sources with variables.
use plux_mtx.Base.{◌≡◌, refl, some, false, List, [], ◌∷◌, codes}
use plux_mtx.StaticSource.Loop.{
  resolve_source, start_loop, recreate, loop_step, loop_run, looping, LoopEvent, run_err,
  offer_received, RunningSource, recreate_timer_fired, reload_conf, terminated,
}
use plux_mtx.StaticSource.Running.{
  IsRunning, OccurAll, loop_run-start_loop-IsRunning, reload_conf-reordered,
}
use plux_mtx.Tests.Data.{camera, commanded, open_conf}

-- The first group of the name, and the query.
with_variables :
    resolve_source (codes "rtsp://$G1/?$MTX_QUERY") ("cam1" ∷ "1" ∷ []) "a=b"
    ≡ codes "rtsp://1/?a=b"
unfolding resolve_source
with_variables = refl

abbrev failing : List LoopEvent
failing = run_err ∷ reload_conf commanded ∷ recreate_timer_fired ∷ terminated ∷ []

failing-OccurAll : OccurAll failing (looping (start_loop camera [] ""))
unfolding start_loop recreate loop_step
failing-OccurAll = ((λ e. cc), (tt, ((λ e. cc), (tt, tt))))

loop_run-start_loop-IsRunning_example :
    IsRunning (loop_run failing (looping (start_loop camera [] "")))
loop_run-start_loop-IsRunning_example =
    loop_run-start_loop-IsRunning camera [] "" failing failing-OccurAll

abbrev camera_run : RunningSource
camera_run = record {
  resolved_source = resolve_source (codes camera.source) [] "";
  conf = camera;
  received = [];
}

camera_runs : (start_loop camera [] "").instance_run ≡ some camera_run
unfolding start_loop recreate
camera_runs = refl

start_loop_recreating : (start_loop camera [] "").recreating ≡ false
unfolding start_loop recreate
start_loop_recreating = refl

reload_conf-reordered_example :
    loop_run
      (reload_conf commanded ∷ reload_conf open_conf ∷ offer_received 0 ∷ offer_received 0 ∷ [])
      (looping (start_loop camera [] ""))
    ≡ looping (record (start_loop camera [] "") {
      conf = open_conf;
      instance_run = some (record camera_run { received = commanded ∷ open_conf ∷ [] });
    })
reload_conf-reordered_example =
    reload_conf-reordered commanded open_conf (start_loop camera [] "") camera_run camera_runs
      start_loop_recreating
