-- ===== src/Tests/Paths.antt =====
-- A path with a camera as its source on demand, and one whose publisher is started by a command.
use plux_mtx.Base.{
  true, false, ◌≡◌, ◌++◌, refl, inl, inr, none, List, [], ◌∷◌, is_some, Ensures, ◌>>=◌,
}
use plux_mtx.Conf.PathConf.{has_on_demand_static_source, has_on_demand_publisher, has_static_source}
use plux_mtx.Path.State.{
  CorePath, is_initial, is_closing, add_publisher_res, add_reader_res, add_err, stream_failed,
}
use plux_mtx.Path.OnDemand.{
  start_handler, on_demand_static_source_start, on_demand_publisher_start,
  on_demand_publisher_schedule_close,
}
use plux_mtx.Path.Ready.{
  set_ready, set_ready_hook, start_recording, recorder_of, consume_on_hold_requests, describe_each,
  add_reader_post_each, set_not_ready, close_readers, close_recorder, close_stream,
  execute_remove_publisher, readers_full, stream_res,
}
use plux_mtx.Path.Handlers.{
  do_describe, do_add_reader, describe_not_ready, ensure_static_source, ensure_publisher,
  do_add_publisher, publish, publisher_is_ready, do_remove_publisher,
}
use plux_mtx.Path.Run.{
  Event, initialize, start, run, step, step_open, handle, ends, should_close, close_down, describe,
  add_reader, add_publisher, remove_publisher, static_ready_fires, publisher_close_fires, terminate,
}
use plux_mtx.Path.Invariant.{Inv, is_running}
use plux_mtx.Path.Invariant.Steps.{IsClosed, close_down-IsClosed}
use plux_mtx.Path.Invariant.Runs.{IsSound, run-start-IsSound}
use plux_mtx.Path.Ledger.{describe_account, reader_account}
use plux_mtx.Path.Accounts.Rounds.{describes_asked, readers_asked}
use plux_mtx.Path.Accounts.Totals.{run-account, total}
use plux_mtx.Path.Behaviour.{
  held_times_out, failed_publish-is_ready, failed_publish-close_down, closing-describe_stuck,
}
use plux_mtx.Tests.Data.{
  camera, commanded, ask, join, publisher_of, result, Ensures-result, Ensures-some,
}

abbrev cam_path : CorePath
cam_path = start (initialize camera "cam")

abbrev live_path : CorePath
live_path = start (initialize commanded "live")

open-Inv : (p : CorePath) → p.done ≡ false → IsSound p → Inv p
open-Inv p h (inl v) = v
open-Inv p h (inr c) = cc (c.ended)

cam_path-IsSound : IsSound cam_path
unfolding run has_on_demand_publisher
cam_path-IsSound = run-start-IsSound camera "cam" [] (λ h. cc) tt

cam_path-Inv : Inv cam_path
unfolding initialize start has_static_source
cam_path-Inv = open-Inv cam_path refl cam_path-IsSound

abbrev visit : List Event
visit = describe ask ∷ add_reader join ∷ terminate ∷ []

run-start-IsSound_example : Ensures IsSound (run visit (start (initialize camera "cam")))
unfolding has_on_demand_publisher
run-start-IsSound_example =
    run-start-IsSound camera "cam" visit (λ h. cc)
      (λ h. tt, λ p e. (λ h. tt, λ q f. (λ h. tt, λ r g. tt)))

abbrev visited : CorePath
visited = result cam_path (run visit (start (initialize camera "cam")))

run-account_example :
    (describe_account 1 visited ≡ total (describes_asked 1) visit)
    × (reader_account 1 visited ≡ total (readers_asked 1) visit)
run-account_example = run-account 1 visit camera "cam" visited (
    Ensures-some IsSound cam_path (run visit (start (initialize camera "cam")))
      run-start-IsSound_example)

close_down-IsClosed_example : Ensures IsClosed (close_down cam_path)
close_down-IsClosed_example = close_down-IsClosed cam_path cam_path-Inv

-- The camera's path with a describe request on hold.
abbrev asked : CorePath
asked = result cam_path (run (describe ask ∷ []) (start (initialize camera "cam")))

asked-Inv : Inv asked
unfolding run step step_open handle ends should_close do_describe describe_not_ready
    has_on_demand_publisher ensure_static_source on_demand_static_source_start start_handler
    initialize start has_static_source has_on_demand_static_source
asked-Inv = open-Inv asked refl (
    Ensures-result IsSound cam_path (run (describe ask ∷ []) (start (initialize camera "cam")))
      (run-start-IsSound camera "cam" (describe ask ∷ []) (λ h. cc) (λ h. tt, λ q e. tt)))

held_times_out_example :
    (is_some asked.static_source.ready_timer ≡ true)
    × (is_running asked.source ≡ true)
    × Ensures
        (λ q.
          (q.describe_requests_on_hold ≡ [])
          × (q.reader_add_requests_on_hold ≡ [])
          × (is_running q.source ≡ false)
          × (is_initial q.static_source.state ≡ true)
          × (is_some q.static_source.ready_timer ≡ false))
        (handle static_ready_fires asked)
unfolding run step step_open handle ends should_close do_describe describe_not_ready
    has_on_demand_publisher ensure_static_source on_demand_static_source_start start_handler
    initialize start has_static_source has_on_demand_static_source
held_times_out_example = held_times_out asked asked-Inv refl refl

failed_publish-is_ready_example :
    Ensures
      (λ q.
        (q.source ≡ none)
        × (q.readers ≡ 7 ∷ [])
        × (is_some q.stream ≡ true)
        × (q.out
            ≡ add_reader_res 2 (stream_res q.stream)
              ∷ add_publisher_res 3 (add_err stream_failed)
              ∷ live_path.out))
      (do_add_publisher (publisher_of false) live_path >>= do_add_reader join)
unfolding initialize start has_static_source readers_full
failed_publish-is_ready_example =
    failed_publish-is_ready (publisher_of false) join live_path refl refl refl refl refl

failed_publish-close_down_example :
    (do_add_publisher (publisher_of false) live_path >>= close_down) ≡ none
unfolding initialize start has_static_source
failed_publish-close_down_example =
    failed_publish-close_down (publisher_of false) live_path refl refl refl refl refl

-- The publisher that a describe request has started comes and leaves before the command is stopped.
abbrev come_and_go : List Event
come_and_go = describe ask ∷ add_publisher (publisher_of true) ∷ remove_publisher 4 8 ∷ []

abbrev left : CorePath
left = result live_path (run come_and_go (start (initialize commanded "live")))

left_lem :
    (left.done ≡ false)
    × (has_on_demand_publisher left.conf ≡ true)
    × (is_closing left.demand_publisher.state ≡ true)
    × (left.stream ≡ none)
unfolding run step step_open handle ends should_close do_describe describe_not_ready
    has_on_demand_publisher ensure_publisher on_demand_publisher_start initialize start
    has_static_source has_on_demand_static_source do_add_publisher publish publisher_is_ready
    on_demand_publisher_schedule_close set_ready set_ready_hook start_recording recorder_of
    consume_on_hold_requests describe_each add_reader_post_each do_remove_publisher
    execute_remove_publisher set_not_ready close_readers close_recorder close_stream
left_lem = (refl, refl, refl, refl)

left-Inv : Inv left
unfolding has_on_demand_publisher
left-Inv = open-Inv left left_lem.0 (
    Ensures-result IsSound live_path (run come_and_go (start (initialize commanded "live"))) (
      run-start-IsSound commanded "live" come_and_go (λ h. refl)
        (λ h. tt, λ p e. (λ h. refl, λ q f. (λ h. tt, λ r g. tt)))))

closing-describe_stuck_example :
    Ensures
      (λ q.
        (q.describe_requests_on_hold ≡ left.describe_requests_on_hold ++ (ask ∷ []))
        × (is_initial q.demand_publisher.state ≡ true)
        × (is_some q.demand_publisher.ready_timer ≡ false)
        × (is_some q.demand_publisher.close_timer ≡ false))
      (do_describe ask left >>= handle publisher_close_fires)
closing-describe_stuck_example =
    closing-describe_stuck ask left left-Inv left_lem.1 left_lem.2 left_lem.3
