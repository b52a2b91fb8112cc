-- ===== src/Path/Ready.antt =====
-- internal/core/path.go: making the path ready and not ready, recording, and letting readers in.
use plux_mtx.Base.{
  ℕ, zero, suc, Bool, true, false, Option, some, none, List, [], ◌∷◌, length, leb, contains, delete,
  ◌>>=◌, if◌then◌else◌, is_some,
}
use plux_mtx.Base.Int.{ℤ, pos, negsuc}
use plux_mtx.Conf.PathConf.{PathConf, has_on_demand_static_source, has_on_demand_publisher}
use plux_mtx.Path.State.{
  CorePath, Source, Desc, Stream, Recorder, DescribeReq, DescribeRes, AddReaderReq, AddRes, Err,
  OnDemand, emit, is_closing, ready, add_stream, add_nil, add_err, add_reader_res, describe_res,
  describe_stream, describe_nil, maximum_readers, stream_failed, path_ready, path_not_ready,
  reader_close, hook_ready, hook_not_ready, recorder_start, recorder_close, stream_close,
}

unfoldable pub recorder_of : PathConf → Recorder
recorder_of c = record {
  path_format = c.record_path;
  format = c.record_format;
  part_duration = c.record_part_duration;
  max_part_size = c.record_max_part_size;
  segment_duration = c.record_segment_duration;
}

unfoldable pub start_recording : CorePath → CorePath
unfolding recorder_of
start_recording p =
    emit (recorder_start (recorder_of p.conf)) (record p { recorder = some (recorder_of p.conf) })

-- The part of `setReady` behind the check of the error. `pa.source.APISourceDescribe()` panics on
-- a nil source.
unfoldable pub set_ready_hook : Option Source → CorePath → Option CorePath
set_ready_hook none p = none
set_ready_hook (some s) p =
    some (
      emit path_ready (emit (hook_ready p.publisher_query) (record p { on_not_ready_hook = true })))

-- The stream is stored before it is initialized, and stays when that fails.
unfoldable pub set_ready : Desc → Bool → Bool → ℕ → CorePath → Option (CorePath × Option Err)
unfolding start_recording set_ready_hook
set_ready desc generate fill now p =
    let s : Stream = record { desc = desc; generate_rtp_packets = generate; fill_ntp = fill } in
    let p₁ : CorePath = record p { stream = some s } in
    let p₂ : CorePath = record p { stream = some s; ready_time = now } in
    let p₃ : CorePath = if p₂.conf.records then start_recording p₂ else p₂ in
    if desc.initializes
    then set_ready_hook p₃.source p₃ >>= (λ q. some (q, none))
    else some (p₁, some stream_failed)

-- `for r := range pa.readers { executeRemoveReader(r); r.Close() }`, over the readers given.
unfoldable pub close_readers : List ℕ → CorePath → CorePath
close_readers [] p = p
close_readers (r ∷ rs) p =
    close_readers rs (emit (reader_close r) (record p { readers = delete r p.readers }))

unfoldable pub close_recorder : CorePath → CorePath
close_recorder p =
    if is_some p.recorder then emit recorder_close (record p { recorder = none }) else p

unfoldable pub close_stream : CorePath → CorePath
close_stream p = if is_some p.stream then emit stream_close (record p { stream = none }) else p

-- Calling a nil `onNotReadyHook` panics.
unfoldable pub set_not_ready : CorePath → Option CorePath
unfolding close_recorder close_stream
set_not_ready p =
    let q : CorePath = close_readers p.readers (emit path_not_ready p) in
    if q.on_not_ready_hook
    then some (close_stream (close_recorder (emit hook_not_ready q)))
    else none

unfoldable pub execute_remove_publisher : CorePath → Option CorePath
execute_remove_publisher p =
    (if is_some p.stream then set_not_ready p else some p)
    >>= (λ q. some (record q { source = none }))

-- The response with `Stream: pa.stream`.
abbrev pub stream_res : Option Stream → AddRes
stream_res none = add_nil
stream_res (some s) = add_stream s

-- `conf.MaxReaders != 0 && len(pa.readers) >= conf.MaxReaders`.
unfoldable pub readers_full : ℤ → ℕ → Bool
readers_full (pos zero) n = false
readers_full (pos (suc m)) n = leb (suc m) n
readers_full (negsuc m) n = true

-- A reader stops the pending close.
unfoldable pub keep_open : OnDemand → OnDemand
keep_open d =
    if is_closing d.state
    then record { state = ready; ready_timer = d.ready_timer; close_timer = none }
    else d

unfoldable pub add_reader_post : AddReaderReq → CorePath → CorePath
unfolding readers_full keep_open
add_reader_post req p =
    let q : CorePath = record p { readers = req.author ∷ p.readers } in
    let r : CorePath =
      if has_on_demand_static_source q.conf
      then record q { static_source = keep_open q.static_source }
      else if has_on_demand_publisher q.conf
      then record q { demand_publisher = keep_open q.demand_publisher }
      else q in
    if contains req.author p.readers
    then emit (add_reader_res req.id (stream_res p.stream)) p
    else if readers_full p.conf.max_readers (length p.readers)
    then emit (add_reader_res req.id (add_err maximum_readers)) p
    else emit (add_reader_res req.id (stream_res r.stream)) r

-- The response with `Stream: pa.stream`.
abbrev pub describe_stream_res : Option Stream → DescribeRes
describe_stream_res none = describe_nil
describe_stream_res (some s) = describe_stream s

unfoldable pub describe_each : DescribeRes → List DescribeReq → CorePath → CorePath
describe_each res [] p = p
describe_each res (r ∷ rs) p = describe_each res rs (emit (describe_res r.id res) p)

unfoldable pub add_reader_err_each : Err → List AddReaderReq → CorePath → CorePath
add_reader_err_each e [] p = p
add_reader_err_each e (r ∷ rs) p =
    add_reader_err_each e rs (emit (add_reader_res r.id (add_err e)) p)

unfoldable pub add_reader_post_each : List AddReaderReq → CorePath → CorePath
add_reader_post_each [] p = p
add_reader_post_each (r ∷ rs) p = add_reader_post_each rs (add_reader_post r p)

unfoldable pub consume_on_hold_requests : CorePath → CorePath
consume_on_hold_requests p =
    let q : CorePath = describe_each (describe_stream_res p.stream) p.describe_requests_on_hold p in
    let r : CorePath = record q { describe_requests_on_hold = [] } in
    let s : CorePath = add_reader_post_each r.reader_add_requests_on_hold r in
    record s { reader_add_requests_on_hold = [] }
