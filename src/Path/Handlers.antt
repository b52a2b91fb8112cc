-- ===== src/Path/Handlers.antt =====
-- internal/core/path.go: one function per request, timer and configuration change.
use plux_mtx.Base.{
  ℕ, String, Bool, false, ◌&&◌, ◌||◌, not, Option, some, none, [], ◌∷◌, ◌++◌, ◌==◌, ◌==s◌, contains,
  delete, is_empty, ◌>>=◌, if◌then◌else◌, is_some,
}
use plux_mtx.Conf.PathConf.{
  PathConf, bool_eq, format_eq, has_static_source, has_on_demand_static_source,
  has_on_demand_publisher,
}
use plux_mtx.Path.State.{
  CorePath, Source, DescribeReq, AddReaderReq, AddPublisherReq, SetReadyReq, publisher, redirect,
  handler, emit, as_publisher, is_redirect, is_initial, is_ready, describe_res, describe_err,
  describe_stream, describe_redirect, add_reader_res, add_publisher_res, set_ready_res, add_err,
  closed_res, publisher_close, timed_out, no_stream_available, not_publisher, already_publishing,
}
use plux_mtx.Path.OnDemand.{
  reload_handler, on_demand_static_source_start, on_demand_static_source_schedule_close,
  on_demand_static_source_stop, on_demand_publisher_start, on_demand_publisher_schedule_close,
  on_demand_publisher_stop,
}
use plux_mtx.Path.Ready.{
  start_recording, set_ready, close_recorder, set_not_ready, execute_remove_publisher, stream_res,
  add_reader_post, describe_each, add_reader_err_each, consume_on_hold_requests,
}

-- The two loops of a ready timer: every held request is told that the source has timed out.
unfoldable pub time_out_requests : CorePath → CorePath
time_out_requests p =
    let q : CorePath = describe_each (describe_err timed_out) p.describe_requests_on_hold p in
    let r : CorePath = record q { describe_requests_on_hold = [] } in
    let s : CorePath = add_reader_err_each timed_out r.reader_add_requests_on_hold r in
    record s { reader_add_requests_on_hold = [] }

unfoldable pub do_on_demand_static_source_ready_timer : CorePath → Option CorePath
do_on_demand_static_source_ready_timer p =
    on_demand_static_source_stop "timed out" (time_out_requests p)

unfoldable pub do_on_demand_static_source_close_timer : CorePath → Option CorePath
do_on_demand_static_source_close_timer p = do
  q ← set_not_ready p
  on_demand_static_source_stop "not needed by anyone" q

unfoldable pub do_on_demand_publisher_ready_timer : CorePath → Option CorePath
do_on_demand_publisher_ready_timer p = on_demand_publisher_stop "timed out" (time_out_requests p)

unfoldable pub do_on_demand_publisher_close_timer : CorePath → Option CorePath
do_on_demand_publisher_close_timer p = on_demand_publisher_stop "not needed by anyone" p

-- The test of `doReloadConf` on the fields that a recorder was started with.
unfoldable pub record_conf_changed : PathConf → PathConf → Bool
record_conf_changed new old =
    not (bool_eq new.records old.records)
    || (not (new.record_path ==s old.record_path)
        || (not (format_eq new.record_format old.record_format)
            || (not (new.record_part_duration == old.record_part_duration)
                || (not (new.record_max_part_size == old.record_max_part_size)
                    || (not (new.record_segment_duration == old.record_segment_duration)
                        || not (new.record_delete_after == old.record_delete_after))))))

unfoldable pub do_reload_conf : PathConf → CorePath → Option CorePath
do_reload_conf new p = do
  let p₁ : CorePath = record p { conf = new }
  p₂ ← (if has_static_source new then reload_handler new p₁ else some p₁)
  let p₃ : CorePath =
      if is_some p₂.recorder && record_conf_changed new p.conf then close_recorder p₂ else p₂
  some (
      if new.records && is_some p₃.stream && not (is_some p₃.recorder)
      then start_recording p₃
      else p₃)

-- The ready timer is stopped, and the close timer started.
unfoldable pub static_source_is_ready : CorePath → CorePath
unfolding on_demand_static_source_schedule_close
static_source_is_ready p =
    if has_on_demand_static_source p.conf
    then on_demand_static_source_schedule_close (record p {
      static_source = record {
        state = p.static_source.state;
        ready_timer = none;
        close_timer = p.static_source.close_timer;
      };
    })
    else p

unfoldable pub do_source_static_set_ready : SetReadyReq → CorePath → Option CorePath
unfolding static_source_is_ready
do_source_static_set_ready req p = do
  (p₁, err) ← set_ready req.desc req.generate_rtp_packets req.fill_ntp req.now p
  elim err [
    | some e ↦ some (emit (set_ready_res req.id (add_err e)) p₁)
    | none ↦
        let p₂ : CorePath = consume_on_hold_requests (static_source_is_ready p₁) in
        some (emit (set_ready_res req.id (stream_res p₂.stream)) p₂)
  ]

unfoldable pub do_source_static_set_not_ready : ℕ → CorePath → Option CorePath
do_source_static_set_not_ready id p = do
  p₁ ← set_not_ready p
  let p₂ : CorePath = emit (closed_res id) p₁
  if has_on_demand_static_source p₂.conf && not (is_initial p₂.static_source.state)
      then on_demand_static_source_stop "an error occurred" p₂
      else some p₂

-- The two branches of `doDescribe` and `doAddReader` that start what is on demand.
unfoldable pub ensure_static_source : String → CorePath → Option CorePath
ensure_static_source query p =
    if is_initial p.static_source.state then on_demand_static_source_start query p else some p

unfoldable pub ensure_publisher : String → CorePath → CorePath
ensure_publisher query p =
    if is_initial p.demand_publisher.state then on_demand_publisher_start query p else p

abbrev pub hold_describe : DescribeReq → CorePath → CorePath
hold_describe req p = record p {
  describe_requests_on_hold = p.describe_requests_on_hold ++ (req ∷ []);
}

abbrev pub hold_reader : AddReaderReq → CorePath → CorePath
hold_reader req p = record p {
  reader_add_requests_on_hold = p.reader_add_requests_on_hold ++ (req ∷ []);
}

-- `doDescribe` behind its check of the stream.
unfoldable pub describe_not_ready : DescribeReq → CorePath → Option CorePath
unfolding ensure_static_source ensure_publisher
describe_not_ready req p =
    if has_on_demand_static_source p.conf
    then ensure_static_source req.query p >>= (λ q. some (hold_describe req q))
    else if has_on_demand_publisher p.conf
    then some (hold_describe req (ensure_publisher req.query p))
    else if not (p.conf.fallback ==s "")
    then some (emit (describe_res req.id (describe_redirect p.conf.fallback)) p)
    else some (emit (describe_res req.id (describe_err no_stream_available)) p)

unfoldable pub do_describe : DescribeReq → CorePath → Option CorePath
unfolding describe_not_ready
do_describe req p =
    if is_redirect p.source
    then some (emit (describe_res req.id (describe_redirect p.conf.source_redirect)) p)
    else elim p.stream [
      | some s ↦ some (emit (describe_res req.id (describe_stream s)) p)
      | none ↦ describe_not_ready req p
    ]

-- `pa.source == req.Author`.
abbrev pub source_is : Option Source → ℕ → Bool
source_is none a = false
source_is (some redirect) a = false
source_is (some (handler running)) a = false
source_is (some (publisher b)) a = b == a

unfoldable pub do_remove_publisher : ℕ → ℕ → CorePath → Option CorePath
do_remove_publisher id author p = do
  q ← (if source_is p.source author then execute_remove_publisher p else some p)
  some (emit (closed_res id) q)

-- The ready timer is stopped, and the close timer started, unless the publisher came uncalled.
unfoldable pub publisher_is_ready : CorePath → CorePath
unfolding on_demand_publisher_schedule_close
publisher_is_ready p =
    if has_on_demand_publisher p.conf && not (is_initial p.demand_publisher.state)
    then on_demand_publisher_schedule_close (record p {
      demand_publisher = record {
        state = p.demand_publisher.state;
        ready_timer = none;
        close_timer = p.demand_publisher.close_timer;
      };
    })
    else p

-- `doAddPublisher` behind the check for an existing publisher.
unfoldable pub publish : AddPublisherReq → CorePath → Option CorePath
unfolding publisher_is_ready
publish req p = do
  let p₁ : CorePath = record p { source = some (publisher req.author); publisher_query = req.query }
  (p₂, err) ← set_ready req.desc req.generate_rtp_packets req.fill_ntp req.now p₁
  elim err [
    | some e ↦ some (emit (add_publisher_res req.id (add_err e)) (record p₂ { source = none }))
    | none ↦
        let p₃ : CorePath = consume_on_hold_requests (publisher_is_ready p₂) in
        some (emit (add_publisher_res req.id (stream_res p₃.stream)) p₃)
  ]

-- `pa.source.(defs.Publisher).Close()` and the removal of the existing publisher.
unfoldable pub replace_publisher : CorePath → Option CorePath
replace_publisher p = do
  old ← as_publisher p.source
  execute_remove_publisher (emit (publisher_close old) p)

unfoldable pub do_add_publisher : AddPublisherReq → CorePath → Option CorePath
do_add_publisher req p =
    if not (p.conf.source ==s "publisher")
    then some (emit (add_publisher_res req.id (add_err not_publisher)) p)
    else if is_some p.source
    then if p.conf.override_publisher
      then replace_publisher p >>= publish req
      else some (emit (add_publisher_res req.id (add_err already_publishing)) p)
    else publish req p

-- `doAddReader` behind its check of the stream.
unfoldable pub reader_not_ready : AddReaderReq → CorePath → Option CorePath
unfolding ensure_static_source ensure_publisher
reader_not_ready req p =
    if has_on_demand_static_source p.conf
    then ensure_static_source req.query p >>= (λ q. some (hold_reader req q))
    else if has_on_demand_publisher p.conf
    then some (hold_reader req (ensure_publisher req.query p))
    else some (emit (add_reader_res req.id (add_err no_stream_available)) p)

unfoldable pub do_add_reader : AddReaderReq → CorePath → Option CorePath
unfolding reader_not_ready
do_add_reader req p =
    if is_some p.stream then some (add_reader_post req p) else reader_not_ready req p

-- What `doRemoveReader` does when no reader is left.
unfoldable pub no_readers_left : CorePath → CorePath
unfolding on_demand_static_source_schedule_close on_demand_publisher_schedule_close
no_readers_left p =
    if has_on_demand_static_source p.conf
    then if is_ready p.static_source.state then on_demand_static_source_schedule_close p else p
    else if has_on_demand_publisher p.conf
    then if is_ready p.demand_publisher.state then on_demand_publisher_schedule_close p else p
    else p

unfoldable pub do_remove_reader : ℕ → ℕ → CorePath → CorePath
unfolding no_readers_left
do_remove_reader id author p =
    let q : CorePath =
      if contains author p.readers then record p { readers = delete author p.readers } else p in
    let r : CorePath = emit (closed_res id) q in if is_empty r.readers then no_readers_left r else r
