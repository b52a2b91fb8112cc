-- ===== src/Path/State.antt =====
-- internal/core/path.go: the state of a path, its requests, and what it sends to others.
-- A client, a source or a request is a number. `none` of an `Option CorePath` is a panic.
use plux_mtx.Base.{ℕ, String, Bool, true, false, Option, some, none, List, ◌∷◌}
use plux_mtx.Conf.PathConf.{PathConf, RecordFormat}

pub data OnDemandState : Type 0 where
  initial waiting_ready ready closing : OnDemandState

-- One of the two groups of on-demand fields; a timer is armed with its duration, or is none.
pub record OnDemand : Type 0 where
  pub state : OnDemandState
  pub ready_timer : Option ℕ
  pub close_timer : Option ℕ

-- The implementations of `defs.Source` that a path holds. A handler is running or is not.
pub data Source : Type 0 where
  redirect : Source
  handler : Bool → Source
  publisher : ℕ → Source

-- A session description, and whether `stream.Stream.Initialize` accepts its formats.
pub record Desc : Type 0 where
  pub id : ℕ
  pub initializes : Bool

pub record Stream : Type 0 where
  pub desc : Desc
  pub generate_rtp_packets : Bool
  pub fill_ntp : Bool

pub record Recorder : Type 0 where
  pub path_format : String
  pub format : RecordFormat
  pub part_duration : ℕ
  pub max_part_size : ℕ
  pub segment_duration : ℕ

pub data Err : Type 0 where
  terminated timed_out no_stream_available not_publisher already_publishing : Err
  maximum_readers stream_failed : Err

pub data DescribeRes : Type 0 where
  describe_stream : Stream → DescribeRes
  describe_nil : DescribeRes  -- no field set
  describe_redirect : String → DescribeRes
  describe_err : Err → DescribeRes

pub data AddRes : Type 0 where
  add_stream : Stream → AddRes
  add_nil : AddRes  -- a nil stream and no error
  add_err : Err → AddRes

pub record DescribeReq : Type 0 where
  pub id : ℕ
  pub query : String

pub record AddReaderReq : Type 0 where
  pub id : ℕ
  pub author : ℕ
  pub query : String

pub record AddPublisherReq : Type 0 where
  pub id : ℕ
  pub author : ℕ
  pub desc : Desc
  pub generate_rtp_packets : Bool
  pub fill_ntp : Bool
  pub query : String
  pub now : ℕ  -- time.Now() inside setReady

pub record SetReadyReq : Type 0 where
  pub id : ℕ
  pub desc : Desc
  pub generate_rtp_packets : Bool
  pub fill_ntp : Bool
  pub now : ℕ

-- What a path sends on a channel, or calls on another component.
pub data Effect : Type 0 where
  describe_res : ℕ → DescribeRes → Effect
  add_reader_res : ℕ → AddRes → Effect
  add_publisher_res : ℕ → AddRes → Effect
  set_ready_res : ℕ → AddRes → Effect
  closed_res : ℕ → Effect  -- close(req.Res)
  source_start : Bool → String → Effect
  source_stop : String → Effect
  source_reload : PathConf → Effect
  publisher_close reader_close : ℕ → Effect
  path_ready path_not_ready close_path : Effect
  hook_init hook_un_init hook_not_ready : Effect
  hook_ready hook_demand hook_un_demand : String → Effect
  recorder_start : Recorder → Effect
  recorder_close stream_close : Effect

pub record CorePath : Type 0 where
  pub conf : PathConf
  pub name : String
  pub source : Option Source
  pub publisher_query : String
  pub stream : Option Stream
  pub recorder : Option Recorder
  pub ready_time : ℕ
  pub on_un_demand_hook : Bool  -- whether the function is not nil
  pub on_not_ready_hook : Bool
  pub readers : List ℕ
  pub describe_requests_on_hold : List DescribeReq
  pub reader_add_requests_on_hold : List AddReaderReq
  pub static_source : OnDemand
  pub demand_publisher : OnDemand
  pub done : Bool  -- ctx.Done
  pub out : List Effect  -- newest first

abbrev pub emit : Effect → CorePath → CorePath
emit e p = record p { out = e ∷ p.out }

-- The type assertion `pa.source.(*staticsources.Handler)`: whether that handler runs.
abbrev pub as_handler : Option Source → Option Bool
as_handler none = none
as_handler (some redirect) = none
as_handler (some (handler running)) = some running
as_handler (some (publisher a)) = none

-- The type assertion `pa.source.(defs.Publisher)`.
abbrev pub as_publisher : Option Source → Option ℕ
as_publisher none = none
as_publisher (some redirect) = none
as_publisher (some (handler running)) = none
as_publisher (some (publisher a)) = some a

abbrev pub is_redirect : Option Source → Bool
is_redirect none = false
is_redirect (some redirect) = true
is_redirect (some (handler running)) = false
is_redirect (some (publisher a)) = false

abbrev pub is_initial : OnDemandState → Bool
is_initial initial = true
is_initial waiting_ready = false
is_initial ready = false
is_initial closing = false

abbrev pub is_waiting : OnDemandState → Bool
is_waiting initial = false
is_waiting waiting_ready = true
is_waiting ready = false
is_waiting closing = false

abbrev pub is_ready : OnDemandState → Bool
is_ready initial = false
is_ready waiting_ready = false
is_ready ready = true
is_ready closing = false

abbrev pub is_closing : OnDemandState → Bool
is_closing initial = false
is_closing waiting_ready = false
is_closing ready = false
is_closing closing = true

abbrev pub idle : OnDemand
idle = record { state = initial; ready_timer = none; close_timer = none }
