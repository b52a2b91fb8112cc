-- ===== src/Path/Invariant/Sources.antt =====
-- Sources and publishers that become ready and not ready keep the invariant.
use plux_mtx.Base.{
  ℕ, ◌≡◌, refl, Bool, true, false, Option, some, none, List, [], ◌∷◌, arith, Ensures, Ensures-bind,
  is_some, count, inl, inr, Bool-cases, if◌then◌else◌, ap, sym, ◌∙◌,
}
use plux_mtx.Conf.Flags.{source_tests}
use plux_mtx.Path.State.{
  CorePath, recorder_start, Desc, Source, Effect, SetReadyReq, AddReaderReq, path_ready, hook_ready,
  redirect, handler, publisher,
}
use plux_mtx.Path.OnDemand.{stop_handler, stopped, on_demand_static_source_stop}
use plux_mtx.Path.Ready.{
  recorder_of, set_ready, set_ready_hook, start_recording, execute_remove_publisher,
  add_reader_post_each, add_reader_post, consume_on_hold_requests, describe_stream_res,
}
use plux_mtx.Path.Handlers.{
  static_source_is_ready, do_source_static_set_ready, do_source_static_set_not_ready,
  do_remove_publisher, source_is,
}
use plux_mtx.Path.Exact.{cleared, not_ready_out, set_not_ready_lem, describe_out, describe_each_lem}
use plux_mtx.Path.Invariant.{Inv, is_running}
use plux_mtx.Path.Invariant.Requests.{add_reader_post-Inv, out-Inv}
use plux_mtx.Path.Invariant.Timers.{released}

pub do_source_static_set_not_ready-Inv :
    (id : ℕ) (p : CorePath)
    → is_running p.source ≡ true
    → is_some p.stream ≡ true
    → Inv p
    → Ensures Inv (do_source_static_set_not_ready id p)
unfolding do_source_static_set_not_ready on_demand_static_source_stop stop_handler stopped count
do_source_static_set_not_ready-Inv id p r s v =
    rw (set_not_ready_lem p (v.serving.hook_set s)) (ground (arith, source_tests p.conf))

-- Without its publisher, the path is not ready.
pub unpublished-Inv :
    (p : CorePath) (a : ℕ) (es : List Effect)
    → p.source ≡ some (publisher a)
    → Inv p
    → Inv (record (cleared p es) { source = none })
unfolding count
unpublished-Inv p a es k v = ground (arith, source_tests p.conf)

execute_remove_publisher-Inv :
    (p : CorePath) (a : ℕ)
    → p.source ≡ some (publisher a)
    → Inv p
    → Ensures Inv (execute_remove_publisher p)
unfolding execute_remove_publisher
execute_remove_publisher-Inv p a k v =
    let s : is_some p.stream ≡ true = v.demanded.publisher_streams (rw k) in
    rw s
      (rw (set_not_ready_lem p (v.serving.hook_set s)) (unpublished-Inv p a (not_ready_out p) k v))

source_is-eq : (s : Option Source) (a : ℕ) → source_is s a ≡ true → s ≡ some (publisher a)
source_is-eq none a h = cc
source_is-eq (some redirect) a h = cc
source_is-eq (some (handler r)) a h = cc
source_is-eq (some (publisher b)) a h = ground arith

pub do_remove_publisher-Inv :
    (id author : ℕ) (p : CorePath) → Inv p → Ensures Inv (do_remove_publisher id author p)
unfolding do_remove_publisher
do_remove_publisher-Inv id author p v = elim (Bool-cases (source_is p.source author)) [
  | inl e ↦ rw e (
      Ensures-bind Inv Inv _ _
        (execute_remove_publisher-Inv p author (source_is-eq p.source author e) v)
        (λ q w. out-Inv _ q w))
  | inr e ↦ rw e (out-Inv _ p v)
]

add_reader_post_held :
    (req : AddReaderReq) (rs : List AddReaderReq) (p : CorePath)
    → add_reader_post req (record p { reader_add_requests_on_hold = rs })
      ≡ record (add_reader_post req p) { reader_add_requests_on_hold = rs }
unfolding add_reader_post
add_reader_post_held req rs p = ground arith

add_reader_post_each_held :
    (reqs rs : List AddReaderReq) (p : CorePath)
    → add_reader_post_each reqs (record p { reader_add_requests_on_hold = rs })
      ≡ record (add_reader_post_each reqs p) { reader_add_requests_on_hold = rs }
unfolding add_reader_post_each
add_reader_post_each_held [] rs p = refl
add_reader_post_each_held (r ∷ reqs) rs p =
    rw (add_reader_post_held r rs p) (add_reader_post_each_held reqs rs (add_reader_post r p))

add_reader_post-stream :
    (req : AddReaderReq) (p : CorePath) → (add_reader_post req p).stream ≡ p.stream
unfolding add_reader_post
add_reader_post-stream req p = ground arith

add_reader_post_each-Inv :
    (reqs : List AddReaderReq) (p : CorePath)
    → is_some p.stream ≡ true
    → Inv p
    → Inv (add_reader_post_each reqs p)
unfolding add_reader_post_each
add_reader_post_each-Inv [] p s v = v
add_reader_post_each-Inv (r ∷ reqs) p s v =
    add_reader_post_each-Inv reqs (add_reader_post r p)
      (ap is_some (add_reader_post-stream r p) ∙ s) (add_reader_post-Inv r p s v)

-- The held requests are answered as if each had come to the path now.
pub consume_lem :
    (p : CorePath)
    → consume_on_hold_requests p
      ≡ add_reader_post_each p.reader_add_requests_on_hold (
          released p
            (describe_out (describe_stream_res p.stream) p.describe_requests_on_hold p.out))
unfolding consume_on_hold_requests
consume_lem p =
    rw (describe_each_lem (describe_stream_res p.stream) p.describe_requests_on_hold p) (
      sym (
        add_reader_post_each_held p.reader_add_requests_on_hold [] (record p {
          describe_requests_on_hold = [];
          out = describe_out (describe_stream_res p.stream) p.describe_requests_on_hold p.out;
        })))

pub consume-Inv :
    (p : CorePath)
    → is_some p.stream ≡ true
    → Inv (released p [])
    → Inv (consume_on_hold_requests p)
consume-Inv p s v =
    rw (consume_lem p)
      (add_reader_post_each-Inv p.reader_add_requests_on_hold _ s (out-Inv _ (released p []) v))

-- What a successful `setReady` leaves.
abbrev pub now_ready : Desc → Bool → Bool → ℕ → CorePath → CorePath
now_ready desc g f now p = record p {
  stream = some (record { desc = desc; generate_rtp_packets = g; fill_ntp = f });
  ready_time = now;
  recorder = if p.conf.records then some (recorder_of p.conf) else p.recorder;
  on_not_ready_hook = true;
  out =
      path_ready
      ∷ (hook_ready p.publisher_query
          ∷ (if p.conf.records then recorder_start (recorder_of p.conf) ∷ p.out else p.out));
}

pub set_ready_lem :
    (desc : Desc) (g f : Bool) (now : ℕ) (p : CorePath)
    → desc.initializes ≡ true
    → is_some p.source ≡ true
    → set_ready desc g f now p ≡ some (now_ready desc g f now p, none)
unfolding set_ready set_ready_hook start_recording
set_ready_lem desc g f now p i k = ground arith

static_now_ready-Inv :
    (desc : Desc) (g f : Bool) (now : ℕ) (p : CorePath)
    → is_running p.source ≡ true
    → is_some p.stream ≡ false
    → Inv p
    → Inv (released (static_source_is_ready (now_ready desc g f now p)) [])
unfolding static_source_is_ready
static_now_ready-Inv desc g f now p r s v = ground (arith, source_tests p.conf)

pub do_source_static_set_ready-Inv :
    (req : SetReadyReq) (p : CorePath)
    → is_running p.source ≡ true
    → is_some p.stream ≡ false
    → req.desc.initializes ≡ true
    → Inv p
    → Ensures Inv (do_source_static_set_ready req p)
unfolding do_source_static_set_ready
do_source_static_set_ready-Inv req p r s i v =
    rw (set_ready_lem req.desc req.generate_rtp_packets req.fill_ntp req.now p i (ground arith)) (
      out-Inv _ _ (
        consume-Inv (static_source_is_ready (now_ready req.desc _ _ req.now p))
          (unfold static_source_is_ready in ground arith)
          (static_now_ready-Inv req.desc _ _ req.now p r s v)))
