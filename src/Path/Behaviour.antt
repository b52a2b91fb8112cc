-- ===== src/Path/Behaviour.antt =====
-- What a path does for its clients in the situations that its configuration provides for.
use plux_mtx.Base.{
  ◌≡◌, refl, true, false, ◌&&◌, Option, some, none, [], ◌∷◌, ◌++◌, arith, contains, ap, sym, ◌∙◌,
  Ensures-mono, Ensures, Ensures-bind, is_some, is_empty, ◌==s◌, ◌>>=◌,
}
use plux_mtx.Conf.PathConf.{PathConf, has_on_demand_static_source, has_on_demand_publisher}
use plux_mtx.Conf.Flags.{source_tests}
use plux_mtx.Path.State.{
  CorePath, DescribeReq, AddPublisherReq, AddReaderReq, add_publisher_res, add_reader_res, add_err,
  stream_failed, is_initial, is_closing,
}
use plux_mtx.Path.OnDemand.{
  stop_handler, stopped, on_demand_static_source_stop, on_demand_publisher_stop,
}
use plux_mtx.Path.Ready.{
  add_reader_post, readers_full, stream_res, set_ready, set_not_ready, close_readers,
}
use plux_mtx.Path.Handlers.{
  do_on_demand_static_source_ready_timer, publish, do_add_publisher, do_add_reader, do_describe,
  describe_not_ready, ensure_publisher, do_on_demand_publisher_close_timer,
}
use plux_mtx.Path.Run.{handle, fired_ready, static_ready_fires, publisher_close_fires, close_down}
use plux_mtx.Path.Invariant.{Inv, is_running}
use plux_mtx.Path.Invariant.Steps.{refuse_held_lem}
use plux_mtx.Path.Invariant.Timers.{time_out_requests_lem}

-- On a path with a static source on demand, while the loop runs: if a request is on hold, then the
-- ready timer is armed and the source runs; when that timer fires, no request stays on hold, the
-- source is stopped and the path waits for the next request.
pub held_times_out :
    (p : CorePath)
    → Inv p
    → has_on_demand_static_source p.conf ≡ true
    → is_empty p.describe_requests_on_hold && is_empty p.reader_add_requests_on_hold ≡ false
    → (is_some p.static_source.ready_timer ≡ true)
      × (is_running p.source ≡ true)
      × Ensures
          (λ q.
            (q.describe_requests_on_hold ≡ [])
            × (q.reader_add_requests_on_hold ≡ [])
            × (is_running q.source ≡ false)
            × (is_initial q.static_source.state ≡ true)
            × (is_some q.static_source.ready_timer ≡ false))
          (handle static_ready_fires p)
unfolding handle do_on_demand_static_source_ready_timer on_demand_static_source_stop stop_handler
    stopped
held_times_out p v s h =
    rw (time_out_requests_lem (record p { static_source = fired_ready p.static_source }))
      (ground (arith, source_tests p.conf))

-- What the refusal of a publisher leaves.
abbrev IsRefused : AddPublisherReq → CorePath → CorePath → Type 0
IsRefused req p q =
    (q.conf ≡ p.conf)
    × (q.source ≡ none)
    × (q.readers ≡ [])
    × (is_some q.stream ≡ true)
    × (q.out ≡ add_publisher_res req.id (add_err stream_failed) ∷ p.out)

failed_publish-IsRefused :
    (req : AddPublisherReq) (p : CorePath)
    → (p.conf.source ==s "publisher") ≡ true
    → p.source ≡ none
    → p.readers ≡ []
    → req.desc.initializes ≡ false
    → Ensures (IsRefused req p) (do_add_publisher req p)
unfolding do_add_publisher publish set_ready
failed_publish-IsRefused req p c s e i = ground arith

-- The first reader of a path that has a stream.
first_reader_lem :
    (r : AddReaderReq) (q : CorePath)
    → readers_full q.conf.max_readers 0 ≡ false
    → q.readers ≡ []
    → is_some q.stream ≡ true
    → Ensures
        (λ s.
          (s.source ≡ q.source)
          × (s.readers ≡ r.author ∷ [])
          × (s.stream ≡ q.stream)
          × (s.out ≡ add_reader_res r.id (stream_res q.stream) ∷ q.out))
        (do_add_reader r q)
unfolding do_add_reader add_reader_post contains
first_reader_lem r q f e h = rw e (ground arith)

-- A publisher whose formats cannot be initialized, on a path without a source and without readers that
-- allows readers, is answered with an error. A reader that comes next is nevertheless given a stream at once, on a path
-- that has no source; nothing else is sent to either.
pub failed_publish-is_ready :
    (req : AddPublisherReq) (r : AddReaderReq) (p : CorePath)
    → (p.conf.source ==s "publisher") ≡ true
    → p.source ≡ none
    → p.readers ≡ []
    → readers_full p.conf.max_readers 0 ≡ false
    → req.desc.initializes ≡ false
    → Ensures
        (λ q.
          (q.source ≡ none)
          × (q.readers ≡ r.author ∷ [])
          × (is_some q.stream ≡ true)
          × (q.out
              ≡ add_reader_res r.id (stream_res q.stream)
                ∷ add_publisher_res req.id (add_err stream_failed)
                ∷ p.out))
        (do_add_publisher req p >>= do_add_reader r)
failed_publish-is_ready req r p c s e f i =
    Ensures-bind (IsRefused req p) _ (do_add_publisher req p) (do_add_reader r)
      (failed_publish-IsRefused req p c s e i)
      λ q (k, n, e', h, o).
        Ensures-mono _ _ (do_add_reader r q)
          (first_reader_lem r q (ap (λ (x : PathConf). readers_full x.max_readers 0) k ∙ f) e' h)
          λ t (n', k', h', o'). (
            n' ∙ n,
            k',
            ap is_some h' ∙ h,
            o'
                ∙ (ap (λ x. add_reader_res r.id (stream_res x) ∷ q.out) (sym h')
                    ∙ ap (λ x. add_reader_res r.id (stream_res t.stream) ∷ x) o),
          )

-- A path whose stream was never made ready cannot be closed.
unready-close_down :
    (p : CorePath)
    → is_some p.stream ≡ true
    → p.on_not_ready_hook ≡ false
    → p.readers ≡ []
    → close_down p ≡ none
unfolding close_down set_not_ready close_readers
unready-close_down p s h r = rw (refuse_held_lem p) (ground arith)

abbrev IsUnready : CorePath → Type 0
IsUnready q = (is_some q.stream ≡ true) × (q.on_not_ready_hook ≡ false) × (q.readers ≡ [])

failed_publish-IsUnready :
    (req : AddPublisherReq) (p : CorePath)
    → (p.conf.source ==s "publisher") ≡ true
    → p.source ≡ none
    → p.on_not_ready_hook ≡ false
    → p.readers ≡ []
    → req.desc.initializes ≡ false
    → Ensures IsUnready (do_add_publisher req p)
unfolding do_add_publisher publish set_ready
failed_publish-IsUnready req p c s h r i = ground arith

-- A path that is vacant, was never ready and has no reader panics when it is closed after a
-- publisher was refused because its formats could not be initialized.
pub failed_publish-close_down :
    (req : AddPublisherReq) (p : CorePath)
    → (p.conf.source ==s "publisher") ≡ true
    → p.source ≡ none
    → p.on_not_ready_hook ≡ false
    → p.readers ≡ []
    → req.desc.initializes ≡ false
    → (do_add_publisher req p >>= close_down) ≡ none
failed_publish-close_down req p c s h r i =
    go (do_add_publisher req p) (failed_publish-IsUnready req p c s h r i)
  where
    go : (m : Option CorePath) → Ensures IsUnready m → (m >>= close_down) ≡ none
    go none u = refl
    go (some q) u = unready-close_down q u.0 u.1 u.2

-- The publisher of a path that runs a command on demand has left while the path was about to stop
-- the command. A describe request that comes then is put on hold; when the close timer fires, it
-- is still on hold, while no timer is armed and nothing is on its way that would answer it.
pub closing-describe_stuck :
    (req : DescribeReq) (p : CorePath)
    → Inv p
    → has_on_demand_publisher p.conf ≡ true
    → is_closing p.demand_publisher.state ≡ true
    → p.stream ≡ none
    → Ensures
        (λ q.
          (q.describe_requests_on_hold ≡ p.describe_requests_on_hold ++ (req ∷ []))
          × (is_initial q.demand_publisher.state ≡ true)
          × (is_some q.demand_publisher.ready_timer ≡ false)
          × (is_some q.demand_publisher.close_timer ≡ false))
        (do_describe req p >>= handle publisher_close_fires)
unfolding do_describe describe_not_ready ensure_publisher handle do_on_demand_publisher_close_timer
    on_demand_publisher_stop stopped
closing-describe_stuck req p v d c s = ground (arith, source_tests p.conf)
