-- ===== src/Path/Accounts/Steps.antt =====
-- The accounts of the requests through a round of the loop.
use plux_mtx.Base.{
  ℕ, ◌≡◌, false, not, ◌&&◌, Option, some, none, arith, Yields, Yields-bind, Yields-if, is_some,
  ◌==s◌,
}
use plux_mtx.Conf.PathConf.{has_on_demand_static_source}
use plux_mtx.Path.State.{
  CorePath, Err, Source, OnDemand, AddPublisherReq, SetReadyReq, AddRes, emit, as_publisher,
  publisher, publisher_close, add_publisher_res, add_err, is_initial, closed_res, set_ready_res,
  not_publisher, already_publishing,
}
use plux_mtx.Path.Ready.{consume_on_hold_requests, stream_res}
use plux_mtx.Path.Handlers.{
  time_out_requests, do_on_demand_static_source_ready_timer, do_on_demand_static_source_close_timer,
  do_on_demand_publisher_ready_timer, do_on_demand_publisher_close_timer, static_source_is_ready,
  publisher_is_ready, do_source_static_set_ready, do_source_static_set_not_ready, publish,
  replace_publisher, do_add_publisher, do_remove_publisher, source_is,
}
use plux_mtx.Path.Run.{
  Event, static_ready_fires, static_close_fires, publisher_ready_fires, publisher_close_fires,
  fired_ready, fired_close, reload_conf, static_set_ready, static_set_not_ready, describe,
  add_publisher, remove_publisher, add_reader, remove_reader, terminate, handle,
}
use plux_mtx.Path.Ledger.{describe_account, reader_account}
use plux_mtx.Path.Accounts.Parts.{
  Adds, set_not_ready-Adds, set_ready-Adds, time_out_requests-Adds, consume-Adds,
}
use plux_mtx.Path.Accounts.Rounds.{
  describes_asked, readers_asked, Adds-zero, static_stop-Adds, publisher_stop-Adds,
  do_describe-Adds, do_add_reader-Adds, do_remove_reader-Adds, do_reload_conf-Adds,
  execute_remove_publisher-Adds,
}

-- A change of the fields that the accounts do not read.
module _ (id : ℕ) (p : CorePath) (h : p.done ≡ false) where
  Adds-self : Adds id 0 0 p p
  unfolding describe_account reader_account
  Adds-self = record { describes = omega arith; readers = omega arith; looping = h }

  static-Adds : (d : OnDemand) → Adds id 0 0 p (record p { static_source = d })
  unfolding describe_account reader_account
  static-Adds d = record { describes = omega arith; readers = omega arith; looping = h }

  demand-Adds : (d : OnDemand) → Adds id 0 0 p (record p { demand_publisher = d })
  unfolding describe_account reader_account
  demand-Adds d = record { describes = omega arith; readers = omega arith; looping = h }

-- A part that keeps the accounts, and then another.
Yields-then :
    (id : ℕ) (p q : CorePath) (m : Option CorePath)
    → Adds id 0 0 p q
    → Yields (Adds id 0 0 q) m
    → Yields (Adds id 0 0 p) m
Yields-then id p q none a b = tt
Yields-then id p q (some t) a b = Adds-zero a b

module _ (id : ℕ) (p : CorePath) (h : p.done ≡ false) where
  static_source_is_ready-Adds : Adds id 0 0 p (static_source_is_ready p)
  unfolding static_source_is_ready describe_account reader_account
  static_source_is_ready-Adds = ground arith

  publisher_is_ready-Adds : Adds id 0 0 p (publisher_is_ready p)
  unfolding publisher_is_ready describe_account reader_account
  publisher_is_ready-Adds = ground arith

  set_ready_res-Adds : (i : ℕ) (r : AddRes) → Adds id 0 0 p (emit (set_ready_res i r) p)
  unfolding describe_account reader_account
  set_ready_res-Adds i r = ground arith

  publisher_res-Adds :
      (i : ℕ) (r : AddRes) (s : Option Source)
      → Adds id 0 0 p (emit (add_publisher_res i r) (record p { source = s }))
  unfolding describe_account reader_account
  publisher_res-Adds i r s = ground arith

  closed_res-Adds : (i : ℕ) → Adds id 0 0 p (emit (closed_res i) p)
  unfolding describe_account reader_account
  closed_res-Adds i = ground arith

do_source_static_set_ready-Adds :
    (id : ℕ) (p : CorePath)
    → p.done ≡ false
    → (req : SetReadyReq) → Yields (Adds id 0 0 p) (do_source_static_set_ready req p)
unfolding do_source_static_set_ready
do_source_static_set_ready-Adds id p h req =
    Yields-bind (λ (r : CorePath × Option Err). Adds id 0 0 p r.0) (Adds id 0 0 p) _ _
      (set_ready-Adds id req.desc req.generate_rtp_packets req.fill_ntp req.now p h) go
  where
    go :
        (r : CorePath × Option Err)
        → Adds id 0 0 p r.0
        → Yields (Adds id 0 0 p) (elim r.1 [
          | some e ↦ some (emit (set_ready_res req.id (add_err e)) r.0)
          | none ↦
              let p₂ : CorePath = consume_on_hold_requests (static_source_is_ready r.0) in
              some (emit (set_ready_res req.id (stream_res p₂.stream)) p₂)
        ])
    go (q, some e) a = Adds-zero a (set_ready_res-Adds id q a.looping req.id (add_err e))
    go (q, none) a =
        let b = static_source_is_ready-Adds id q a.looping in
        let c = consume-Adds id (static_source_is_ready q) b.looping in
        Adds-zero a (Adds-zero b (Adds-zero c (set_ready_res-Adds id _ c.looping req.id _)))

publish-Adds :
    (id : ℕ) (p : CorePath)
    → p.done ≡ false
    → (req : AddPublisherReq) → Yields (Adds id 0 0 p) (publish req p)
unfolding publish
publish-Adds id p h req =
    let q : CorePath = record p {
      source = some (publisher req.author);
      publisher_query = req.query;
    } in
    Yields-then id p q _ (unfold describe_account reader_account in ground arith) (
      Yields-bind (λ (r : CorePath × Option Err). Adds id 0 0 q r.0) (Adds id 0 0 q) _ _
        (set_ready-Adds id req.desc req.generate_rtp_packets req.fill_ntp req.now q h) (go q))
  where
    go :
        (q : CorePath) (r : CorePath × Option Err)
        → Adds id 0 0 q r.0
        → Yields (Adds id 0 0 q) (elim r.1 [
          | some e ↦
              some (emit (add_publisher_res req.id (add_err e)) (record (r.0) { source = none }))
          | none ↦
              let p₃ : CorePath = consume_on_hold_requests (publisher_is_ready r.0) in
              some (emit (add_publisher_res req.id (stream_res p₃.stream)) p₃)
        ])
    go t (q, some e) a = Adds-zero a (publisher_res-Adds id q a.looping req.id (add_err e) none)
    go t (q, none) a =
        let b = publisher_is_ready-Adds id q a.looping in
        let c = consume-Adds id (publisher_is_ready q) b.looping in
        Adds-zero a (
          Adds-zero b (
            Adds-zero c (
              publisher_res-Adds id (consume_on_hold_requests (publisher_is_ready q)) c.looping
                req.id _ _)))

replace_publisher-Adds :
    (id : ℕ) (p : CorePath) → p.done ≡ false → Yields (Adds id 0 0 p) (replace_publisher p)
unfolding replace_publisher
replace_publisher-Adds id p h =
    Yields-bind (λ _. Unit) (Adds id 0 0 p) (as_publisher p.source) _ (go (as_publisher p.source))
      λ a _.
        Yields-then id p (emit (publisher_close a) p) _
          (unfold describe_account reader_account in ground arith)
          (execute_remove_publisher-Adds id (emit (publisher_close a) p) h)
  where
    go : (o : Option ℕ) → Yields (λ _. Unit) o
    go none = tt
    go (some a) = tt

do_add_publisher-Adds :
    (id : ℕ) (p : CorePath)
    → p.done ≡ false
    → (req : AddPublisherReq) → Yields (Adds id 0 0 p) (do_add_publisher req p)
unfolding do_add_publisher
do_add_publisher-Adds id p h req =
    Yields-if (Adds id 0 0 p) (not (p.conf.source ==s "publisher")) _ _
      (λ _. publisher_res-Adds id p h req.id (add_err not_publisher) p.source)
      (λ _.
        Yields-if (Adds id 0 0 p) (is_some p.source) _ _
          (λ _.
            Yields-if (Adds id 0 0 p) p.conf.override_publisher _ _
              (λ _.
                Yields-bind (Adds id 0 0 p) (Adds id 0 0 p) _ _ (replace_publisher-Adds id p h)
                  (λ q a. Yields-then id p q _ a (publish-Adds id q a.looping req)))
              (λ _. publisher_res-Adds id p h req.id (add_err already_publishing) p.source))
          (λ _. publish-Adds id p h req))

do_remove_publisher-Adds :
    (id : ℕ) (p : CorePath)
    → p.done ≡ false
    → (i a : ℕ) → Yields (Adds id 0 0 p) (do_remove_publisher i a p)
unfolding do_remove_publisher
do_remove_publisher-Adds id p h i a =
    Yields-bind (Adds id 0 0 p) (Adds id 0 0 p) _ _
      (Yields-if (Adds id 0 0 p) (source_is p.source a) _ _
        (λ _. execute_remove_publisher-Adds id p h) (λ _. Adds-self id p h))
      (λ q b. Adds-zero b (closed_res-Adds id q b.looping i))

do_source_static_set_not_ready-Adds :
    (id : ℕ) (p : CorePath)
    → p.done ≡ false
    → (i : ℕ) → Yields (Adds id 0 0 p) (do_source_static_set_not_ready i p)
unfolding do_source_static_set_not_ready
do_source_static_set_not_ready-Adds id p h i =
    Yields-bind (Adds id 0 0 p) (Adds id 0 0 p) _ _ (set_not_ready-Adds id p h) λ q b.
      let c = closed_res-Adds id q b.looping i in
      Yields-if (Adds id 0 0 p)
        (has_on_demand_static_source q.conf && not (is_initial q.static_source.state)) _
        (some (emit (closed_res i) q))
        (λ _.
          Yields-then id p (emit (closed_res i) q) _ (Adds-zero b c)
            (static_stop-Adds id (emit (closed_res i) q) c.looping "an error occurred"))
        (λ _. Adds-zero b c)

pub handle-Adds :
    (id : ℕ) (e : Event) (p : CorePath)
    → p.done ≡ false
    → Yields (Adds id (describes_asked id e) (readers_asked id e) p) (handle e p)
unfolding handle do_on_demand_static_source_ready_timer do_on_demand_static_source_close_timer
    do_on_demand_publisher_ready_timer do_on_demand_publisher_close_timer
handle-Adds id static_ready_fires p h =
    let q : CorePath = record p { static_source = fired_ready p.static_source } in
    let a = time_out_requests-Adds id q h in
    Yields-then id p (time_out_requests q) _
      (Adds-zero (static-Adds id p h (fired_ready p.static_source)) a)
      (static_stop-Adds id (time_out_requests q) a.looping "timed out")
handle-Adds id static_close_fires p h =
    let q : CorePath = record p { static_source = fired_close p.static_source } in
    Yields-then id p q _ (static-Adds id p h (fired_close p.static_source)) (
      Yields-bind (Adds id 0 0 q) (Adds id 0 0 q) _ _ (set_not_ready-Adds id q h)
        (λ t a. Yields-then id q t _ a (static_stop-Adds id t a.looping "not needed by anyone")))
handle-Adds id publisher_ready_fires p h =
    let q : CorePath = record p { demand_publisher = fired_ready p.demand_publisher } in
    let a = time_out_requests-Adds id q h in
    Yields-then id p (time_out_requests q) _
      (Adds-zero (demand-Adds id p h (fired_ready p.demand_publisher)) a)
      (publisher_stop-Adds id (time_out_requests q) a.looping "timed out")
handle-Adds id publisher_close_fires p h =
    let q : CorePath = record p { demand_publisher = fired_close p.demand_publisher } in
    Yields-then id p q _ (demand-Adds id p h (fired_close p.demand_publisher))
      (publisher_stop-Adds id q h "not needed by anyone")
handle-Adds id (reload_conf c) p h = do_reload_conf-Adds id p h c
handle-Adds id (static_set_ready req) p h = do_source_static_set_ready-Adds id p h req
handle-Adds id (static_set_not_ready i) p h = do_source_static_set_not_ready-Adds id p h i
handle-Adds id (describe req) p h = do_describe-Adds id p h req
handle-Adds id (add_publisher req) p h = do_add_publisher-Adds id p h req
handle-Adds id (remove_publisher i a) p h = do_remove_publisher-Adds id p h i a
handle-Adds id (add_reader req) p h = do_add_reader-Adds id p h req
handle-Adds id (remove_reader i a) p h = do_remove_reader-Adds id p h i a
handle-Adds id terminate p h = Adds-self id p h
