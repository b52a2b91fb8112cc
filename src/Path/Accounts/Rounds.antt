-- ===== src/Path/Accounts/Rounds.antt =====
-- The accounts of the requests through the handlers that serve them.
use plux_mtx.Base.{
  ℕ, String, ◌≡◌, false, [], ◌∷◌, arith, Yields, Yields-bind, Yields-if, is_some, ◌==◌,
}
use plux_mtx.Conf.PathConf.{PathConf}
use plux_mtx.Path.State.{CorePath, DescribeReq, AddReaderReq}
use plux_mtx.Path.OnDemand.{
  start_handler, stop_handler, reload_handler, stopped, on_demand_static_source_start,
  on_demand_static_source_stop, on_demand_publisher_start, on_demand_publisher_stop,
}
use plux_mtx.Path.Ready.{close_recorder, start_recording, execute_remove_publisher}
use plux_mtx.Path.Handlers.{
  do_reload_conf, ensure_static_source, ensure_publisher, describe_not_ready, do_describe,
  reader_not_ready, do_add_reader, no_readers_left, do_remove_reader,
}
use plux_mtx.Path.Run.{Event, describe, add_reader}
use plux_mtx.Path.Ledger.{
  describe_account, describes_held-append, readers_held-append, reader_account,
}
use plux_mtx.Path.Accounts.Parts.{Adds, one_if, set_not_ready-Adds, add_reader_post-Adds}

-- How often an event asks the request of that identity.
abbrev pub describes_asked : ℕ → Event → ℕ
describes_asked id (describe req) = one_if (req.id == id)
describes_asked id _ = 0

abbrev pub readers_asked : ℕ → Event → ℕ
readers_asked id (add_reader req) = one_if (req.id == id)
readers_asked id _ = 0

-- Nothing is answered or put on hold.
pub Adds-zero : {id : ℕ} {p q t : CorePath} → Adds id 0 0 p q → Adds id 0 0 q t → Adds id 0 0 p t
Adds-zero a b = record {
  describes = omega (arith, a.describes, b.describes);
  readers = omega (arith, a.readers, b.readers);
  looping = b.looping;
}

module _ (id : ℕ) (p : CorePath) (h : p.done ≡ false) where
  pub static_stop-Adds :
      (reason : String) → Yields (Adds id 0 0 p) (on_demand_static_source_stop reason p)
  unfolding on_demand_static_source_stop stop_handler stopped describe_account reader_account
  static_stop-Adds reason = ground arith

  pub publisher_stop-Adds :
      (reason : String) → Yields (Adds id 0 0 p) (on_demand_publisher_stop reason p)
  unfolding on_demand_publisher_stop stopped describe_account reader_account
  publisher_stop-Adds reason = ground arith

  pub do_describe-Adds :
      (req : DescribeReq) → Yields (Adds id (one_if (req.id == id)) 0 p) (do_describe req p)
  unfolding do_describe describe_not_ready ensure_static_source ensure_publisher
      on_demand_static_source_start start_handler on_demand_publisher_start describe_account
      reader_account
  do_describe-Adds req =
      ground (arith, describes_held-append id p.describe_requests_on_hold (req ∷ []))

  pub do_add_reader-Adds :
      (req : AddReaderReq) → Yields (Adds id 0 (one_if (req.id == id)) p) (do_add_reader req p)
  unfolding do_add_reader reader_not_ready ensure_static_source ensure_publisher
      on_demand_static_source_start start_handler on_demand_publisher_start describe_account
      reader_account
  do_add_reader-Adds req = ground (
    arith,
    readers_held-append id p.reader_add_requests_on_hold (req ∷ []),
    add_reader_post-Adds id req p h,
  )

  pub do_remove_reader-Adds : (i a : ℕ) → Adds id 0 0 p (do_remove_reader i a p)
  unfolding do_remove_reader no_readers_left describe_account reader_account
  do_remove_reader-Adds i a = ground arith

  pub do_reload_conf-Adds : (c : PathConf) → Yields (Adds id 0 0 p) (do_reload_conf c p)
  unfolding do_reload_conf reload_handler close_recorder start_recording describe_account
      reader_account
  do_reload_conf-Adds c = ground arith

  pub execute_remove_publisher-Adds : Yields (Adds id 0 0 p) (execute_remove_publisher p)
  unfolding execute_remove_publisher describe_account reader_account
  execute_remove_publisher-Adds =
      Yields-bind (Adds id 0 0 p) (Adds id 0 0 p) _ _
        (Yields-if (Adds id 0 0 p) (is_some p.stream) _ _ (λ _. set_not_ready-Adds id p h)
          (λ _. ground arith))
        (λ q a. ground (arith, a.describes, a.readers, a.looping))
