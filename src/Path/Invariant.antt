-- ===== src/Path/Invariant.antt =====
-- What holds of a path between two rounds of its loop.
pub mod Requests
pub mod Timers
pub mod Sources
pub mod Publishers
pub mod Steps
pub mod Runs
use plux_mtx.Base.{
  ℕ, zero, suc, ◌≤◌, ◌≡◌, Bool, true, false, ◌&&◌, ◌||◌, not, Option, some, none, length, count,
  is_empty, is_some, ◌==s◌,
}
use plux_mtx.Base.Int.{ℤ, pos, negsuc}
use plux_mtx.Conf.PathConf.{
  PathConf, has_static_source, has_on_demand_static_source, has_on_demand_publisher,
}
use plux_mtx.Conf.Flags.{IsValidDemand}
use plux_mtx.Path.State.{
  CorePath, Source, OnDemand, redirect, handler, publisher, is_redirect, is_initial, is_waiting,
  is_ready, is_closing,
}

abbrev pub is_handler : Option Source → Bool
is_handler none = false
is_handler (some redirect) = false
is_handler (some (handler running)) = true
is_handler (some (publisher a)) = false

abbrev pub is_running : Option Source → Bool
is_running none = false
is_running (some redirect) = false
is_running (some (handler running)) = running
is_running (some (publisher a)) = false

abbrev pub is_publisher : Option Source → Bool
is_publisher none = false
is_publisher (some redirect) = false
is_publisher (some (handler running)) = false
is_publisher (some (publisher a)) = true

-- A timer is armed exactly in the state that it ends.
pub record IsTimed (d : OnDemand) : Type 0 where
  pub ready_timer : is_some d.ready_timer ≡ is_waiting d.state
  pub close_timer : is_some d.close_timer ≡ is_closing d.state

-- The source is of the kind that the configuration asks for, and a handler runs when it should.
pub record IsSourced (c : PathConf) (s : Option Source) (d : OnDemand) (streams : Bool)
    : Type 0 where
  pub redirect_source : is_redirect s ≡ (c.source ==s "redirect")
  pub handler_source : is_handler s ≡ has_static_source c
  pub running_source :
      is_running s ≡ (has_static_source c && (not c.source_on_demand || not (is_initial d.state)))
  pub timed : IsTimed d
  pub at_rest : has_on_demand_static_source c ≡ false → is_initial d.state ≡ true
  pub ready_streams :
      has_on_demand_static_source c ≡ true → streams ≡ (is_ready d.state || is_closing d.state)
  pub stream_source : streams ≡ true → (is_handler s || is_publisher s) ≡ true

-- What runs on demand for a publisher.
pub record IsDemanded (c : PathConf) (s : Option Source) (d : OnDemand) (hook streams : Bool)
    : Type 0 where
  pub timed : IsTimed d
  pub at_rest : has_on_demand_publisher c ≡ false → is_initial d.state ≡ true
  pub hook_set : hook ≡ not (is_initial d.state)
  pub publisher_streams : is_publisher s ≡ true → streams ≡ true
  pub waiting_silent : is_waiting d.state ≡ true → streams ≡ false

abbrev pub IsCapped : ℤ → ℕ → Type 0
IsCapped (pos zero) n = Unit
IsCapped (pos (suc m)) n = n ≤ suc m
IsCapped (negsuc m) n = n ≤ 0

-- Readers stand on a ready path only, each once and within the limit; requests wait on a path
-- that is not ready; a static source on demand is closing exactly while nobody reads.
pub record IsServing (p : CorePath) : Type 0 where
  pub not_done : p.done ≡ false
  pub hook_set : is_some p.stream ≡ true → p.on_not_ready_hook ≡ true
  pub no_readers : is_some p.stream ≡ false → is_empty p.readers ≡ true
  pub nothing_held :
      is_some p.stream ≡ true
      → (is_empty p.describe_requests_on_hold ≡ true)
        × (is_empty p.reader_add_requests_on_hold ≡ true)
  pub recording : is_some p.recorder ≡ (p.conf.records && is_some p.stream)
  pub capped : IsCapped p.conf.max_readers (length p.readers)
  pub distinct : (a : ℕ) → count a p.readers ≤ 1
  pub closing_unread :
      has_on_demand_static_source p.conf ≡ true
      → is_closing p.static_source.state ≡ (is_some p.stream && is_empty p.readers)
  pub closing_unpublished : is_closing p.demand_publisher.state ≡ true → is_empty p.readers ≡ true
  pub held_waiting :
      has_on_demand_static_source p.conf ≡ true
      → is_waiting p.static_source.state ≡ false
      → (is_empty p.describe_requests_on_hold ≡ true)
        × (is_empty p.reader_add_requests_on_hold ≡ true)
  pub held_demanded :
      has_on_demand_static_source p.conf ≡ false
      → has_on_demand_publisher p.conf ≡ false
      → (is_empty p.describe_requests_on_hold ≡ true)
        × (is_empty p.reader_add_requests_on_hold ≡ true)

pub record Inv (p : CorePath) : Type 0 where
  pub valid : IsValidDemand p.conf
  pub sourced : IsSourced p.conf p.source p.static_source (is_some p.stream)
  pub demanded :
      IsDemanded p.conf p.source p.demand_publisher p.on_un_demand_hook (is_some p.stream)
  pub serving : IsServing p
