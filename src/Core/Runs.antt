-- ===== src/Core/Runs.antt =====
-- internal/core/core.go: the loop of run, from New on.
use plux_mtx.Base.{
  ℕ, zero, suc, Bool, true, false, ◌≡◌, refl, sym, ap, ◌⊎◌, inl, inr, subst, not, some, none,
  is_some, List, [], ◌∷◌, All, get_elem?, if◌then◌else◌,
}
use plux_mtx.Core.Conf.{Conf}
use plux_mtx.Core.Servers.{ApiSettings, api_settings}
use plux_mtx.Core.State.{Core, Slot, Created, created, failed, Component, id_of, sources_of}
use plux_mtx.Core.Create.{create_resources}
use plux_mtx.Core.Reload.{
  reload_conf, new_core, core_step, core_run, CoreEvent, file_changed, api_patched, api_config_set,
  interrupted, Program, running, stopped, panicked, program_of, after_reload, receive_config,
  remove_request, set_api_conf, set_conf, reloaded, empty_core, close_all,
}
use plux_mtx.Core.Fresh.{Fresh}
use plux_mtx.Core.Same.{compared_api, connected_api, IsShared}
use plux_mtx.Core.Current.{
  IsRest, IsApiConnected, IsConnected, IsFilled, all_filled, all_filled-IsFilled,
}
use plux_mtx.Core.Renewal.{closed_core, renewed-IsRest, api_reconnected}
use plux_mtx.Core.Start.{
  IfCreated, create_resources-IfCreated, started-IsRest, started-IsApiCurrent,
}
use plux_mtx.Core.Stop.{IsStopped, close_all-IsStopped}
use plux_mtx.Core.Logging.{IsLogging, create_resources-Logs}
use plux_mtx.Core.Upkeep.{IsPlaced, IsPlaced-IsShared, set_api_conf-IsRest}

-- Where the program stands. If it runs, each instance runs with what the configuration says.
abbrev pub IsUpToDate : (Component → ℕ → Bool) → (ℕ → ℕ) → Program → Type 0
IsUpToDate succeeds places (running c requests) =
    IsConnected c
    × IsPlaced places c.conf.rtsp_udp_read_buffer_size
    × All (λ (r : Conf). IsPlaced places r.rtsp_udp_read_buffer_size) requests
IsUpToDate succeeds places (stopped c) = IsStopped c
IsUpToDate succeeds places panicked = (n : ℕ) × (succeeds Component.logger n ≡ false)

abbrev pub IsPlacedEvent : (ℕ → ℕ) → CoreEvent → Type 0
IsPlacedEvent places (file_changed none) = Unit
IsPlacedEvent places (file_changed (some new)) = IsPlaced places new.rtsp_udp_read_buffer_size
IsPlacedEvent places (api_patched new) = IsPlaced places new.rtsp_udp_read_buffer_size
IsPlacedEvent places (api_config_set n) = Unit
IsPlacedEvent places interrupted = Unit

abbrev pub ArePlaced : (ℕ → ℕ) → List CoreEvent → Type 0
ArePlaced places [] = Unit
ArePlaced places (e ∷ es) = IsPlacedEvent places e × ArePlaced places es

reloaded-connected :
    (new : Conf) (b enabled : Bool) (w : ApiSettings) (o : Slot ApiSettings)
    → Fresh connected_api enabled w o
    → Fresh connected_api enabled w (reloaded b (set_conf new) o)
unfolding reloaded set_conf
reloaded-connected new b enabled w none h = h
reloaded-connected new true enabled w (some i) h = h
reloaded-connected new false enabled w (some i) h = h

set_api_conf-IsConnected :
    (new : Conf) (c : Core) → IsConnected c → IsConnected (set_api_conf new c)
unfolding set_api_conf sources_of
set_api_conf-IsConnected new c v = (
  set_api_conf-IsRest new c v.0,
  reloaded-connected new true c.conf.api (api_settings c.conf (id_of c.auth_manager) (sources_of c))
      c.api v.1,
)

renewed-IsConnected :
    (new : Conf) (by_api : Bool) (c : Core)
    → IsShared new.rtsp_udp_read_buffer_size c.conf.rtsp_udp_read_buffer_size
    → IsConnected c
    → IsConnected (all_filled (closed_core new by_api c))
renewed-IsConnected new by_api c shared v =
    let b = closed_core new by_api c in
    let d = all_filled b in
    let f = all_filled-IsFilled b in
    let r : IsRest new d = renewed-IsRest new by_api c d shared v.0 f in
    let a : IsApiConnected new d = api_reconnected new by_api c d shared v.0 f (
      reloaded-connected new (not by_api) c.conf.api
        (api_settings c.conf (id_of c.auth_manager) (sources_of c)) c.api v.1) in
    subst (λ k. IsRest k d × IsApiConnected k d) (sym f.same_conf) (r, a)

Fresh-connected :
    (enabled : Bool) (w : ApiSettings) (o : Slot ApiSettings)
    → Fresh compared_api enabled w o
    → Fresh connected_api enabled w o
Fresh-connected enabled w none h = h
Fresh-connected enabled w (some i) h = (h.0, ap {A = ApiSettings} (λ s. (s.server, s.sources)) h.1)

All-get_elem? :
    (P : Conf → Type 0) (n : ℕ) (rs : List Conf)
    → All P rs
    → (get_elem? rs n ≡ none) ⊎ ((r : Conf) × (get_elem? rs n ≡ some r) × P r)
All-get_elem? P n [] a = inl refl
All-get_elem? P zero (r ∷ rs) a = inr (r, refl, a.0)
All-get_elem? P (suc n) (r ∷ rs) a = All-get_elem? P n rs a.1

All-remove_request :
    (P : Conf → Type 0) (n : ℕ) (rs : List Conf) → All P rs → All P (remove_request n rs)
unfolding remove_request
All-remove_request P n [] a = tt
All-remove_request P zero (r ∷ rs) a = a.1
All-remove_request P (suc n) (r ∷ rs) a = (a.0, All-remove_request P n rs a.1)

module _ (succeeds : Component → ℕ → Bool) (places : ℕ → ℕ) where
  abbrev HasPlace : Conf → Type 0
  HasPlace c = IsPlaced places c.rtsp_udp_read_buffer_size

  -- The program after an error or without one.
  after_reload-IsUpToDate :
      (b : Core) (requests : List Conf)
      → IsConnected (all_filled b)
      → HasPlace (all_filled b).conf
      → All HasPlace requests
      → IsUpToDate succeeds places (after_reload requests (create_resources succeeds b))
  unfolding after_reload
  after_reload-IsUpToDate b requests v p a =
      go (create_resources succeeds b) (create_resources-IfCreated succeeds b)
        (create_resources-Logs succeeds b)
    where
      unlogged :
          (d : Core) (b' : Bool)
          → ((n : ℕ) × (succeeds Component.logger n ≡ false))
          → IsUpToDate succeeds places (if b' then stopped (close_all d) else panicked)
      unlogged d true l = close_all-IsStopped d
      unlogged d false l = l

      go :
          (r : Created)
          → IfCreated (λ d. d ≡ all_filled b) r
          → IsLogging r
            ⊎ (((d : Core) × (r ≡ failed d)) × ((n : ℕ) × (succeeds Component.logger n ≡ false)))
          → IsUpToDate succeeds places (after_reload requests r)
      go (created d) e l =
          subst (λ d. IsConnected d × HasPlace d.conf × All HasPlace requests) (sym e) (v, p, a)
      go (failed d) e (inl l) = rw l (close_all-IsStopped d)
      go (failed d) e (inr l) = unlogged d (is_some d.logger) l.1

  new_core-IsUpToDate : (k : Conf) → HasPlace k → IsUpToDate succeeds places (new_core succeeds k)
  unfolding new_core empty_core program_of
  new_core-IsUpToDate k p =
      go (create_resources succeeds (empty_core k))
        (create_resources-IfCreated succeeds (empty_core k))
    where
      d : Core
      d = all_filled (empty_core k)

      f : IsFilled (empty_core k) d
      f = all_filled-IsFilled (empty_core k)

      connected : IsConnected d
      connected =
          subst (λ x. IsRest x d × IsApiConnected x d) (sym f.same_conf)
            (
              started-IsRest k d f,
              Fresh-connected k.api (api_settings k (id_of d.auth_manager) (sources_of d)) d.api
                  (started-IsApiCurrent k d f),
            )

      go : (r : Created) → IfCreated (λ x. x ≡ d) r → IsUpToDate succeeds places (program_of r)
      go (created x) e =
          subst (λ y. IsConnected y × HasPlace y.conf × Unit) (sym e)
            (connected, subst HasPlace (sym f.same_conf) p, tt)
      go (failed x) e = close_all-IsStopped x

  reload-IsUpToDate :
      (new : Conf) (by_api : Bool) (c : Core) (requests : List Conf)
      → HasPlace new
      → IsConnected c
      → HasPlace c.conf
      → All HasPlace requests
      → IsUpToDate succeeds places (after_reload requests (reload_conf succeeds new by_api c))
  unfolding reload_conf
  reload-IsUpToDate new by_api c requests q v p a =
      let b = closed_core new by_api c in
      after_reload-IsUpToDate b requests
        (renewed-IsConnected new by_api c
          (IsPlaced-IsShared places new.rtsp_udp_read_buffer_size c.conf.rtsp_udp_read_buffer_size q
            p)
          v)
        (subst HasPlace (sym (all_filled-IsFilled b).same_conf) q) a

  core_step-IsUpToDate :
      (e : CoreEvent) (p : Program)
      → IsPlacedEvent places e
      → IsUpToDate succeeds places p
      → IsUpToDate succeeds places (core_step succeeds e p)
  unfolding core_step receive_config set_api_conf
  core_step-IsUpToDate e (stopped c) q v = v
  core_step-IsUpToDate e panicked q v = v
  core_step-IsUpToDate (file_changed none) (running c rs) q v = close_all-IsStopped c
  core_step-IsUpToDate interrupted (running c rs) q v = close_all-IsStopped c
  core_step-IsUpToDate (file_changed (some new)) (running c rs) q v =
      reload-IsUpToDate new false c rs q v.0 v.1 v.2
  core_step-IsUpToDate (api_patched new) (running c rs) q v =
      (set_api_conf-IsConnected new c v.0, v.1, (q, v.2))
  core_step-IsUpToDate (api_config_set n) (running c rs) q v =
      let a = All-remove_request HasPlace n rs v.2 in
      elim (All-get_elem? HasPlace n rs v.2) [
        | inl e ↦ rw e (v.0, v.1, a)
        | inr r ↦ rw r.1 (reload-IsUpToDate r.0 true c (remove_request n rs) r.2 v.0 v.1 a)
      ]

  core_run-IsUpToDate :
      (es : List CoreEvent) (p : Program)
      → ArePlaced places es
      → IsUpToDate succeeds places p
      → IsUpToDate succeeds places (core_run succeeds es p)
  unfolding core_run
  core_run-IsUpToDate [] p q v = v
  core_run-IsUpToDate (e ∷ es) p q v =
      core_run-IsUpToDate es (core_step succeeds e p) q.1 (core_step-IsUpToDate e p q.0 v)

  -- From its start on, whatever the loop of the core receives, in whichever order the configurations of the
  -- API arrive, and whichever components fail to start, the program has ended with nothing running,
  -- or has panicked, as the logger has failed to start, or every component runs exactly if the
  -- current configuration enables it, with its settings, connected to the instances that run: except for
  -- the addresses and ports of SRTP and SRTCP and the range of multicast addresses of the encrypted
  -- RTSP server, the copy of the configuration that the API has, and the encrypted RTMP server that it
  -- answers about. The pointers of all configurations are taken to be to numbers that do not change.
  pub core_run-new_core-IsUpToDate :
      (k : Conf) (es : List CoreEvent)
      → IsPlaced places k.rtsp_udp_read_buffer_size
      → ArePlaced places es
      → IsUpToDate succeeds places (core_run succeeds es (new_core succeeds k))
  core_run-new_core-IsUpToDate k es p q =
      core_run-IsUpToDate es (new_core succeeds k) q (new_core-IsUpToDate k p)
