-- ===== src/Core/Upkeep.antt =====
-- internal/core/core.go: reloadConf, which brings every component up to date.
use plux_mtx.Base.{ℕ, Bool, true, false, ◌≡◌, refl, sym, ap, ◌∙◌, Option, some, none}
use plux_mtx.Core.Conf.{Conf, Pointer}
use plux_mtx.Core.Servers.{ApiSettings, api_settings}
use plux_mtx.Core.State.{Core, Slot, id_of, sources_of}
use plux_mtx.Core.Reload.{set_api_conf, set_conf, reloaded}
use plux_mtx.Core.Fresh.{Fresh}
use plux_mtx.Core.Same.{compared_api, IsShared}
use plux_mtx.Core.Current.{IsRest, IsCurrent}

-- Where the pointers of all configurations point: a place holds one number for good.
abbrev pub IsPlaced : (ℕ → ℕ) → Option Pointer → Type 0
IsPlaced places none = Unit
IsPlaced places (some p) = places p.address ≡ p.target

pub IsPlaced-IsShared :
    (places : ℕ → ℕ) (p q : Option Pointer) → IsPlaced places p → IsPlaced places q → IsShared p q
IsPlaced-IsShared places none q h k = tt
IsPlaced-IsShared places (some p) none h k = tt
IsPlaced-IsShared places (some p) (some q) h k = λ e. sym h ∙ ap places e ∙ k

Fresh-set_conf :
    (new : Conf) (b enabled : Bool) (w : ApiSettings) (o : Slot ApiSettings)
    → (b ≡ false → Fresh compared_api enabled (record w { conf = new }) o)
    → (b ≡ true → Fresh compared_api enabled w o)
    → Fresh compared_api enabled (record w { conf = new }) (reloaded b (set_conf new) o)
unfolding reloaded set_conf
Fresh-set_conf new true enabled w none g h = h refl
Fresh-set_conf new false enabled w none g h = g refl
Fresh-set_conf new true enabled w (some i) g h =
    ((h refl).0, ap {A = ApiSettings} {B = ApiSettings} (λ s. record s { conf = new }) (h refl).1)
Fresh-set_conf new false enabled w (some i) g h = g refl

pub set_api_conf-IsRest :
    (new : Conf) (c : Core) → IsRest c.conf c → IsRest c.conf (set_api_conf new c)
unfolding set_api_conf
set_api_conf-IsRest new c v = record {
  logger = v.logger;
  auth_manager = v.auth_manager;
  metrics = v.metrics;
  pprof = v.pprof;
  record_cleaner = v.record_cleaner;
  playback_server = v.playback_server;
  path_manager = v.path_manager;
  rtsp_server = v.rtsp_server;
  rtsps_server = v.rtsps_server;
  rtmp_server = v.rtmp_server;
  rtmps_server = v.rtmps_server;
  hls_server = v.hls_server;
  webrtc_server = v.webrtc_server;
  srt_server = v.srt_server;
}

pub file_api :
    (new : Conf) (c : Core)
    → IsCurrent c
    → Fresh compared_api c.conf.api
        (record (api_settings c.conf (id_of c.auth_manager) (sources_of c)) { conf = new })
        (reloaded true (set_conf new) c.api)
file_api new c v =
    Fresh-set_conf new true c.conf.api (api_settings c.conf (id_of c.auth_manager) (sources_of c))
      c.api (λ h. cc) (λ h. v.1)
