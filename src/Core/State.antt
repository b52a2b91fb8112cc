-- ===== src/Core/State.antt =====
-- internal/core/core.go: the struct Core, createResources and closeResources. Whether Initialize of
-- a component succeeds is `succeeds`, of the component and the number of its instance.
use plux_mtx.Base.{ℕ, suc, Bool, true, false, ◌&&◌, not, Option, some, none, if◌then◌else◌}
use plux_mtx.Conf.Find.{PathConfs}
use plux_mtx.Core.Conf.{
  Conf, Encryption, no_encryption, optional_encryption, strict_encryption, Users-Comparable,
  PathConfs-Comparable,
}
use plux_mtx.Core.Settings.{
  LoggerSettings, logger_settings, AuthSettings, auth_settings, HttpSettings, http_settings,
  PlaybackSettings, playback_settings, PathManagerSettings, path_manager_settings, RtspSettings,
  rtsp_settings, rtsps_settings,
}
use plux_mtx.Core.Servers.{
  RtmpSettings, rtmp_settings, rtmps_settings, HlsSettings, hls_settings, WebrtcSettings,
  webrtc_settings, SrtSettings, srt_settings, ApiSources, ApiSettings, api_settings,
}
use plux_mtx.Core.Closes.{at_least_one_record_delete_after}

-- An instance of a component: a number that no two share, and what it was created with, or has been
-- reloaded with since.
pub record Instance (S : Type 0) : Type 0 where
  pub id : ℕ
  pub settings : S

abbrev pub Slot : Type 0 → Type 0
Slot S = Option (Instance S)

abbrev pub id_of : {S : Type 0} → Slot S → Option ℕ
id_of none = none
id_of (some i) = some i.id

pub record Core : Type 0 where
  pub conf : Conf
  pub logger : Slot LoggerSettings
  pub auth_manager : Slot AuthSettings
  pub metrics : Slot HttpSettings
  pub pprof : Slot HttpSettings
  pub record_cleaner : Slot PathConfs
  pub playback_server : Slot PlaybackSettings
  pub path_manager : Slot PathManagerSettings
  pub rtsp_server : Slot RtspSettings
  pub rtsps_server : Slot RtspSettings
  pub rtmp_server : Slot RtmpSettings
  pub rtmps_server : Slot RtmpSettings
  pub hls_server : Slot HlsSettings
  pub webrtc_server : Slot WebrtcSettings
  pub srt_server : Slot SrtSettings
  pub api : Slot ApiSettings
  pub next_id : ℕ

-- What createResources returns: whether it gave up at a component that did not start.
pub data Created : Type 0 where
  created : Core → Created
  failed : Core → Created

infixl 5 ◌>>=◌
abbrev pub ◌>>=◌ : Created → (Core → Created) → Created
created c >>= f = f c
failed c >>= f = failed c

pub data Component : Type 0 where
  logger metrics pprof playback rtsp rtsps rtmp rtmps hls webrtc srt api : Component

-- `if enabled && slot == nil`: the instance that is then created, or the slot as it is.
unfoldable pub filled : {S : Type 0} → Bool → S → ℕ → Slot S → Slot S
filled enabled w n (some i) = some i
filled enabled w n none = if enabled then some (record { id = n; settings = w }) else none

-- The next number.
unfoldable pub bumped : {S : Type 0} → Bool → ℕ → Slot S → ℕ
bumped enabled n (some i) = n
bumped enabled n none = if enabled then suc n else n

-- Whether an instance that is created starts.
unfoldable pub starting : {S : Type 0} → Bool → Bool → Slot S → Core → Core → Created
starting ok enabled (some i) c d = created d
starting ok enabled none c d = if enabled && not ok then failed c else created d

unfoldable pub no_tls : Encryption → Bool
no_tls no_encryption = true
no_tls optional_encryption = true
no_tls strict_encryption = false

unfoldable pub with_tls : Encryption → Bool
with_tls no_encryption = false
with_tls optional_encryption = true
with_tls strict_encryption = true

unfoldable pub sources_of : Core → ApiSources
sources_of c = record {
  path_manager = id_of c.path_manager;
  rtsp_server = id_of c.rtsp_server;
  rtsps_server = id_of c.rtsps_server;
  rtmp_server = id_of c.rtmp_server;
  rtmps_server = id_of c.rtmps_server;
  hls_server = id_of c.hls_server;
  webrtc_server = id_of c.webrtc_server;
  srt_server = id_of c.srt_server;
}

unfoldable pub with_logger : Core → Core
unfolding filled bumped logger_settings
with_logger c = record c {
  logger = filled true (logger_settings c.conf) c.next_id c.logger;
  next_id = bumped true c.next_id c.logger;
}

unfoldable pub with_auth_manager : Core → Core
unfolding filled bumped auth_settings
with_auth_manager c = record c {
  auth_manager = filled true (auth_settings c.conf) c.next_id c.auth_manager;
  next_id = bumped true c.next_id c.auth_manager;
}

unfoldable pub with_metrics : Core → Core
unfolding filled bumped http_settings
with_metrics c = record c {
  metrics =
      filled c.conf.metrics (http_settings c.conf.metrics_http c.conf (id_of c.auth_manager))
        c.next_id c.metrics;
  next_id = bumped c.conf.metrics c.next_id c.metrics;
}

unfoldable pub with_pprof : Core → Core
unfolding filled bumped http_settings
with_pprof c = record c {
  pprof =
      filled c.conf.pprof (http_settings c.conf.pprof_http c.conf (id_of c.auth_manager)) c.next_id
        c.pprof;
  next_id = bumped c.conf.pprof c.next_id c.pprof;
}

unfoldable pub with_record_cleaner : Core → Core
unfolding filled bumped at_least_one_record_delete_after
with_record_cleaner c = record c {
  record_cleaner =
      filled (at_least_one_record_delete_after c.conf.paths) (c.conf.paths) c.next_id
        c.record_cleaner;
  next_id = bumped (at_least_one_record_delete_after c.conf.paths) c.next_id c.record_cleaner;
}

unfoldable pub with_playback_server : Core → Core
unfolding filled bumped playback_settings
with_playback_server c = record c {
  playback_server =
      filled c.conf.playback (playback_settings c.conf (id_of c.auth_manager)) c.next_id
        c.playback_server;
  next_id = bumped c.conf.playback c.next_id c.playback_server;
}

unfoldable pub with_path_manager : Core → Core
unfolding filled bumped path_manager_settings
with_path_manager c = record c {
  path_manager =
      filled true (path_manager_settings c.conf (id_of c.auth_manager) (id_of c.metrics)) c.next_id
        c.path_manager;
  next_id = bumped true c.next_id c.path_manager;
}

unfoldable pub with_rtsp_server : Core → Core
unfolding filled bumped rtsp_settings no_tls
with_rtsp_server c = record c {
  rtsp_server =
      filled (c.conf.rtsp && no_tls c.conf.rtsp_encryption)
        (rtsp_settings c.conf (id_of c.metrics) (id_of c.path_manager)) c.next_id c.rtsp_server;
  next_id = bumped (c.conf.rtsp && no_tls c.conf.rtsp_encryption) c.next_id c.rtsp_server;
}

unfoldable pub with_rtsps_server : Core → Core
unfolding filled bumped rtsps_settings with_tls
with_rtsps_server c = record c {
  rtsps_server =
      filled (c.conf.rtsp && with_tls c.conf.rtsp_encryption)
        (rtsps_settings c.conf (id_of c.metrics) (id_of c.path_manager)) c.next_id c.rtsps_server;
  next_id = bumped (c.conf.rtsp && with_tls c.conf.rtsp_encryption) c.next_id c.rtsps_server;
}

unfoldable pub with_rtmp_server : Core → Core
unfolding filled bumped rtmp_settings no_tls
with_rtmp_server c = record c {
  rtmp_server =
      filled (c.conf.rtmp && no_tls c.conf.rtmp_encryption)
        (rtmp_settings c.conf (id_of c.metrics) (id_of c.path_manager)) c.next_id c.rtmp_server;
  next_id = bumped (c.conf.rtmp && no_tls c.conf.rtmp_encryption) c.next_id c.rtmp_server;
}

unfoldable pub with_rtmps_server : Core → Core
unfolding filled bumped rtmps_settings with_tls
with_rtmps_server c = record c {
  rtmps_server =
      filled (c.conf.rtmp && with_tls c.conf.rtmp_encryption)
        (rtmps_settings c.conf (id_of c.metrics) (id_of c.path_manager)) c.next_id c.rtmps_server;
  next_id = bumped (c.conf.rtmp && with_tls c.conf.rtmp_encryption) c.next_id c.rtmps_server;
}

unfoldable pub with_hls_server : Core → Core
unfolding filled bumped hls_settings
with_hls_server c = record c {
  hls_server =
      filled c.conf.hls (hls_settings c.conf (id_of c.metrics) (id_of c.path_manager)) c.next_id
        c.hls_server;
  next_id = bumped c.conf.hls c.next_id c.hls_server;
}

unfoldable pub with_webrtc_server : Core → Core
unfolding filled bumped webrtc_settings
with_webrtc_server c = record c {
  webrtc_server =
      filled c.conf.webrtc (webrtc_settings c.conf (id_of c.metrics) (id_of c.path_manager))
        c.next_id c.webrtc_server;
  next_id = bumped c.conf.webrtc c.next_id c.webrtc_server;
}

unfoldable pub with_srt_server : Core → Core
unfolding filled bumped srt_settings
with_srt_server c = record c {
  srt_server =
      filled c.conf.srt (srt_settings c.conf (id_of c.metrics) (id_of c.path_manager)) c.next_id
        c.srt_server;
  next_id = bumped c.conf.srt c.next_id c.srt_server;
}

unfoldable pub with_api : Core → Core
unfolding filled bumped api_settings sources_of
with_api c = record c {
  api =
      filled c.conf.api (api_settings c.conf (id_of c.auth_manager) (sources_of c)) c.next_id c.api;
  next_id = bumped c.conf.api c.next_id c.api;
}
