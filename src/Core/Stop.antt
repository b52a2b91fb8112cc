-- ===== src/Core/Stop.antt =====
-- The core once it has ended: nothing runs.
use plux_mtx.Base.{◌≡◌, refl, none}
use plux_mtx.Core.State.{Core}
use plux_mtx.Core.Reload.{close_all}

pub record IsStopped (c : Core) : Type 0 where
  pub logger : c.logger ≡ none
  pub auth_manager : c.auth_manager ≡ none
  pub metrics : c.metrics ≡ none
  pub pprof : c.pprof ≡ none
  pub record_cleaner : c.record_cleaner ≡ none
  pub playback_server : c.playback_server ≡ none
  pub path_manager : c.path_manager ≡ none
  pub rtsp_server : c.rtsp_server ≡ none
  pub rtsps_server : c.rtsps_server ≡ none
  pub rtmp_server : c.rtmp_server ≡ none
  pub rtmps_server : c.rtmps_server ≡ none
  pub hls_server : c.hls_server ≡ none
  pub webrtc_server : c.webrtc_server ≡ none
  pub srt_server : c.srt_server ≡ none
  pub api : c.api ≡ none

pub close_all-IsStopped : (c : Core) → IsStopped (close_all c)
unfolding close_all
close_all-IsStopped c = record {
  logger = refl;
  auth_manager = refl;
  metrics = refl;
  pprof = refl;
  record_cleaner = refl;
  playback_server = refl;
  path_manager = refl;
  rtsp_server = refl;
  rtsps_server = refl;
  rtmp_server = refl;
  rtmps_server = refl;
  hls_server = refl;
  webrtc_server = refl;
  srt_server = refl;
  api = refl;
}
