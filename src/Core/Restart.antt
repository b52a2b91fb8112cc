-- ===== src/Core/Restart.antt =====
-- internal/core/core.go: what a reload of other paths and users leaves running.
use plux_mtx.Base.{ℕ, Bool, false, ◌≡◌, refl, sym, Option, some, none, List, subst}
use plux_mtx.Base.Equality.{
  differs_self, Bool-Comparable, ℕ-Comparable, String-Comparable, List-String-Comparable,
  List-ℕ-Comparable,
}
use plux_mtx.Conf.Find.{PathConfs}
use plux_mtx.Auth.State.{User}
use plux_mtx.Core.Conf.{
  Conf, Pointer, pointer_differs, http_differs, HttpConf, Method-Comparable, Permissions-Comparable,
  Encryption-Comparable,
}
use plux_mtx.Core.Closes.{
  close_logger, close_auth_manager, close_metrics, close_pprof, close_playback_server,
  close_path_manager, close_rtsp_server, close_rtsps_server, close_rtmp_server, close_rtmps_server,
  close_hls_server, close_webrtc_server, close_srt_server, close_api, close_sources, hooks_differ,
  rtsp_common_differs, ice_differs, close_http,
}
use plux_mtx.Core.State.{Core, created, Component, id_of}
use plux_mtx.Core.Create.{create_resources}
use plux_mtx.Core.Reload.{reload_conf}
use plux_mtx.Core.Same.{IsShared}
use plux_mtx.Core.Current.{IsCurrent, IsFilled, all_filled, all_filled-IsFilled}
use plux_mtx.Core.Renewal.{
  closed_core, api_renewed, logger_renewed, auth_manager_renewed, metrics_renewed, pprof_renewed,
  playback_server_renewed, path_manager_renewed, rtsp_server_renewed, rtsps_server_renewed,
  rtmp_server_renewed, rtmps_server_renewed, hls_server_renewed, webrtc_server_renewed,
  srt_server_renewed,
}
use plux_mtx.Core.Start.{IfCreated, create_resources-IfCreated}
use plux_mtx.Core.Upkeep.{file_api}

-- The same configuration with other paths and users.
abbrev pub with_paths : PathConfs → List User → Conf → Conf
with_paths ps us c = record c { paths = ps; auth_internal_users = us }

pub http_differs_self : (h : HttpConf) → http_differs h h ≡ false
unfolding http_differs
http_differs_self h = simp (differs_self)

pub pointer_differs_self : (p : Option Pointer) → pointer_differs p p ≡ false
unfolding pointer_differs
pointer_differs_self none = refl
pointer_differs_self (some p) = differs_self p.address

IsShared-self : (p : Option Pointer) → IsShared p p
IsShared-self none = tt
IsShared-self (some p) = λ e. refl

pub created-IsFilled :
    (succeeds : Component → ℕ → Bool) (c d : Core)
    → create_resources succeeds c ≡ created d
    → IsFilled c d
created-IsFilled succeeds c d e =
    let h : d ≡ all_filled c =
      subst (IfCreated (λ x. x ≡ all_filled c)) e (create_resources-IfCreated succeeds c) in
    subst (IsFilled c) (sym h) (all_filled-IsFilled c)

pub ruleset keeping = (differs_self, http_differs_self, pointer_differs_self)

-- None of the conditions holds.
module _ (ps : PathConfs) (us : List User) (c : Conf) where
  logger_stays : close_logger (with_paths ps us c) c ≡ false
  unfolding close_logger
  logger_stays = simp keeping

  auth_manager_stays : close_auth_manager (with_paths ps us c) c ≡ false
  unfolding close_auth_manager
  auth_manager_stays = simp keeping

  metrics_stays : close_metrics (with_paths ps us c) c ≡ false
  unfolding close_metrics close_http close_auth_manager close_logger
  metrics_stays = simp keeping

  pprof_stays : close_pprof (with_paths ps us c) c ≡ false
  unfolding close_pprof close_http close_auth_manager close_logger
  pprof_stays = simp keeping

  playback_server_stays : close_playback_server (with_paths ps us c) c ≡ false
  unfolding close_playback_server close_http close_auth_manager close_logger
  playback_server_stays = simp keeping

  path_manager_stays : close_path_manager (with_paths ps us c) c ≡ false
  unfolding close_path_manager close_metrics close_http close_auth_manager close_logger
  path_manager_stays = simp keeping

  rtsp_server_stays : close_rtsp_server (with_paths ps us c) c ≡ false
  unfolding close_rtsp_server close_path_manager close_metrics close_http close_auth_manager
      close_logger hooks_differ ice_differs rtsp_common_differs
  rtsp_server_stays = simp keeping

  rtsps_server_stays : close_rtsps_server (with_paths ps us c) c ≡ false
  unfolding close_rtsps_server close_path_manager close_metrics close_http close_auth_manager
      close_logger hooks_differ ice_differs rtsp_common_differs
  rtsps_server_stays = simp keeping

  rtmp_server_stays : close_rtmp_server (with_paths ps us c) c ≡ false
  unfolding close_rtmp_server close_path_manager close_metrics close_http close_auth_manager
      close_logger hooks_differ ice_differs rtsp_common_differs
  rtmp_server_stays = simp keeping

  rtmps_server_stays : close_rtmps_server (with_paths ps us c) c ≡ false
  unfolding close_rtmps_server close_path_manager close_metrics close_http close_auth_manager
      close_logger hooks_differ ice_differs rtsp_common_differs
  rtmps_server_stays = simp keeping

  hls_server_stays : close_hls_server (with_paths ps us c) c ≡ false
  unfolding close_hls_server close_path_manager close_metrics close_http close_auth_manager
      close_logger hooks_differ ice_differs rtsp_common_differs
  hls_server_stays = simp keeping

  webrtc_server_stays : close_webrtc_server (with_paths ps us c) c ≡ false
  unfolding close_webrtc_server close_path_manager close_metrics close_http close_auth_manager
      close_logger hooks_differ ice_differs rtsp_common_differs
  webrtc_server_stays = simp keeping

  srt_server_stays : close_srt_server (with_paths ps us c) c ≡ false
  unfolding close_srt_server close_path_manager close_metrics close_http close_auth_manager
      close_logger hooks_differ ice_differs rtsp_common_differs
  srt_server_stays = simp keeping

  api_stays : close_api (with_paths ps us c) c ≡ false
  unfolding close_api close_sources close_rtsp_server close_rtsps_server close_rtmp_server
      close_hls_server close_webrtc_server close_srt_server close_path_manager close_metrics
      close_http close_auth_manager close_logger hooks_differ ice_differs rtsp_common_differs
  api_stays = simp keeping

-- Every component but the record cleaner, which depends on the paths, is the same instance.
pub record HasSameInstances (c d : Core) : Type 0 where
  pub logger : id_of d.logger ≡ id_of c.logger
  pub auth_manager : id_of d.auth_manager ≡ id_of c.auth_manager
  pub metrics : id_of d.metrics ≡ id_of c.metrics
  pub pprof : id_of d.pprof ≡ id_of c.pprof
  pub playback_server : id_of d.playback_server ≡ id_of c.playback_server
  pub path_manager : id_of d.path_manager ≡ id_of c.path_manager
  pub rtsp_server : id_of d.rtsp_server ≡ id_of c.rtsp_server
  pub rtsps_server : id_of d.rtsps_server ≡ id_of c.rtsps_server
  pub rtmp_server : id_of d.rtmp_server ≡ id_of c.rtmp_server
  pub rtmps_server : id_of d.rtmps_server ≡ id_of c.rtmps_server
  pub hls_server : id_of d.hls_server ≡ id_of c.hls_server
  pub webrtc_server : id_of d.webrtc_server ≡ id_of c.webrtc_server
  pub srt_server : id_of d.srt_server ≡ id_of c.srt_server
  pub api : id_of d.api ≡ id_of c.api

-- A reload of a configuration whose paths and users alone have changed restarts none of the components
-- but the record cleaner, the API and the servers included: the pointer to the read buffer size
-- of RTSP has to be the same one.
pub reload_conf-HasSameInstances :
    (succeeds : Component → ℕ → Bool) (ps : PathConfs) (us : List User) (c d : Core)
    → IsCurrent c
    → reload_conf succeeds (with_paths ps us c.conf) false c ≡ created d
    → HasSameInstances c d
unfolding reload_conf
reload_conf-HasSameInstances succeeds ps us c d v e =
    let new : Conf = with_paths ps us c.conf in
    let shared : IsShared new.rtsp_udp_read_buffer_size c.conf.rtsp_udp_read_buffer_size =
      IsShared-self c.conf.rtsp_udp_read_buffer_size in
    let f : IsFilled (closed_core new false c) d =
      created-IsFilled succeeds (closed_core new false c) d e in
    record {
      logger = (logger_renewed new false c d v.0 f).1 (logger_stays ps us c.conf);
      auth_manager = (auth_manager_renewed new false c d v.0 f).1 (auth_manager_stays ps us c.conf);
      metrics = (metrics_renewed new false c d v.0 f).1 (metrics_stays ps us c.conf);
      pprof = (pprof_renewed new false c d v.0 f).1 (pprof_stays ps us c.conf);
      playback_server =
          (playback_server_renewed new false c d v.0 f).1 (playback_server_stays ps us c.conf);
      path_manager = (path_manager_renewed new false c d v.0 f).1 (path_manager_stays ps us c.conf);
      rtsp_server =
          (rtsp_server_renewed new false c d shared v.0 f).1 (rtsp_server_stays ps us c.conf);
      rtsps_server =
          (rtsps_server_renewed new false c d shared v.0 f).1 (rtsps_server_stays ps us c.conf);
      rtmp_server =
          (rtmp_server_renewed new false c d shared v.0 f).1 (rtmp_server_stays ps us c.conf);
      rtmps_server =
          (rtmps_server_renewed new false c d shared v.0 f).1 (rtmps_server_stays ps us c.conf);
      hls_server =
          (hls_server_renewed new false c d shared v.0 f).1 (hls_server_stays ps us c.conf);
      webrtc_server =
          (webrtc_server_renewed new false c d shared v.0 f).1 (webrtc_server_stays ps us c.conf);
      srt_server =
          (srt_server_renewed new false c d shared v.0 f).1 (srt_server_stays ps us c.conf);
      api = (api_renewed new false c d shared v.0 f (file_api new c v)).1 (api_stays ps us c.conf);
    }
