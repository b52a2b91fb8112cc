-- ===== src/Core/Current.antt =====
-- What the instances of a core are when nothing is out of date.
use plux_mtx.Base.{ℕ, true, ◌≡◌, refl, ◌&&◌}
use plux_mtx.Core.Conf.{Conf}
use plux_mtx.Core.Settings.{
  logger_settings, auth_settings, http_settings, playback_settings, path_manager_settings,
  rtsp_settings, rtsps_settings,
}
use plux_mtx.Core.Servers.{
  rtmp_settings, rtmps_settings, hls_settings, webrtc_settings, srt_settings, api_settings,
}
use plux_mtx.Core.Closes.{at_least_one_record_delete_after}
use plux_mtx.Core.State.{
  Core, id_of, no_tls, with_tls, sources_of, filled, with_logger, with_auth_manager, with_metrics,
  with_pprof, with_record_cleaner, with_playback_server, with_path_manager, with_rtsp_server,
  with_rtsps_server, with_rtmp_server, with_rtmps_server, with_hls_server, with_webrtc_server,
  with_srt_server, with_api,
}
use plux_mtx.Core.Fresh.{Fresh}
use plux_mtx.Core.Same.{compared_rtsps, compared_api, connected_api}

-- Every component but the API runs exactly if the configuration `k` enables it, with its settings, and is
-- connected to the instances that run. The ports of the encrypted RTSP server are left out.
pub record IsRest (k : Conf) (c : Core) : Type 0 where
  pub logger : Fresh (λ s. s) true (logger_settings k) c.logger
  pub auth_manager : Fresh (λ s. s) true (auth_settings k) c.auth_manager
  pub metrics :
      Fresh (λ s. s) k.metrics (http_settings k.metrics_http k (id_of c.auth_manager)) c.metrics
  pub pprof : Fresh (λ s. s) k.pprof (http_settings k.pprof_http k (id_of c.auth_manager)) c.pprof
  pub record_cleaner :
      Fresh (λ s. s) (at_least_one_record_delete_after k.paths) k.paths c.record_cleaner
  pub playback_server :
      Fresh (λ s. s) k.playback (playback_settings k (id_of c.auth_manager)) c.playback_server
  pub path_manager :
      Fresh
        (λ s. s)
        true
        (path_manager_settings k (id_of c.auth_manager) (id_of c.metrics))
        c.path_manager
  pub rtsp_server :
      Fresh
        (λ s. s)
        (k.rtsp && no_tls k.rtsp_encryption)
        (rtsp_settings k (id_of c.metrics) (id_of c.path_manager))
        c.rtsp_server
  pub rtsps_server :
      Fresh compared_rtsps
        (k.rtsp && with_tls k.rtsp_encryption)
        (rtsps_settings k (id_of c.metrics) (id_of c.path_manager))
        c.rtsps_server
  pub rtmp_server :
      Fresh
        (λ s. s)
        (k.rtmp && no_tls k.rtmp_encryption)
        (rtmp_settings k (id_of c.metrics) (id_of c.path_manager))
        c.rtmp_server
  pub rtmps_server :
      Fresh
        (λ s. s)
        (k.rtmp && with_tls k.rtmp_encryption)
        (rtmps_settings k (id_of c.metrics) (id_of c.path_manager))
        c.rtmps_server
  pub hls_server :
      Fresh (λ s. s) k.hls (hls_settings k (id_of c.metrics) (id_of c.path_manager)) c.hls_server
  pub webrtc_server :
      Fresh
        (λ s. s)
        k.webrtc
        (webrtc_settings k (id_of c.metrics) (id_of c.path_manager))
        c.webrtc_server
  pub srt_server :
      Fresh (λ s. s) k.srt (srt_settings k (id_of c.metrics) (id_of c.path_manager)) c.srt_server

-- The same of the API, with its copy of the configuration, but for the encrypted RTMP server that it
-- answers about.
abbrev pub IsApiCurrent : Conf → Core → Type 0
IsApiCurrent k c =
    Fresh compared_api k.api (api_settings k (id_of c.auth_manager) (sources_of c)) c.api

-- The same without its copy of the configuration.
abbrev pub IsApiConnected : Conf → Core → Type 0
IsApiConnected k c =
    Fresh connected_api k.api (api_settings k (id_of c.auth_manager) (sources_of c)) c.api

abbrev pub IsConnected : Core → Type 0
IsConnected c = IsRest c.conf c × IsApiConnected c.conf c

abbrev pub IsCurrent : Core → Type 0
IsCurrent c = IsRest c.conf c × IsApiCurrent c.conf c

-- The slots of `d` are those of `c`, filled where they were empty and the component is enabled.
pub record IsFilled (c d : Core) : Type 0 where
  pub same_conf : d.conf ≡ c.conf
  pub logger : (n : ℕ) × (d.logger ≡ filled true (logger_settings c.conf) n c.logger)
  pub auth_manager :
      (n : ℕ) × (d.auth_manager ≡ filled true (auth_settings c.conf) n c.auth_manager)
  pub metrics :
      (n : ℕ) × (d.metrics
        ≡ filled c.conf.metrics
            (http_settings c.conf.metrics_http c.conf (id_of d.auth_manager))
            n
            c.metrics)
  pub pprof :
      (n : ℕ) × (d.pprof
        ≡ filled c.conf.pprof
            (http_settings c.conf.pprof_http c.conf (id_of d.auth_manager))
            n
            c.pprof)
  pub record_cleaner :
      (n : ℕ) × (d.record_cleaner
        ≡ filled (at_least_one_record_delete_after c.conf.paths) c.conf.paths n c.record_cleaner)
  pub playback_server :
      (n : ℕ) × (d.playback_server
        ≡ filled c.conf.playback
            (playback_settings c.conf (id_of d.auth_manager))
            n
            c.playback_server)
  pub path_manager :
      (n : ℕ) × (d.path_manager
        ≡ filled true
            (path_manager_settings c.conf (id_of d.auth_manager) (id_of d.metrics))
            n
            c.path_manager)
  pub rtsp_server :
      (n : ℕ) × (d.rtsp_server
        ≡ filled
            (c.conf.rtsp && no_tls c.conf.rtsp_encryption)
            (rtsp_settings c.conf (id_of d.metrics) (id_of d.path_manager))
            n
            c.rtsp_server)
  pub rtsps_server :
      (n : ℕ) × (d.rtsps_server
        ≡ filled
            (c.conf.rtsp && with_tls c.conf.rtsp_encryption)
            (rtsps_settings c.conf (id_of d.metrics) (id_of d.path_manager))
            n
            c.rtsps_server)
  pub rtmp_server :
      (n : ℕ) × (d.rtmp_server
        ≡ filled
            (c.conf.rtmp && no_tls c.conf.rtmp_encryption)
            (rtmp_settings c.conf (id_of d.metrics) (id_of d.path_manager))
            n
            c.rtmp_server)
  pub rtmps_server :
      (n : ℕ) × (d.rtmps_server
        ≡ filled
            (c.conf.rtmp && with_tls c.conf.rtmp_encryption)
            (rtmps_settings c.conf (id_of d.metrics) (id_of d.path_manager))
            n
            c.rtmps_server)
  pub hls_server :
      (n : ℕ) × (d.hls_server
        ≡ filled c.conf.hls
            (hls_settings c.conf (id_of d.metrics) (id_of d.path_manager))
            n
            c.hls_server)
  pub webrtc_server :
      (n : ℕ) × (d.webrtc_server
        ≡ filled c.conf.webrtc
            (webrtc_settings c.conf (id_of d.metrics) (id_of d.path_manager))
            n
            c.webrtc_server)
  pub srt_server :
      (n : ℕ) × (d.srt_server
        ≡ filled c.conf.srt
            (srt_settings c.conf (id_of d.metrics) (id_of d.path_manager))
            n
            c.srt_server)
  pub api :
      (n : ℕ) × (d.api
        ≡ filled c.conf.api (api_settings c.conf (id_of d.auth_manager) (sources_of d)) n c.api)

abbrev pub all_filled : Core → Core
all_filled c =
    (with_api (
      with_srt_server (
        with_webrtc_server (
          with_hls_server (
            with_rtmps_server (
              with_rtmp_server (
                with_rtsps_server (
                  with_rtsp_server (
                    with_path_manager (
                      with_playback_server (
                        with_record_cleaner
                          (with_pprof (with_metrics (with_auth_manager (with_logger c)))))))))))))))

pub all_filled-IsFilled : (c : Core) → IsFilled c (all_filled c)
unfolding with_logger with_auth_manager with_metrics with_pprof with_record_cleaner
    with_playback_server with_path_manager with_rtsp_server with_rtsps_server with_rtmp_server
    with_rtmps_server with_hls_server with_webrtc_server with_srt_server with_api
all_filled-IsFilled c = record {
  same_conf = refl;
  logger = (_, refl);
  auth_manager = (_, refl);
  metrics = (_, refl);
  pprof = (_, refl);
  record_cleaner = (_, refl);
  playback_server = (_, refl);
  path_manager = (_, refl);
  rtsp_server = (_, refl);
  rtsps_server = (_, refl);
  rtmp_server = (_, refl);
  rtmps_server = (_, refl);
  hls_server = (_, refl);
  webrtc_server = (_, refl);
  srt_server = (_, refl);
  api = (_, refl);
}
