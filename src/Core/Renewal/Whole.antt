-- ===== src/Core/Renewal/Whole.antt =====
-- All components, and the API that answers about them.
use plux_mtx.Base.{Bool, false, ap, ◌≡◌, ◌∙◌, not}
use plux_mtx.Core.Conf.{Conf, Users-Comparable, PathConfs-Comparable}
use plux_mtx.Core.Servers.{ApiSettings, api_settings}
use plux_mtx.Core.Closes.{close_api}
use plux_mtx.Core.State.{Core, id_of, sources_of}
use plux_mtx.Core.Reload.{close_resources, reloaded, set_conf}
use plux_mtx.Core.Fresh.{Fresh, renewed, reloaded_id}
use plux_mtx.Core.Same.{compared_api, connected_api, IsShared, sources_same, api_same}
use plux_mtx.Core.Current.{IsRest, IsApiCurrent, IsApiConnected, IsFilled}
use plux_mtx.Core.Renewal.Managers.{
  closed_core, logger_renewed, auth_manager_renewed, metrics_renewed, pprof_renewed,
  record_cleaner_renewed, playback_server_renewed, path_manager_renewed,
}
use plux_mtx.Core.Renewal.Servers.{
  rtsp_server_renewed, rtsps_server_renewed, rtmp_server_renewed, rtmps_server_renewed,
  hls_server_renewed, webrtc_server_renewed, srt_server_renewed,
}

module _ (new : Conf) (by_api : Bool) (c d : Core)
    (shared : IsShared new.rtsp_udp_read_buffer_size c.conf.rtsp_udp_read_buffer_size)
    (v : IsRest c.conf c) (f : IsFilled (closed_core new by_api c) d) where
  pub renewed-IsRest : IsRest new d
  renewed-IsRest = record {
    logger = (logger_renewed new by_api c d v f).0;
    auth_manager = (auth_manager_renewed new by_api c d v f).0;
    metrics = (metrics_renewed new by_api c d v f).0;
    pprof = (pprof_renewed new by_api c d v f).0;
    record_cleaner = (record_cleaner_renewed new by_api c d v f).0;
    playback_server = (playback_server_renewed new by_api c d v f).0;
    path_manager = (path_manager_renewed new by_api c d v f).0;
    rtsp_server = (rtsp_server_renewed new by_api c d shared v f).0;
    rtsps_server = (rtsps_server_renewed new by_api c d shared v f).0;
    rtmp_server = (rtmp_server_renewed new by_api c d shared v f).0;
    rtmps_server = (rtmps_server_renewed new by_api c d shared v f).0;
    hls_server = (hls_server_renewed new by_api c d shared v f).0;
    webrtc_server = (webrtc_server_renewed new by_api c d shared v f).0;
    srt_server = (srt_server_renewed new by_api c d shared v f).0;
  }

  -- What closeAPI compares.
  api_compared :
      close_api new c.conf ≡ false
      → (new.api ≡ c.conf.api)
        × (compared_api (api_settings new (id_of d.auth_manager) (sources_of d))
            ≡ compared_api
                (record (api_settings c.conf (id_of c.auth_manager) (sources_of c)) { conf = new }))
  unfolding sources_of
  api_compared =
      api_same new c.conf (id_of d.auth_manager) (id_of c.auth_manager) (sources_of d)
        (sources_of c) (auth_manager_renewed new by_api c d v f).1
        (sources_same new c.conf (sources_of d) (sources_of c)
          (path_manager_renewed new by_api c d v f).1
          (rtsp_server_renewed new by_api c d shared v f).1
          (rtsps_server_renewed new by_api c d shared v f).1
          (rtmp_server_renewed new by_api c d shared v f).1
          (hls_server_renewed new by_api c d shared v f).1
          (webrtc_server_renewed new by_api c d shared v f).1
          (srt_server_renewed new by_api c d shared v f).1)

  -- The API, whose slot after the reload of its configuration is given.
  pub api_renewed :
      Fresh compared_api c.conf.api
        (record (api_settings c.conf (id_of c.auth_manager) (sources_of c)) { conf = new })
        (reloaded (not by_api) (set_conf new) c.api)
      → IsApiCurrent new d × (close_api new c.conf ≡ false → id_of d.api ≡ id_of c.api)
  unfolding close_resources
  api_renewed h =
      let (n, e) = f.api in
      let (v, i) =
        renewed compared_api (close_api new c.conf) new.api c.conf.api
          (api_settings new (id_of d.auth_manager) (sources_of d))
          (record (api_settings c.conf (id_of c.auth_manager) (sources_of c)) { conf = new }) n
          (reloaded (not by_api) (set_conf new) c.api) d.api e h api_compared in
      (v, λ k. i k ∙ reloaded_id (not by_api) (set_conf new) c.api)

  -- The API, whatever configuration it has.
  pub api_reconnected :
      Fresh connected_api c.conf.api
        (api_settings c.conf (id_of c.auth_manager) (sources_of c))
        (reloaded (not by_api) (set_conf new) c.api)
      → IsApiConnected new d
  unfolding close_resources
  api_reconnected h =
      let (n, e) = f.api in
      (renewed connected_api (close_api new c.conf) new.api c.conf.api
        (api_settings new (id_of d.auth_manager) (sources_of d))
        (api_settings c.conf (id_of c.auth_manager) (sources_of c)) n
        (reloaded (not by_api) (set_conf new) c.api) d.api e h
        (λ k.
          let (p, q) = api_compared k in
          (p, ap {A = ApiSettings} (λ s. (s.server, s.sources)) q))).0
