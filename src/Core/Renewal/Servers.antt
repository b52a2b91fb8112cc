-- ===== src/Core/Renewal/Servers.antt =====
-- The streaming servers, one by one.
use plux_mtx.Base.{Bool, false, ◌≡◌, ◌&&◌}
use plux_mtx.Core.Conf.{Conf, Users-Comparable, PathConfs-Comparable}
use plux_mtx.Core.Settings.{rtsp_settings, rtsps_settings}
use plux_mtx.Core.Servers.{
  rtmp_settings, rtmps_settings, hls_settings, webrtc_settings, srt_settings,
}
use plux_mtx.Core.Closes.{
  close_rtsp_server, close_rtsps_server, close_rtmp_server, close_rtmps_server, close_hls_server,
  close_webrtc_server, close_srt_server,
}
use plux_mtx.Core.State.{Core, id_of, no_tls, with_tls}
use plux_mtx.Core.Reload.{close_resources}
use plux_mtx.Core.Fresh.{Fresh, renewed}
use plux_mtx.Core.Same.{
  compared_rtsps, IsShared, rtsp_same, rtsps_same, rtmp_same, rtmps_same, hls_same, webrtc_same,
  srt_same,
}
use plux_mtx.Core.Current.{IsRest, IsFilled}
use plux_mtx.Core.Renewal.Managers.{closed_core, metrics_renewed, path_manager_renewed}

module _ (new : Conf) (by_api : Bool) (c d : Core)
    (shared : IsShared new.rtsp_udp_read_buffer_size c.conf.rtsp_udp_read_buffer_size)
    (v : IsRest c.conf c) (f : IsFilled (closed_core new by_api c) d) where
  pub rtsp_server_renewed :
      Fresh
        (λ s. s)
        (new.rtsp && no_tls new.rtsp_encryption)
        (rtsp_settings new (id_of d.metrics) (id_of d.path_manager))
        d.rtsp_server
      × (close_rtsp_server new c.conf ≡ false → id_of d.rtsp_server ≡ id_of c.rtsp_server)
  unfolding close_resources
  rtsp_server_renewed =
      let (n, e) = f.rtsp_server in
      renewed (λ s. s) (close_rtsp_server new c.conf) (new.rtsp && no_tls new.rtsp_encryption)
        (c.conf.rtsp && no_tls c.conf.rtsp_encryption)
        (rtsp_settings new (id_of d.metrics) (id_of d.path_manager))
        (rtsp_settings c.conf (id_of c.metrics) (id_of c.path_manager)) n c.rtsp_server
        d.rtsp_server e v.rtsp_server
        (rtsp_same new c.conf (id_of d.metrics) (id_of c.metrics) (id_of d.path_manager)
          (id_of c.path_manager) (metrics_renewed new by_api c d v f).1
          (path_manager_renewed new by_api c d v f).1 shared)

  pub rtsps_server_renewed :
      Fresh compared_rtsps
        (new.rtsp && with_tls new.rtsp_encryption)
        (rtsps_settings new (id_of d.metrics) (id_of d.path_manager))
        d.rtsps_server
      × (close_rtsps_server new c.conf ≡ false → id_of d.rtsps_server ≡ id_of c.rtsps_server)
  unfolding close_resources
  rtsps_server_renewed =
      let (n, e) = f.rtsps_server in
      renewed compared_rtsps (close_rtsps_server new c.conf)
        (new.rtsp && with_tls new.rtsp_encryption) (c.conf.rtsp && with_tls c.conf.rtsp_encryption)
        (rtsps_settings new (id_of d.metrics) (id_of d.path_manager))
        (rtsps_settings c.conf (id_of c.metrics) (id_of c.path_manager)) n c.rtsps_server
        d.rtsps_server e v.rtsps_server
        (rtsps_same new c.conf (id_of d.metrics) (id_of c.metrics) (id_of d.path_manager)
          (id_of c.path_manager) (metrics_renewed new by_api c d v f).1
          (path_manager_renewed new by_api c d v f).1 shared)

  pub rtmp_server_renewed :
      Fresh
        (λ s. s)
        (new.rtmp && no_tls new.rtmp_encryption)
        (rtmp_settings new (id_of d.metrics) (id_of d.path_manager))
        d.rtmp_server
      × (close_rtmp_server new c.conf ≡ false → id_of d.rtmp_server ≡ id_of c.rtmp_server)
  unfolding close_resources
  rtmp_server_renewed =
      let (n, e) = f.rtmp_server in
      renewed (λ s. s) (close_rtmp_server new c.conf) (new.rtmp && no_tls new.rtmp_encryption)
        (c.conf.rtmp && no_tls c.conf.rtmp_encryption)
        (rtmp_settings new (id_of d.metrics) (id_of d.path_manager))
        (rtmp_settings c.conf (id_of c.metrics) (id_of c.path_manager)) n c.rtmp_server
        d.rtmp_server e v.rtmp_server
        (rtmp_same new c.conf (id_of d.metrics) (id_of c.metrics) (id_of d.path_manager)
          (id_of c.path_manager) (metrics_renewed new by_api c d v f).1
          (path_manager_renewed new by_api c d v f).1)

  pub rtmps_server_renewed :
      Fresh
        (λ s. s)
        (new.rtmp && with_tls new.rtmp_encryption)
        (rtmps_settings new (id_of d.metrics) (id_of d.path_manager))
        d.rtmps_server
      × (close_rtmps_server new c.conf ≡ false → id_of d.rtmps_server ≡ id_of c.rtmps_server)
  unfolding close_resources
  rtmps_server_renewed =
      let (n, e) = f.rtmps_server in
      renewed (λ s. s) (close_rtmps_server new c.conf) (new.rtmp && with_tls new.rtmp_encryption)
        (c.conf.rtmp && with_tls c.conf.rtmp_encryption)
        (rtmps_settings new (id_of d.metrics) (id_of d.path_manager))
        (rtmps_settings c.conf (id_of c.metrics) (id_of c.path_manager)) n c.rtmps_server
        d.rtmps_server e v.rtmps_server
        (rtmps_same new c.conf (id_of d.metrics) (id_of c.metrics) (id_of d.path_manager)
          (id_of c.path_manager) (metrics_renewed new by_api c d v f).1
          (path_manager_renewed new by_api c d v f).1)

  pub hls_server_renewed :
      Fresh
        (λ s. s)
        new.hls
        (hls_settings new (id_of d.metrics) (id_of d.path_manager))
        d.hls_server
      × (close_hls_server new c.conf ≡ false → id_of d.hls_server ≡ id_of c.hls_server)
  unfolding close_resources
  hls_server_renewed =
      let (n, e) = f.hls_server in
      renewed (λ s. s) (close_hls_server new c.conf) new.hls c.conf.hls
        (hls_settings new (id_of d.metrics) (id_of d.path_manager))
        (hls_settings c.conf (id_of c.metrics) (id_of c.path_manager)) n c.hls_server d.hls_server e
        v.hls_server
        (hls_same new c.conf (id_of d.metrics) (id_of c.metrics) (id_of d.path_manager)
          (id_of c.path_manager) (metrics_renewed new by_api c d v f).1
          (path_manager_renewed new by_api c d v f).1)

  pub webrtc_server_renewed :
      Fresh
        (λ s. s)
        new.webrtc
        (webrtc_settings new (id_of d.metrics) (id_of d.path_manager))
        d.webrtc_server
      × (close_webrtc_server new c.conf ≡ false → id_of d.webrtc_server ≡ id_of c.webrtc_server)
  unfolding close_resources
  webrtc_server_renewed =
      let (n, e) = f.webrtc_server in
      renewed (λ s. s) (close_webrtc_server new c.conf) new.webrtc c.conf.webrtc
        (webrtc_settings new (id_of d.metrics) (id_of d.path_manager))
        (webrtc_settings c.conf (id_of c.metrics) (id_of c.path_manager)) n c.webrtc_server
        d.webrtc_server e v.webrtc_server
        (webrtc_same new c.conf (id_of d.metrics) (id_of c.metrics) (id_of d.path_manager)
          (id_of c.path_manager) (metrics_renewed new by_api c d v f).1
          (path_manager_renewed new by_api c d v f).1)

  pub srt_server_renewed :
      Fresh
        (λ s. s)
        new.srt
        (srt_settings new (id_of d.metrics) (id_of d.path_manager))
        d.srt_server
      × (close_srt_server new c.conf ≡ false → id_of d.srt_server ≡ id_of c.srt_server)
  unfolding close_resources
  srt_server_renewed =
      let (n, e) = f.srt_server in
      renewed (λ s. s) (close_srt_server new c.conf) new.srt c.conf.srt
        (srt_settings new (id_of d.metrics) (id_of d.path_manager))
        (srt_settings c.conf (id_of c.metrics) (id_of c.path_manager)) n c.srt_server d.srt_server e
        v.srt_server
        (srt_same new c.conf (id_of d.metrics) (id_of c.metrics) (id_of d.path_manager)
          (id_of c.path_manager) (metrics_renewed new by_api c d v f).1
          (path_manager_renewed new by_api c d v f).1)
