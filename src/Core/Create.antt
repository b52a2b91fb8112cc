-- ===== src/Core/Create.antt =====
-- internal/core/core.go: createResources. Whether Initialize of a component succeeds is `succeeds`, of the
-- component and the number of its instance.
use plux_mtx.Base.{ℕ, Bool, true, ◌&&◌}
use plux_mtx.Core.State.{
  Core, Created, created, ◌>>=◌, Component, starting, no_tls, with_tls, with_api, with_auth_manager,
  with_hls_server, with_logger, with_metrics, with_path_manager, with_playback_server, with_pprof,
  with_record_cleaner, with_rtmp_server, with_rtmps_server, with_rtsp_server, with_rtsps_server,
  with_srt_server, with_webrtc_server,
}

module _ (succeeds : Component → ℕ → Bool) where
  unfoldable pub create_logger : Core → Created
  unfolding starting with_logger
  create_logger c = starting (succeeds Component.logger c.next_id) true c.logger c (with_logger c)

  unfoldable pub create_metrics : Core → Created
  unfolding starting with_metrics
  create_metrics c =
      starting (succeeds Component.metrics c.next_id) c.conf.metrics c.metrics c (with_metrics c)

  unfoldable pub create_pprof : Core → Created
  unfolding starting with_pprof
  create_pprof c =
      starting (succeeds Component.pprof c.next_id) c.conf.pprof c.pprof c (with_pprof c)

  unfoldable pub create_playback_server : Core → Created
  unfolding starting with_playback_server
  create_playback_server c =
      starting (succeeds Component.playback c.next_id) c.conf.playback c.playback_server c
        (with_playback_server c)

  unfoldable pub create_rtsp_server : Core → Created
  unfolding starting with_rtsp_server no_tls
  create_rtsp_server c =
      starting (succeeds Component.rtsp c.next_id) (c.conf.rtsp && no_tls c.conf.rtsp_encryption)
        c.rtsp_server c (with_rtsp_server c)

  unfoldable pub create_rtsps_server : Core → Created
  unfolding starting with_rtsps_server with_tls
  create_rtsps_server c =
      starting (succeeds Component.rtsps c.next_id) (c.conf.rtsp && with_tls c.conf.rtsp_encryption)
        c.rtsps_server c (with_rtsps_server c)

  unfoldable pub create_rtmp_server : Core → Created
  unfolding starting with_rtmp_server no_tls
  create_rtmp_server c =
      starting (succeeds Component.rtmp c.next_id) (c.conf.rtmp && no_tls c.conf.rtmp_encryption)
        c.rtmp_server c (with_rtmp_server c)

  unfoldable pub create_rtmps_server : Core → Created
  unfolding starting with_rtmps_server with_tls
  create_rtmps_server c =
      starting (succeeds Component.rtmps c.next_id) (c.conf.rtmp && with_tls c.conf.rtmp_encryption)
        c.rtmps_server c (with_rtmps_server c)

  unfoldable pub create_hls_server : Core → Created
  unfolding starting with_hls_server
  create_hls_server c =
      starting (succeeds Component.hls c.next_id) c.conf.hls c.hls_server c (with_hls_server c)

  unfoldable pub create_webrtc_server : Core → Created
  unfolding starting with_webrtc_server
  create_webrtc_server c =
      starting (succeeds Component.webrtc c.next_id) c.conf.webrtc c.webrtc_server c
        (with_webrtc_server c)

  unfoldable pub create_srt_server : Core → Created
  unfolding starting with_srt_server
  create_srt_server c =
      starting (succeeds Component.srt c.next_id) c.conf.srt c.srt_server c (with_srt_server c)

  unfoldable pub create_api : Core → Created
  unfolding starting with_api
  create_api c = starting (succeeds Component.api c.next_id) c.conf.api c.api c (with_api c)

  unfoldable pub create_resources : Core → Created
  unfolding create_logger with_auth_manager create_metrics create_pprof with_record_cleaner
      create_playback_server with_path_manager create_rtsp_server create_rtsps_server
      create_rtmp_server create_rtmps_server create_hls_server create_webrtc_server
      create_srt_server create_api
  create_resources c =
      create_logger c
      >>= (λ d. created (with_auth_manager d))
      >>= create_metrics
      >>= create_pprof
      >>= (λ d. created (with_record_cleaner d))
      >>= create_playback_server
      >>= (λ d. created (with_path_manager d))
      >>= create_rtsp_server
      >>= create_rtsps_server
      >>= create_rtmp_server
      >>= create_rtmps_server
      >>= create_hls_server
      >>= create_webrtc_server
      >>= create_srt_server
      >>= create_api
