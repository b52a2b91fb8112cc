-- ===== src/Core/Closes.antt =====
-- internal/core/core.go: the first half of closeResources, which components a new configuration
-- makes it close. `none` is the configuration of a shutdown.
use plux_mtx.Base.{Bool, false, ◌||◌, not, ◌==◌, [], ◌∷◌}
use plux_mtx.Base.Equality.{
  differs, Bool-Comparable, ℕ-Comparable, String-Comparable, List-String-Comparable,
  List-ℕ-Comparable,
}
use plux_mtx.Conf.Find.{PathConfs}
use plux_mtx.Core.Conf.{
  Conf, pointer_differs, http_differs, Method-Comparable, Permissions-Comparable,
  Encryption-Comparable,
}

unfoldable pub at_least_one_record_delete_after : PathConfs → Bool
at_least_one_record_delete_after [] = false
at_least_one_record_delete_after ((k, c) ∷ confs) =
    not (c.record_delete_after == 0) || at_least_one_record_delete_after confs

module _ (new old : Conf) where
  -- Comparisons that several of the conditions have.
  unfoldable pub hooks_differ : Bool
  hooks_differ =
      differs new.run_on_connect old.run_on_connect
      || differs new.run_on_connect_restart old.run_on_connect_restart
      || differs new.run_on_disconnect old.run_on_disconnect

  unfoldable pub rtsp_common_differs : Bool
  rtsp_common_differs =
      differs new.rtsp_auth_methods old.rtsp_auth_methods
      || pointer_differs new.rtsp_udp_read_buffer_size old.rtsp_udp_read_buffer_size
      || differs new.udp_read_buffer_size old.udp_read_buffer_size
      || differs new.read_timeout old.read_timeout
      || differs new.write_timeout old.write_timeout
      || differs new.write_queue_size old.write_queue_size
      || differs new.rtsp_address old.rtsp_address
      || differs new.rtsp_transports old.rtsp_transports

  unfoldable pub ice_differs : Bool
  ice_differs =
      differs new.webrtc_local_udp_address old.webrtc_local_udp_address
      || differs new.webrtc_local_tcp_address old.webrtc_local_tcp_address
      || differs new.webrtc_ips_from_interfaces old.webrtc_ips_from_interfaces
      || differs new.webrtc_ips_from_interfaces_list old.webrtc_ips_from_interfaces_list
      || differs new.webrtc_additional_hosts old.webrtc_additional_hosts
      || differs new.webrtc_ice_servers2 old.webrtc_ice_servers2
      || differs new.webrtc_handshake_timeout old.webrtc_handshake_timeout
      || differs new.webrtc_stun_gather_timeout old.webrtc_stun_gather_timeout
      || differs new.webrtc_track_gather_timeout old.webrtc_track_gather_timeout

  unfoldable pub close_logger : Bool
  close_logger =
      differs new.log_level old.log_level
      || differs new.log_destinations old.log_destinations
      || differs new.log_file old.log_file
      || differs new.sys_log_prefix old.sys_log_prefix

  unfoldable pub close_auth_manager : Bool
  close_auth_manager =
      differs new.auth_method old.auth_method
      || differs new.auth_http_address old.auth_http_address
      || differs new.auth_http_exclude old.auth_http_exclude
      || differs new.auth_jwt_jwks old.auth_jwt_jwks
      || differs new.auth_jwt_jwks_fingerprint old.auth_jwt_jwks_fingerprint
      || differs new.auth_jwt_claim_key old.auth_jwt_claim_key
      || differs new.auth_jwt_exclude old.auth_jwt_exclude
      || differs new.auth_jwt_in_http_query old.auth_jwt_in_http_query
      || differs new.read_timeout old.read_timeout

  -- The end of the conditions on the timeouts, the authentication manager and the logger that
  -- metrics, pprof and playback share.
  unfoldable pub close_http : Bool
  close_http =
      differs new.read_timeout old.read_timeout
      || differs new.write_timeout old.write_timeout
      || close_auth_manager
      || close_logger

  unfoldable pub close_metrics : Bool
  close_metrics =
      differs new.metrics old.metrics
      || http_differs new.metrics_http old.metrics_http
      || close_http

  unfoldable pub close_pprof : Bool
  close_pprof =
      differs new.pprof old.pprof || http_differs new.pprof_http old.pprof_http || close_http

  unfoldable pub close_recorder_cleaner : Bool
  close_recorder_cleaner =
      differs (at_least_one_record_delete_after new.paths)
        (at_least_one_record_delete_after old.paths)
      || close_logger

  unfoldable pub close_playback_server : Bool
  close_playback_server =
      differs new.playback old.playback
      || http_differs new.playback_http old.playback_http
      || close_http

  unfoldable pub close_path_manager : Bool
  close_path_manager =
      differs new.log_level old.log_level
      || differs new.rtsp_address old.rtsp_address
      || differs new.read_timeout old.read_timeout
      || differs new.write_timeout old.write_timeout
      || differs new.write_queue_size old.write_queue_size
      || differs new.udp_read_buffer_size old.udp_read_buffer_size
      || differs new.udp_max_payload_size old.udp_max_payload_size
      || differs new.rtsp_encryption old.rtsp_encryption
      || close_metrics
      || close_auth_manager
      || close_logger

  unfoldable pub close_rtsp_server : Bool
  close_rtsp_server =
      differs new.rtsp old.rtsp
      || differs new.rtsp_encryption old.rtsp_encryption
      || rtsp_common_differs
      || differs new.rtp_address old.rtp_address
      || differs new.rtcp_address old.rtcp_address
      || differs new.multicast_ip_range old.multicast_ip_range
      || differs new.multicast_rtp_port old.multicast_rtp_port
      || differs new.multicast_rtcp_port old.multicast_rtcp_port
      || hooks_differ
      || close_metrics
      || close_path_manager
      || close_logger

  unfoldable pub close_rtsps_server : Bool
  close_rtsps_server =
      differs new.rtsp old.rtsp
      || differs new.rtsp_encryption old.rtsp_encryption
      || rtsp_common_differs
      || differs new.rtsps_address old.rtsps_address
      || differs new.rtsp_server_cert old.rtsp_server_cert
      || differs new.rtsp_server_key old.rtsp_server_key
      || hooks_differ
      || close_metrics
      || close_path_manager
      || close_logger

  unfoldable pub close_rtmp_server : Bool
  close_rtmp_server =
      differs new.rtmp old.rtmp
      || differs new.rtmp_encryption old.rtmp_encryption
      || differs new.rtmp_address old.rtmp_address
      || differs new.read_timeout old.read_timeout
      || differs new.write_timeout old.write_timeout
      || differs new.rtsp_address old.rtsp_address
      || hooks_differ
      || close_metrics
      || close_path_manager
      || close_logger

  unfoldable pub close_rtmps_server : Bool
  close_rtmps_server =
      differs new.rtmp old.rtmp
      || differs new.rtmp_encryption old.rtmp_encryption
      || differs new.rtmps_address old.rtmps_address
      || differs new.read_timeout old.read_timeout
      || differs new.write_timeout old.write_timeout
      || differs new.rtmp_server_cert old.rtmp_server_cert
      || differs new.rtmp_server_key old.rtmp_server_key
      || differs new.rtsp_address old.rtsp_address
      || hooks_differ
      || close_metrics
      || close_path_manager
      || close_logger

  unfoldable pub close_hls_server : Bool
  close_hls_server =
      differs new.hls old.hls
      || http_differs new.hls_http old.hls_http
      || differs new.hls_always_remux old.hls_always_remux
      || differs new.hls_variant old.hls_variant
      || differs new.hls_segment_count old.hls_segment_count
      || differs new.hls_segment_duration old.hls_segment_duration
      || differs new.hls_part_duration old.hls_part_duration
      || differs new.hls_segment_max_size old.hls_segment_max_size
      || differs new.hls_directory old.hls_directory
      || differs new.read_timeout old.read_timeout
      || differs new.write_timeout old.write_timeout
      || differs new.hls_muxer_close_after old.hls_muxer_close_after
      || close_path_manager
      || close_metrics
      || close_logger

  unfoldable pub close_webrtc_server : Bool
  close_webrtc_server =
      differs new.webrtc old.webrtc
      || http_differs new.webrtc_http old.webrtc_http
      || differs new.read_timeout old.read_timeout
      || differs new.write_timeout old.write_timeout
      || differs new.udp_read_buffer_size old.udp_read_buffer_size
      || ice_differs
      || close_metrics
      || close_path_manager
      || close_logger

  unfoldable pub close_srt_server : Bool
  close_srt_server =
      differs new.srt old.srt
      || differs new.srt_address old.srt_address
      || differs new.rtsp_address old.rtsp_address
      || differs new.read_timeout old.read_timeout
      || differs new.write_timeout old.write_timeout
      || differs new.udp_max_payload_size old.udp_max_payload_size
      || hooks_differ
      || close_path_manager
      || close_logger

  -- The components of closeAPI that the API answers about.
  unfoldable pub close_sources : Bool
  unfolding close_path_manager close_rtsp_server close_rtsps_server close_rtmp_server
      close_hls_server close_webrtc_server close_srt_server
  close_sources =
      close_path_manager || close_rtsp_server || close_rtsps_server || close_rtmp_server
      || close_hls_server || close_webrtc_server || close_srt_server

  unfoldable pub close_api : Bool
  close_api =
      differs new.api old.api
      || http_differs new.api_http old.api_http
      || differs new.read_timeout old.read_timeout
      || differs new.write_timeout old.write_timeout
      || close_auth_manager
      || close_sources
      || close_logger
