-- ===== src/Core/Same/Servers.antt =====
-- The streaming servers.
use plux_mtx.Base.{ℕ, String, Bool, false, ◌≡◌, refl, ◌&&◌, Option, some, none, arith}
use plux_mtx.Base.Equality.{
  or_same, or_false, same, Bool-Comparable, ℕ-Comparable, String-Comparable, List-String-Comparable,
  List-ℕ-Comparable,
}
use plux_mtx.Core.Conf.{
  http_differs, Conf, Pointer, pointer_differs, Method-Comparable, Permissions-Comparable,
  Encryption-Comparable,
}
use plux_mtx.Core.Settings.{
  RtspSettings, rtsp_settings, rtsps_settings, Hooks, hooks_of, rtsp_read_buffer_size, rtsp_common,
  RtspCommon, rtp_ports,
}
use plux_mtx.Core.Servers.{
  rtmp_settings, rtmps_settings, hls_settings, webrtc_settings, srt_settings, ice_settings,
}
use plux_mtx.Core.Closes.{
  close_logger, close_metrics, close_path_manager, close_rtsp_server, close_rtsps_server,
  close_rtmp_server, close_rtmps_server, close_hls_server, close_webrtc_server, close_srt_server,
  hooks_differ, rtsp_common_differs, ice_differs,
}
use plux_mtx.Core.State.{no_tls, with_tls}
use plux_mtx.Core.Same.Managers.{http_same, path_manager-metrics}

-- Two pointers to the same place see the same number there.
abbrev pub IsShared : Option Pointer → Option Pointer → Type 0
IsShared none q = Unit
IsShared (some p) none = Unit
IsShared (some p) (some q) = p.address ≡ q.address → p.target ≡ q.target

pub pointer_same :
    (n : ℕ) (p q : Option Pointer)
    → IsShared p q
    → pointer_differs p q ≡ false
    → rtsp_read_buffer_size n p ≡ rtsp_read_buffer_size n q
unfolding pointer_differs rtsp_read_buffer_size
pointer_same n none none s h = refl
pointer_same n none (some q) s h = cc
pointer_same n (some p) none s h = cc
pointer_same n (some p) (some q) s h = s (same p.address q.address h)

-- The settings of the encrypted RTSP server without the ports, which closeResources does not compare.
abbrev pub compared_rtsps : RtspSettings → String × RtspCommon × Bool × String × String × Hooks
compared_rtsps s = (s.address, s.common, s.is_tls, s.server_cert, s.server_key, s.hooks)

module _ (new old : Conf) where
  rtsp_common_same :
      IsShared new.rtsp_udp_read_buffer_size old.rtsp_udp_read_buffer_size
      → rtsp_common_differs new old ≡ false
      → (rtsp_common new ≡ rtsp_common old) × (new.rtsp_address ≡ old.rtsp_address)
  unfolding rtsp_common_differs rtsp_common
  rtsp_common_same s h = ground (
    arith,
    pointer_same new.udp_read_buffer_size new.rtsp_udp_read_buffer_size
        old.rtsp_udp_read_buffer_size s,
    same new.rtsp_auth_methods old.rtsp_auth_methods,
    same new.udp_read_buffer_size old.udp_read_buffer_size,
    same new.read_timeout old.read_timeout,
    same new.write_timeout old.write_timeout,
    same new.write_queue_size old.write_queue_size,
    same new.rtsp_address old.rtsp_address,
    same new.rtsp_transports old.rtsp_transports,
  )

  ice_same : ice_differs new old ≡ false → ice_settings new ≡ ice_settings old
  unfolding ice_differs ice_settings
  ice_same h = ground (
    arith,
    same new.webrtc_local_udp_address old.webrtc_local_udp_address,
    same new.webrtc_local_tcp_address old.webrtc_local_tcp_address,
    same new.webrtc_ips_from_interfaces old.webrtc_ips_from_interfaces,
    same new.webrtc_ips_from_interfaces_list old.webrtc_ips_from_interfaces_list,
    same new.webrtc_additional_hosts old.webrtc_additional_hosts,
    same new.webrtc_ice_servers2 old.webrtc_ice_servers2,
    same new.webrtc_handshake_timeout old.webrtc_handshake_timeout,
    same new.webrtc_stun_gather_timeout old.webrtc_stun_gather_timeout,
    same new.webrtc_track_gather_timeout old.webrtc_track_gather_timeout,
  )

module _ (new old : Conf) (m' m n' n : Option ℕ) (metrics : close_metrics new old ≡ false → m' ≡ m)
    (manager : close_path_manager new old ≡ false → n' ≡ n) where
  hooks_same :
      hooks_differ new old ≡ false
      → close_metrics new old ≡ false
      → close_path_manager new old ≡ false
      → hooks_of new m' n' ≡ hooks_of old m n
  unfolding hooks_differ hooks_of
  hooks_same h k l = ground (
    arith,
    metrics,
    manager,
    same new.run_on_connect old.run_on_connect,
    same new.run_on_connect_restart old.run_on_connect_restart,
    same new.run_on_disconnect old.run_on_disconnect,
  )

  pub rtsp_same :
      IsShared new.rtsp_udp_read_buffer_size old.rtsp_udp_read_buffer_size
      → close_rtsp_server new old ≡ false
      → ((new.rtsp && no_tls new.rtsp_encryption) ≡ (old.rtsp && no_tls old.rtsp_encryption))
        × (rtsp_settings new m' n' ≡ rtsp_settings old m n)
  unfolding close_rtsp_server rtsp_settings rtp_ports
  rtsp_same s h = ground (
    arith,
    hooks_same,
    rtsp_common_same new old s,
    same new.rtsp old.rtsp,
    same new.rtsp_encryption old.rtsp_encryption,
    same new.rtp_address old.rtp_address,
    same new.rtcp_address old.rtcp_address,
    same new.multicast_ip_range old.multicast_ip_range,
    same new.multicast_rtp_port old.multicast_rtp_port,
    same new.multicast_rtcp_port old.multicast_rtcp_port,
  )

  pub rtsps_same :
      IsShared new.rtsp_udp_read_buffer_size old.rtsp_udp_read_buffer_size
      → close_rtsps_server new old ≡ false
      → ((new.rtsp && with_tls new.rtsp_encryption) ≡ (old.rtsp && with_tls old.rtsp_encryption))
        × (compared_rtsps (rtsps_settings new m' n') ≡ compared_rtsps (rtsps_settings old m n))
  unfolding close_rtsps_server rtsps_settings
  rtsps_same s h = ground (
    arith,
    hooks_same,
    rtsp_common_same new old s,
    same new.rtsp old.rtsp,
    same new.rtsp_encryption old.rtsp_encryption,
    same new.rtsps_address old.rtsps_address,
    same new.rtsp_server_cert old.rtsp_server_cert,
    same new.rtsp_server_key old.rtsp_server_key,
  )

  pub rtmp_same :
      close_rtmp_server new old ≡ false
      → ((new.rtmp && no_tls new.rtmp_encryption) ≡ (old.rtmp && no_tls old.rtmp_encryption))
        × (rtmp_settings new m' n' ≡ rtmp_settings old m n)
  unfolding close_rtmp_server rtmp_settings
  rtmp_same h = ground (
    arith,
    hooks_same,
    same new.rtmp old.rtmp,
    same new.rtmp_encryption old.rtmp_encryption,
    same new.rtmp_address old.rtmp_address,
    same new.read_timeout old.read_timeout,
    same new.write_timeout old.write_timeout,
    same new.rtsp_address old.rtsp_address,
  )

  pub rtmps_same :
      close_rtmps_server new old ≡ false
      → ((new.rtmp && with_tls new.rtmp_encryption) ≡ (old.rtmp && with_tls old.rtmp_encryption))
        × (rtmps_settings new m' n' ≡ rtmps_settings old m n)
  unfolding close_rtmps_server rtmps_settings
  rtmps_same h = ground (
    arith,
    hooks_same,
    same new.rtmp old.rtmp,
    same new.rtmp_encryption old.rtmp_encryption,
    same new.rtmps_address old.rtmps_address,
    same new.read_timeout old.read_timeout,
    same new.write_timeout old.write_timeout,
    same new.rtmp_server_cert old.rtmp_server_cert,
    same new.rtmp_server_key old.rtmp_server_key,
    same new.rtsp_address old.rtsp_address,
  )

  pub hls_same :
      close_hls_server new old ≡ false
      → (new.hls ≡ old.hls) × (hls_settings new m' n' ≡ hls_settings old m n)
  unfolding close_hls_server hls_settings
  hls_same h =
      let (h15, k15) = or_false _ (close_logger new old) h in
      let (h14, k14) = or_false _ (close_metrics new old) h15 in
      let (h13, k13) = or_false _ (close_path_manager new old) h14 in
      let (h12, e12) = or_same _ new.hls_muxer_close_after old.hls_muxer_close_after h13 in
      let (h11, e11) = or_same _ new.write_timeout old.write_timeout h12 in
      let (h10, e10) = or_same _ new.read_timeout old.read_timeout h11 in
      let (h9, e9) = or_same _ new.hls_directory old.hls_directory h10 in
      let (h8, e8) = or_same _ new.hls_segment_max_size old.hls_segment_max_size h9 in
      let (h7, e7) = or_same _ new.hls_part_duration old.hls_part_duration h8 in
      let (h6, e6) = or_same _ new.hls_segment_duration old.hls_segment_duration h7 in
      let (h5, e5) = or_same _ new.hls_segment_count old.hls_segment_count h6 in
      let (h4, e4) = or_same _ new.hls_variant old.hls_variant h5 in
      let (h3, e3) = or_same _ new.hls_always_remux old.hls_always_remux h4 in
      let (h2, k2) = or_false _ (http_differs new.hls_http old.hls_http) h3 in
      (
        same new.hls old.hls h2,
        cc (
          http_same new.hls_http old.hls_http k2,
          e3,
          e4,
          e5,
          e6,
          e7,
          e8,
          e9,
          e10,
          e11,
          e12,
          manager k13,
          metrics k14,
        ),
      )

  pub webrtc_same :
      close_webrtc_server new old ≡ false
      → (new.webrtc ≡ old.webrtc) × (webrtc_settings new m' n' ≡ webrtc_settings old m n)
  unfolding close_webrtc_server webrtc_settings
  webrtc_same h =
      let (h9, k9) = or_false _ (close_logger new old) h in
      let (h8, k8) = or_false _ (close_path_manager new old) h9 in
      let (h7, k7) = or_false _ (close_metrics new old) h8 in
      let (h6, k6) = or_false _ (ice_differs new old) h7 in
      let (h5, e5) = or_same _ new.udp_read_buffer_size old.udp_read_buffer_size h6 in
      let (h4, e4) = or_same _ new.write_timeout old.write_timeout h5 in
      let (h3, e3) = or_same _ new.read_timeout old.read_timeout h4 in
      let (h2, k2) = or_false _ (http_differs new.webrtc_http old.webrtc_http) h3 in
      (
        same new.webrtc old.webrtc h2,
        cc (
          http_same new.webrtc_http old.webrtc_http k2,
          e3,
          e4,
          e5,
          ice_same new old k6,
          metrics k7,
          manager k8,
        ),
      )

  pub srt_same :
      close_srt_server new old ≡ false
      → (new.srt ≡ old.srt) × (srt_settings new m' n' ≡ srt_settings old m n)
  unfolding close_srt_server srt_settings
  srt_same h = ground (
    arith,
    hooks_same,
    path_manager-metrics new old,
    same new.srt old.srt,
    same new.srt_address old.srt_address,
    same new.rtsp_address old.rtsp_address,
    same new.read_timeout old.read_timeout,
    same new.write_timeout old.write_timeout,
    same new.udp_max_payload_size old.udp_max_payload_size,
  )
