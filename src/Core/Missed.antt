-- ===== src/Core/Missed.antt =====
-- internal/core/core.go: what the conditions of closeResources leave out, and what they ask too much.
use plux_mtx.Base.{ℕ, Bool, true, false, ◌≡◌, ap, ◌∙◌, some, none, String, arith}
use plux_mtx.Base.Equality.{differs, ℕ-Comparable, String-Comparable}
use plux_mtx.Core.Conf.{Conf, Pointer, pointer_differs}
use plux_mtx.Core.Settings.{RtspSettings}
use plux_mtx.Core.Servers.{ApiSettings}
use plux_mtx.Core.Closes.{
  close_logger, close_auth_manager, close_metrics, close_path_manager, close_rtsp_server,
  close_rtsps_server, close_rtmp_server, close_rtmps_server, close_hls_server, close_webrtc_server,
  close_srt_server, close_api, close_sources, hooks_differ, rtsp_common_differs, ice_differs,
  close_http,
}
use plux_mtx.Core.State.{Core, created, Component, Instance, filled}
use plux_mtx.Core.Reload.{close_resources, closed, reloaded, set_conf, reload_conf}
use plux_mtx.Core.Current.{IsFilled}
use plux_mtx.Core.Renewal.{closed_core}
use plux_mtx.Core.Restart.{keeping, created-IsFilled}

-- What the encrypted RTSP server alone is given.
pub record SecurePorts : Type 0 where
  pub srtp_address : String
  pub srtcp_address : String
  pub ip_range : String
  pub srtp_port : ℕ
  pub srtcp_port : ℕ

abbrev pub with_secure_ports : SecurePorts → Conf → Conf
with_secure_ports p c = record c {
  srtp_address = p.srtp_address;
  srtcp_address = p.srtcp_address;
  multicast_ip_range = p.ip_range;
  multicast_srtp_port = p.srtp_port;
  multicast_srtcp_port = p.srtcp_port;
}

abbrev pub with_rtmps_address : String → Conf → Conf
with_rtmps_address a c = record c { rtmps_address = a }

secure_ports-close_false :
    (p : SecurePorts) (c : Conf) → close_rtsps_server (with_secure_ports p c) c ≡ false
unfolding close_rtsps_server close_path_manager close_metrics close_http close_auth_manager
    close_logger hooks_differ rtsp_common_differs
secure_ports-close_false p c = simp keeping

rtmps_address-close_false : (a : String) (c : Conf) → close_api (with_rtmps_address a c) c ≡ false
unfolding close_api close_sources close_rtsp_server close_rtsps_server close_rtmp_server
    close_hls_server close_webrtc_server close_srt_server close_path_manager close_metrics
    close_http close_auth_manager close_logger hooks_differ ice_differs rtsp_common_differs
rtmps_address-close_false a c = simp keeping

rtmps_address-close :
    (a : String) (c : Conf)
    → differs a c.rtmps_address ≡ true
    → close_rtmps_server (with_rtmps_address a c) c ≡ true
unfolding close_rtmps_server
rtmps_address-close a c h = ground arith

-- If a reload changes nothing but the addresses and ports of SRTP and SRTCP and the range of multicast
-- addresses, an encrypted RTSP server that runs is left as it is, with the settings from before.
pub reload_conf-secure_ports :
    (succeeds : Component → ℕ → Bool) (p : SecurePorts) (c d : Core) (i : Instance RtspSettings)
    → c.rtsps_server ≡ some i
    → reload_conf succeeds (with_secure_ports p c.conf) false c ≡ created d
    → d.rtsps_server ≡ some i
unfolding reload_conf close_resources closed filled
reload_conf-secure_ports succeeds p c d i h e =
    let f : IsFilled (closed_core (with_secure_ports p c.conf) false c) d =
      created-IsFilled succeeds (closed_core (with_secure_ports p c.conf) false c) d e in
    cc (f.rtsps_server.1, h, secure_ports-close_false p c.conf)

-- If a reload changes nothing but the address of the encrypted RTMP server, closeResources closes that
-- server and keeps an API that runs, which goes on answering about the server that is closed.
pub close_resources-rtmps_address :
    (a : String) (c : Core) (i : Instance ApiSettings)
    → differs a c.conf.rtmps_address ≡ true
    → c.api ≡ some i
    → ((close_resources (with_rtmps_address a c.conf) false c).rtmps_server ≡ none)
      × ((close_resources (with_rtmps_address a c.conf) false c).api
          ≡ some (record i { settings = record i.settings { conf = with_rtmps_address a c.conf } }))
unfolding close_resources closed reloaded set_conf
close_resources-rtmps_address a c i h e =
    (cc (rtmps_address-close a c.conf h), cc (rtmps_address-close_false a c.conf, e))

-- Two configurations that are the same but for where the read buffer size of RTSP is stored make
-- closeResources close both RTSP servers, whatever the size.
pub close_rtsp_server-pointer :
    (p q : Pointer) (c : Conf)
    → c.rtsp_udp_read_buffer_size ≡ some p
    → differs q.address p.address ≡ true
    → (close_rtsp_server (record c { rtsp_udp_read_buffer_size = some q }) c ≡ true)
      × (close_rtsps_server (record c { rtsp_udp_read_buffer_size = some q }) c ≡ true)
unfolding close_rtsp_server close_rtsps_server rtsp_common_differs pointer_differs
close_rtsp_server-pointer p q c e h =
    let k : pointer_differs (some q) c.rtsp_udp_read_buffer_size ≡ true =
      ap (pointer_differs (some q)) e ∙ h in
    ground arith
