-- ===== src/Core/Servers.antt =====
-- internal/core/core.go: what createResources gives to the servers of RTMP, HLS, WebRTC and SRT and
-- to the API.
use plux_mtx.Base.{ℕ, String, Bool, true, false, Option, List}
use plux_mtx.Core.Conf.{Conf, HttpConf}
use plux_mtx.Core.Settings.{HttpSettings, http_settings, Hooks, hooks_of}

pub record RtmpSettings : Type 0 where
  pub address : String
  pub read_timeout : ℕ
  pub write_timeout : ℕ
  pub is_tls : Bool
  pub server_cert : String
  pub server_key : String
  pub rtsp_address : String
  pub hooks : Hooks

unfoldable pub rtmp_settings : Conf → Option ℕ → Option ℕ → RtmpSettings
unfolding hooks_of
rtmp_settings c metrics manager = record {
  address = c.rtmp_address;
  read_timeout = c.read_timeout;
  write_timeout = c.write_timeout;
  is_tls = false;
  server_cert = "";
  server_key = "";
  rtsp_address = c.rtsp_address;
  hooks = hooks_of c metrics manager;
}

unfoldable pub rtmps_settings : Conf → Option ℕ → Option ℕ → RtmpSettings
unfolding hooks_of
rtmps_settings c metrics manager = record {
  address = c.rtmps_address;
  read_timeout = c.read_timeout;
  write_timeout = c.write_timeout;
  is_tls = true;
  server_cert = c.rtmp_server_cert;
  server_key = c.rtmp_server_key;
  rtsp_address = c.rtsp_address;
  hooks = hooks_of c metrics manager;
}

pub record HlsSettings : Type 0 where
  pub http : HttpConf
  pub always_remux : Bool
  pub variant : ℕ
  pub segment_count : ℕ
  pub segment_duration : ℕ
  pub part_duration : ℕ
  pub segment_max_size : ℕ
  pub directory : String
  pub read_timeout : ℕ
  pub write_timeout : ℕ
  pub muxer_close_after : ℕ
  pub metrics : Option ℕ
  pub path_manager : Option ℕ

unfoldable pub hls_settings : Conf → Option ℕ → Option ℕ → HlsSettings
hls_settings c metrics manager = record {
  http = c.hls_http;
  always_remux = c.hls_always_remux;
  variant = c.hls_variant;
  segment_count = c.hls_segment_count;
  segment_duration = c.hls_segment_duration;
  part_duration = c.hls_part_duration;
  segment_max_size = c.hls_segment_max_size;
  directory = c.hls_directory;
  read_timeout = c.read_timeout;
  write_timeout = c.write_timeout;
  muxer_close_after = c.hls_muxer_close_after;
  metrics = metrics;
  path_manager = manager;
}

-- How a WebRTC server is reached, and how long it waits.
pub record IceSettings : Type 0 where
  pub local_udp_address : String
  pub local_tcp_address : String
  pub ips_from_interfaces : Bool
  pub ips_from_interfaces_list : List String
  pub additional_hosts : List String
  pub ice_servers : List String
  pub handshake_timeout : ℕ
  pub stun_gather_timeout : ℕ
  pub track_gather_timeout : ℕ

unfoldable pub ice_settings : Conf → IceSettings
ice_settings c = record {
  local_udp_address = c.webrtc_local_udp_address;
  local_tcp_address = c.webrtc_local_tcp_address;
  ips_from_interfaces = c.webrtc_ips_from_interfaces;
  ips_from_interfaces_list = c.webrtc_ips_from_interfaces_list;
  additional_hosts = c.webrtc_additional_hosts;
  ice_servers = c.webrtc_ice_servers2;
  handshake_timeout = c.webrtc_handshake_timeout;
  stun_gather_timeout = c.webrtc_stun_gather_timeout;
  track_gather_timeout = c.webrtc_track_gather_timeout;
}

pub record WebrtcSettings : Type 0 where
  pub http : HttpConf
  pub read_timeout : ℕ
  pub write_timeout : ℕ
  pub udp_read_buffer_size : ℕ
  pub ice : IceSettings
  pub metrics : Option ℕ
  pub path_manager : Option ℕ

unfoldable pub webrtc_settings : Conf → Option ℕ → Option ℕ → WebrtcSettings
unfolding ice_settings
webrtc_settings c metrics manager = record {
  http = c.webrtc_http;
  read_timeout = c.read_timeout;
  write_timeout = c.write_timeout;
  udp_read_buffer_size = c.udp_read_buffer_size;
  ice = ice_settings c;
  metrics = metrics;
  path_manager = manager;
}

pub record SrtSettings : Type 0 where
  pub address : String
  pub rtsp_address : String
  pub read_timeout : ℕ
  pub write_timeout : ℕ
  pub udp_max_payload_size : ℕ
  pub hooks : Hooks

unfoldable pub srt_settings : Conf → Option ℕ → Option ℕ → SrtSettings
unfolding hooks_of
srt_settings c metrics manager = record {
  address = c.srt_address;
  rtsp_address = c.rtsp_address;
  read_timeout = c.read_timeout;
  write_timeout = c.write_timeout;
  udp_max_payload_size = c.udp_max_payload_size;
  hooks = hooks_of c metrics manager;
}

-- The components that the API answers about.
pub record ApiSources : Type 0 where
  pub path_manager : Option ℕ
  pub rtsp_server : Option ℕ
  pub rtsps_server : Option ℕ
  pub rtmp_server : Option ℕ
  pub rtmps_server : Option ℕ
  pub hls_server : Option ℕ
  pub webrtc_server : Option ℕ
  pub srt_server : Option ℕ

pub record ApiSettings : Type 0 where
  pub server : HttpSettings
  pub conf : Conf
  pub sources : ApiSources

unfoldable pub api_settings : Conf → Option ℕ → ApiSources → ApiSettings
unfolding http_settings
api_settings c auth sources = record {
  server = http_settings c.api_http c auth;
  conf = c;
  sources = sources;
}
