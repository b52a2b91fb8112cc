-- ===== src/Core/Settings.antt =====
-- internal/core/core.go: what createResources gives to each component. A component that another one
-- is given is named by the number of its instance; the logger and the pool of commands, which all
-- reach through core.Core, are not listed.
use plux_mtx.Base.{ℕ, String, Bool, true, false, Option, some, none, List, contains}
use plux_mtx.Base.Int.{ℤ, sub_ℕ}
use plux_mtx.Conf.Find.{PathConfs}
use plux_mtx.Auth.State.{Method, User, Permission}
use plux_mtx.Core.Conf.{
  Conf, HttpConf, Pointer, Encryption, no_encryption, optional_encryption, strict_encryption,
}

pub record LoggerSettings : Type 0 where
  pub level : ℕ
  pub destinations : List ℕ
  pub file : String
  pub sys_log_prefix : String

unfoldable pub logger_settings : Conf → LoggerSettings
logger_settings c = record {
  level = c.log_level;
  destinations = c.log_destinations;
  file = c.log_file;
  sys_log_prefix = c.sys_log_prefix;
}

pub record AuthSettings : Type 0 where
  pub method : Method
  pub internal_users : List User
  pub http_address : String
  pub http_exclude : List Permission
  pub jwt_jwks : String
  pub jwt_jwks_fingerprint : String
  pub jwt_claim_key : String
  pub jwt_exclude : List Permission
  pub jwt_in_http_query : Bool
  pub read_timeout : ℕ

unfoldable pub auth_settings : Conf → AuthSettings
auth_settings c = record {
  method = c.auth_method;
  internal_users = c.auth_internal_users;
  http_address = c.auth_http_address;
  http_exclude = c.auth_http_exclude;
  jwt_jwks = c.auth_jwt_jwks;
  jwt_jwks_fingerprint = c.auth_jwt_jwks_fingerprint;
  jwt_claim_key = c.auth_jwt_claim_key;
  jwt_exclude = c.auth_jwt_exclude;
  jwt_in_http_query = c.auth_jwt_in_http_query;
  read_timeout = c.read_timeout;
}

-- What metrics, pprof and playback have in common.
pub record HttpSettings : Type 0 where
  pub http : HttpConf
  pub read_timeout : ℕ
  pub write_timeout : ℕ
  pub auth_manager : Option ℕ

unfoldable pub http_settings : HttpConf → Conf → Option ℕ → HttpSettings
http_settings h c auth = record {
  http = h;
  read_timeout = c.read_timeout;
  write_timeout = c.write_timeout;
  auth_manager = auth;
}

pub record PlaybackSettings : Type 0 where
  pub server : HttpSettings
  pub path_confs : PathConfs

unfoldable pub playback_settings : Conf → Option ℕ → PlaybackSettings
unfolding http_settings
playback_settings c auth = record {
  server = http_settings c.playback_http c auth;
  path_confs = c.paths;
}

-- getRTPMaxPayloadSize
unfoldable pub get_rtp_max_payload_size : ℕ → Encryption → ℤ
get_rtp_max_payload_size size no_encryption = sub_ℕ size 12
get_rtp_max_payload_size size optional_encryption = sub_ℕ size 22
get_rtp_max_payload_size size strict_encryption = sub_ℕ size 22

pub record PathManagerSettings : Type 0 where
  pub log_level : ℕ
  pub auth_manager : Option ℕ
  pub rtsp_address : String
  pub read_timeout : ℕ
  pub write_timeout : ℕ
  pub write_queue_size : ℕ
  pub udp_read_buffer_size : ℕ
  pub rtp_max_payload_size : ℤ
  pub path_confs : PathConfs
  pub metrics : Option ℕ

unfoldable pub path_manager_settings : Conf → Option ℕ → Option ℕ → PathManagerSettings
path_manager_settings c auth metrics = record {
  log_level = c.log_level;
  auth_manager = auth;
  rtsp_address = c.rtsp_address;
  read_timeout = c.read_timeout;
  write_timeout = c.write_timeout;
  write_queue_size = c.write_queue_size;
  udp_read_buffer_size = c.udp_read_buffer_size;
  rtp_max_payload_size = get_rtp_max_payload_size c.udp_max_payload_size c.rtsp_encryption;
  path_confs = c.paths;
  metrics = metrics;
}

-- The commands and the two components that the servers of a protocol are given.
pub record Hooks : Type 0 where
  pub run_on_connect : String
  pub run_on_connect_restart : Bool
  pub run_on_disconnect : String
  pub metrics : Option ℕ
  pub path_manager : Option ℕ

unfoldable pub hooks_of : Conf → Option ℕ → Option ℕ → Hooks
hooks_of c metrics manager = record {
  run_on_connect = c.run_on_connect;
  run_on_connect_restart = c.run_on_connect_restart;
  run_on_disconnect = c.run_on_disconnect;
  metrics = metrics;
  path_manager = manager;
}

-- What the two RTSP servers are given alike.
pub record RtspCommon : Type 0 where
  pub auth_methods : List ℕ
  pub udp_read_buffer_size : ℕ
  pub read_timeout : ℕ
  pub write_timeout : ℕ
  pub write_queue_size : ℕ
  pub use_udp : Bool
  pub use_multicast : Bool
  pub rtsp_address : String
  pub transports : List ℕ

-- The addresses and ports of RTP.
pub record RtpPorts : Type 0 where
  pub rtp_address : String
  pub rtcp_address : String
  pub multicast_ip_range : String
  pub multicast_rtp_port : ℕ
  pub multicast_rtcp_port : ℕ

pub record RtspSettings : Type 0 where
  pub address : String
  pub common : RtspCommon
  pub ports : RtpPorts
  pub is_tls : Bool
  pub server_cert : String
  pub server_key : String
  pub hooks : Hooks

-- gortsplib.ProtocolUDP and ProtocolUDPMulticast
abbrev pub protocol_udp : ℕ
protocol_udp = 0

abbrev pub protocol_udp_multicast : ℕ
protocol_udp_multicast = 1

unfoldable pub rtsp_read_buffer_size : ℕ → Option Pointer → ℕ
rtsp_read_buffer_size size none = size
rtsp_read_buffer_size size (some p) = p.target

unfoldable pub rtsp_common : Conf → RtspCommon
unfolding rtsp_read_buffer_size contains
rtsp_common c = record {
  auth_methods = c.rtsp_auth_methods;
  udp_read_buffer_size = rtsp_read_buffer_size c.udp_read_buffer_size c.rtsp_udp_read_buffer_size;
  read_timeout = c.read_timeout;
  write_timeout = c.write_timeout;
  write_queue_size = c.write_queue_size;
  use_udp = contains protocol_udp c.rtsp_transports;
  use_multicast = contains protocol_udp_multicast c.rtsp_transports;
  rtsp_address = c.rtsp_address;
  transports = c.rtsp_transports;
}

unfoldable pub rtp_ports : Conf → RtpPorts
rtp_ports c = record {
  rtp_address = c.rtp_address;
  rtcp_address = c.rtcp_address;
  multicast_ip_range = c.multicast_ip_range;
  multicast_rtp_port = c.multicast_rtp_port;
  multicast_rtcp_port = c.multicast_rtcp_port;
}

unfoldable pub srtp_ports : Conf → RtpPorts
srtp_ports c = record {
  rtp_address = c.srtp_address;
  rtcp_address = c.srtcp_address;
  multicast_ip_range = c.multicast_ip_range;
  multicast_rtp_port = c.multicast_srtp_port;
  multicast_rtcp_port = c.multicast_srtcp_port;
}

unfoldable pub rtsp_settings : Conf → Option ℕ → Option ℕ → RtspSettings
unfolding hooks_of rtsp_common rtp_ports
rtsp_settings c metrics manager = record {
  address = c.rtsp_address;
  common = rtsp_common c;
  ports = rtp_ports c;
  is_tls = false;
  server_cert = "";
  server_key = "";
  hooks = hooks_of c metrics manager;
}

unfoldable pub rtsps_settings : Conf → Option ℕ → Option ℕ → RtspSettings
unfolding hooks_of rtsp_common srtp_ports
rtsps_settings c metrics manager = record {
  address = c.rtsps_address;
  common = rtsp_common c;
  ports = srtp_ports c;
  is_tls = true;
  server_cert = c.rtsp_server_cert;
  server_key = c.rtsp_server_key;
  hooks = hooks_of c metrics manager;
}
