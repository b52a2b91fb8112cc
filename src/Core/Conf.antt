-- ===== src/Core/Conf.antt =====
-- internal/conf/conf.go: the struct Conf, as far as core.Core reads it. The six fields that each
-- HTTP server has are one record, so APIAddress is `api_http.address`. Durations, sizes, levels and
-- enumerations that are only compared and passed on are numbers, other such values their texts.
use plux_mtx.Base.{ℕ, String, Bool, true, false, ◌||◌, Option, some, none, List, text_discrete}
use plux_mtx.Base.Equality.{
  Comparable, differs, Bool-Comparable, ℕ-Comparable, String-Comparable, List-String-Comparable,
}
use plux_mtx.Conf.PathConf.{PathConf-discrete}
use plux_mtx.Conf.Find.{PathConfs}
use plux_mtx.Auth.State.{Method, User, Permission}

pub data Encryption : Type 0 where
  no_encryption optional_encryption strict_encryption : Encryption

pub record HttpConf : Type 0 where
  pub address : String
  pub encryption : Bool
  pub server_key : String
  pub server_cert : String
  pub allow_origins : List String
  pub trusted_proxies : List String

-- A pointer to a number: where it points, and what stands there.
pub record Pointer : Type 0 where
  pub address : ℕ
  pub target : ℕ

pub record Conf : Type 0 where
  pub log_level : ℕ
  pub log_destinations : List ℕ
  pub log_file : String
  pub sys_log_prefix : String
  pub read_timeout : ℕ
  pub write_timeout : ℕ
  pub write_queue_size : ℕ
  pub udp_max_payload_size : ℕ
  pub udp_read_buffer_size : ℕ
  pub run_on_connect : String
  pub run_on_connect_restart : Bool
  pub run_on_disconnect : String
  pub auth_method : Method
  pub auth_internal_users : List User
  pub auth_http_address : String
  pub auth_http_exclude : List Permission
  pub auth_jwt_jwks : String
  pub auth_jwt_jwks_fingerprint : String
  pub auth_jwt_claim_key : String
  pub auth_jwt_exclude : List Permission
  pub auth_jwt_in_http_query : Bool
  pub api : Bool
  pub api_http : HttpConf
  pub metrics : Bool
  pub metrics_http : HttpConf
  pub pprof : Bool
  pub pprof_http : HttpConf
  pub playback : Bool
  pub playback_http : HttpConf
  pub rtsp : Bool
  pub rtsp_transports : List ℕ
  pub rtsp_encryption : Encryption
  pub rtsp_address : String
  pub rtsps_address : String
  pub rtp_address : String
  pub rtcp_address : String
  pub srtp_address : String
  pub srtcp_address : String
  pub multicast_ip_range : String
  pub multicast_rtp_port : ℕ
  pub multicast_rtcp_port : ℕ
  pub multicast_srtp_port : ℕ
  pub multicast_srtcp_port : ℕ
  pub rtsp_server_key : String
  pub rtsp_server_cert : String
  pub rtsp_auth_methods : List ℕ
  pub rtsp_udp_read_buffer_size : Option Pointer
  pub rtmp : Bool
  pub rtmp_encryption : Encryption
  pub rtmp_address : String
  pub rtmps_address : String
  pub rtmp_server_key : String
  pub rtmp_server_cert : String
  pub hls : Bool
  pub hls_http : HttpConf
  pub hls_always_remux : Bool
  pub hls_variant : ℕ
  pub hls_segment_count : ℕ
  pub hls_segment_duration : ℕ
  pub hls_part_duration : ℕ
  pub hls_segment_max_size : ℕ
  pub hls_directory : String
  pub hls_muxer_close_after : ℕ
  pub webrtc : Bool
  pub webrtc_http : HttpConf
  pub webrtc_local_udp_address : String
  pub webrtc_local_tcp_address : String
  pub webrtc_ips_from_interfaces : Bool
  pub webrtc_ips_from_interfaces_list : List String
  pub webrtc_additional_hosts : List String
  pub webrtc_ice_servers2 : List String
  pub webrtc_handshake_timeout : ℕ
  pub webrtc_stun_gather_timeout : ℕ
  pub webrtc_track_gather_timeout : ℕ
  pub srt : Bool
  pub srt_address : String
  pub paths : PathConfs

pub Permission-discrete : Discrete Permission
Permission-discrete = hlevel text_discrete

pub Permissions-discrete : Discrete (List Permission)
Permissions-discrete = hlevel Permission-discrete

User-discrete : Discrete User
User-discrete = hlevel (text_discrete, Permission-discrete)

pub Users-discrete : Discrete (List User)
Users-discrete = hlevel User-discrete

pub Method-discrete : Discrete Method
Method-discrete = hlevel

pub Encryption-discrete : Discrete Encryption
Encryption-discrete = hlevel

pub PathConfs-discrete : Discrete PathConfs
PathConfs-discrete = hlevel (text_discrete, PathConf-discrete)

instance abbrev pub Method-Comparable : Comparable Method
Method-Comparable = record { discrete = Method-discrete }

instance abbrev pub Permissions-Comparable : Comparable (List Permission)
Permissions-Comparable = record { discrete = Permissions-discrete }

instance abbrev pub Users-Comparable : Comparable (List User)
Users-Comparable = record { discrete = Users-discrete }

instance abbrev pub Encryption-Comparable : Comparable Encryption
Encryption-Comparable = record { discrete = Encryption-discrete }

instance abbrev pub PathConfs-Comparable : Comparable PathConfs
PathConfs-Comparable = record { discrete = PathConfs-discrete }

-- `!=` of two pointers.
unfoldable pub pointer_differs : Option Pointer → Option Pointer → Bool
unfolding differs
pointer_differs none none = false
pointer_differs none (some q) = true
pointer_differs (some p) none = true
pointer_differs (some p) (some q) = differs p.address q.address

-- The comparison of the six fields of an HTTP server.
unfoldable pub http_differs : HttpConf → HttpConf → Bool
unfolding differs
http_differs a b =
    differs a.address b.address
    || differs a.encryption b.encryption
    || differs a.server_key b.server_key
    || differs a.server_cert b.server_cert
    || differs a.allow_origins b.allow_origins
    || differs a.trusted_proxies b.trusted_proxies
