-- ===== src/Tests/Cores.antt =====
-- Reloads of a core with encrypted servers and an API.
use plux_mtx.Base.{eq_text, ℕ, String, Bool, true, false, ◌≡◌, refl, some, none, [], ◌∷◌}
use plux_mtx.Base.Equality.{differs, differs_distinct, String-Comparable, ℕ-Comparable}
use plux_mtx.Auth.State.{User, Method}
use plux_mtx.Core.Conf.{Conf, HttpConf, optional_encryption}
use plux_mtx.Core.Closes.{close_rtsp_server, close_rtsps_server}
use plux_mtx.Core.Settings.{RtspSettings, rtsps_settings}
use plux_mtx.Core.Servers.{ApiSettings, api_settings}
use plux_mtx.Core.State.{
  Core, created, Component, Instance, sources_of, with_logger, with_auth_manager, with_metrics,
  with_pprof, with_record_cleaner, with_playback_server, with_path_manager, with_rtsp_server,
  with_rtsps_server, with_rtmp_server, with_rtmps_server, with_hls_server, with_webrtc_server,
  with_srt_server, with_api, filled, bumped,
}
use plux_mtx.Core.Reload.{
  close_resources, reload_conf, new_core, core_run, empty_core, file_changed, api_patched,
  api_config_set,
}
use plux_mtx.Core.Current.{IsCurrent, all_filled, all_filled-IsFilled}
use plux_mtx.Core.Start.{started-IsRest, started-IsApiCurrent, create_resources_created}
use plux_mtx.Core.Renewal.{closed_core}
use plux_mtx.Core.Runs.{IsUpToDate, core_run-new_core-IsUpToDate}
use plux_mtx.Core.Restart.{with_paths, HasSameInstances, reload_conf-HasSameInstances}
use plux_mtx.Core.Missed.{
  SecurePorts, with_secure_ports, with_rtmps_address, reload_conf-secure_ports,
  close_resources-rtmps_address, close_rtsp_server-pointer,
}
use plux_mtx.Tests.Data.{camera}

abbrev http_at : String → HttpConf
http_at a = record {
  address = a;
  encryption = false;
  server_key = "server.key";
  server_cert = "server.crt";
  allow_origins = "*" ∷ [];
  trusted_proxies = [];
}

abbrev first_conf : Conf
first_conf = record {
  log_level = 1;
  log_destinations = [];
  log_file = "";
  sys_log_prefix = "";
  read_timeout = 10;
  write_timeout = 10;
  write_queue_size = 512;
  udp_max_payload_size = 1472;
  udp_read_buffer_size = 0;
  run_on_connect = "";
  run_on_connect_restart = false;
  run_on_disconnect = "";
  auth_method = Method.internal;
  auth_internal_users = [];
  auth_http_address = "";
  auth_http_exclude = [];
  auth_jwt_jwks = "";
  auth_jwt_jwks_fingerprint = "";
  auth_jwt_claim_key = "";
  auth_jwt_exclude = [];
  auth_jwt_in_http_query = false;
  api = true;
  api_http = http_at ":80";
  metrics = false;
  metrics_http = http_at ":80";
  pprof = false;
  pprof_http = http_at ":80";
  playback = false;
  playback_http = http_at ":80";
  rtsp = true;
  rtsp_transports = [];
  rtsp_encryption = optional_encryption;
  rtsp_address = ":8554";
  rtsps_address = ":8322";
  rtp_address = "";
  rtcp_address = "";
  srtp_address = ":8004";
  srtcp_address = ":8005";
  multicast_ip_range = "";
  multicast_rtp_port = 0;
  multicast_rtcp_port = 0;
  multicast_srtp_port = 0;
  multicast_srtcp_port = 0;
  rtsp_server_key = "";
  rtsp_server_cert = "";
  rtsp_auth_methods = [];
  rtsp_udp_read_buffer_size = some (record { address = 1; target = 5 });
  rtmp = true;
  rtmp_encryption = optional_encryption;
  rtmp_address = "";
  rtmps_address = ":1936";
  rtmp_server_key = "";
  rtmp_server_cert = "";
  hls = false;
  hls_http = http_at ":80";
  hls_always_remux = false;
  hls_variant = 0;
  hls_segment_count = 0;
  hls_segment_duration = 0;
  hls_part_duration = 0;
  hls_segment_max_size = 0;
  hls_directory = "";
  hls_muxer_close_after = 0;
  webrtc = false;
  webrtc_http = http_at ":80";
  webrtc_local_udp_address = "";
  webrtc_local_tcp_address = "";
  webrtc_ips_from_interfaces = false;
  webrtc_ips_from_interfaces_list = [];
  webrtc_additional_hosts = [];
  webrtc_ice_servers2 = [];
  webrtc_handshake_timeout = 0;
  webrtc_stun_gather_timeout = 0;
  webrtc_track_gather_timeout = 0;
  srt = false;
  srt_address = "";
  paths = ("cam", camera) ∷ [];
}

-- A conf.Load of the same file, and a change of it.
abbrev second_conf : Conf
second_conf = record first_conf {
  rtsp_udp_read_buffer_size = some (record { address = 2; target = 5 });
  metrics = true;
  write_queue_size = 1024;
}

abbrev third_conf : Conf
third_conf = record second_conf { hls = true; paths = [] }

abbrev new_user : User
new_user = record { user = "any"; pass = ""; ips = []; permissions = [] }

-- Every component starts; the encrypted RTMP server never does.
abbrev all_start : Component → ℕ → Bool
all_start k n = true

abbrev without_rtmps : Component → ℕ → Bool
without_rtmps Component.rtmps n = false
without_rtmps k n = true

abbrev first_core : Core
first_core = all_filled (empty_core first_conf)

first_core-IsCurrent : IsCurrent first_core
unfolding with_logger with_auth_manager with_metrics with_pprof with_record_cleaner
    with_playback_server with_path_manager with_rtsp_server with_rtsps_server with_rtmp_server
    with_rtmps_server with_hls_server with_webrtc_server with_srt_server with_api empty_core
first_core-IsCurrent = (
  started-IsRest first_conf first_core (all_filled-IsFilled (empty_core first_conf)),
  started-IsApiCurrent first_conf first_core (all_filled-IsFilled (empty_core first_conf)),
)

core_run-new_core-IsUpToDate_example :
    IsUpToDate all_start
      (λ n. 5)
      (core_run all_start
        (file_changed (some second_conf) ∷ api_patched third_conf ∷ api_config_set 0 ∷ [])
        (new_core all_start first_conf))
core_run-new_core-IsUpToDate_example =
    core_run-new_core-IsUpToDate all_start (λ n. 5) first_conf
      (file_changed (some second_conf) ∷ api_patched third_conf ∷ api_config_set 0 ∷ []) refl
      (refl, (refl, (tt, tt)))

reload_created :
    (new : Conf)
    → reload_conf all_start new false first_core
      ≡ created (all_filled (closed_core new false first_core))
unfolding reload_conf
reload_created new =
    create_resources_created all_start (λ k n. refl) (closed_core new false first_core)

abbrev other_paths : Conf
other_paths = with_paths [] (new_user ∷ []) first_core.conf

reload_conf-HasSameInstances_example :
    HasSameInstances first_core (all_filled (closed_core other_paths false first_core))
reload_conf-HasSameInstances_example =
    reload_conf-HasSameInstances all_start [] (new_user ∷ []) first_core
      (all_filled (closed_core other_paths false first_core)) first_core-IsCurrent
      (reload_created other_paths)

address_differs : differs {A = String} ":1937" first_core.conf.rtmps_address ≡ true
unfolding with_logger with_auth_manager with_metrics with_pprof with_record_cleaner
    with_playback_server with_path_manager with_rtsp_server with_rtsps_server with_rtmp_server
    with_rtmps_server with_hls_server with_webrtc_server with_srt_server with_api empty_core
address_differs =
    differs_distinct ":1937" ":1936" (λ e. let k : false ≡ true = eq_text ":1937" ":1936" e in cc)

places_differ : differs {A = ℕ} 2 1 ≡ true
places_differ = differs_distinct 2 1 (λ e. cc)

abbrev other_ports : SecurePorts
other_ports = record {
  srtp_address = ":9004";
  srtcp_address = ":9005";
  ip_range = "";
  srtp_port = 0;
  srtcp_port = 0;
}

abbrev rtsps_instance : Instance RtspSettings
rtsps_instance = record { id = 5; settings = rtsps_settings first_conf none (some 3) }

abbrev api_instance : Instance ApiSettings
api_instance = record {
  id = 8;
  settings = api_settings first_conf (some 1) (sources_of first_core);
}

first_core-rtsps : first_core.rtsps_server ≡ some rtsps_instance
unfolding with_logger with_auth_manager with_metrics with_pprof with_record_cleaner
    with_playback_server with_path_manager with_rtsp_server with_rtsps_server with_rtmp_server
    with_rtmps_server with_hls_server with_webrtc_server with_srt_server with_api empty_core filled
    bumped sources_of
first_core-rtsps = refl

first_core-api : first_core.api ≡ some api_instance
unfolding with_logger with_auth_manager with_metrics with_pprof with_record_cleaner
    with_playback_server with_path_manager with_rtsp_server with_rtsps_server with_rtmp_server
    with_rtmps_server with_hls_server with_webrtc_server with_srt_server with_api empty_core filled
    bumped sources_of
first_core-api = refl

reload_conf-secure_ports_example :
    (all_filled
      (closed_core (with_secure_ports other_ports first_core.conf) false first_core)).rtsps_server
    ≡ some rtsps_instance
reload_conf-secure_ports_example =
    reload_conf-secure_ports all_start other_ports first_core
      (all_filled (closed_core (with_secure_ports other_ports first_core.conf) false first_core))
      rtsps_instance first_core-rtsps
      (reload_created (with_secure_ports other_ports first_core.conf))

close_resources-rtmps_address_example :
    ((close_resources (with_rtmps_address ":1937" first_core.conf) false first_core).rtmps_server
      ≡ none)
    × ((close_resources (with_rtmps_address ":1937" first_core.conf) false first_core).api
        ≡ some (record api_instance {
          settings = record api_instance.settings {
            conf = with_rtmps_address ":1937" first_core.conf;
          };
        }))
close_resources-rtmps_address_example =
    close_resources-rtmps_address ":1937" first_core api_instance address_differs first_core-api

close_rtsp_server-pointer_example :
    (close_rtsp_server
        (record first_conf {
          rtsp_udp_read_buffer_size = some (record { address = 2; target = 5 });
        })
        first_conf
      ≡ true)
    × (close_rtsps_server
          (record first_conf {
            rtsp_udp_read_buffer_size = some (record { address = 2; target = 5 });
          })
          first_conf
        ≡ true)
close_rtsp_server-pointer_example =
    close_rtsp_server-pointer (record { address = 1; target = 5 })
      (record { address = 2; target = 5 }) first_conf refl places_differ
