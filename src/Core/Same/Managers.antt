-- ===== src/Core/Same/Managers.antt =====
-- The components that are given nothing but the authentication manager and metrics.
use plux_mtx.Base.{ℕ, false, ◌≡◌, Option, arith}
use plux_mtx.Base.Equality.{
  same, Bool-Comparable, ℕ-Comparable, String-Comparable, List-String-Comparable, List-ℕ-Comparable,
}
use plux_mtx.Core.Conf.{
  Conf, HttpConf, http_differs, Method-Comparable, Permissions-Comparable, Encryption-Comparable,
}
use plux_mtx.Core.Settings.{
  logger_settings, auth_settings, http_settings, playback_settings, path_manager_settings,
}
use plux_mtx.Core.Closes.{
  close_logger, close_auth_manager, close_http, close_metrics, close_pprof, close_recorder_cleaner,
  close_playback_server, close_path_manager, at_least_one_record_delete_after,
}

pub http_same : (a b : HttpConf) → http_differs a b ≡ false → a ≡ b
unfolding http_differs
http_same a b h = ground (
  arith,
  same a.address b.address,
  same a.encryption b.encryption,
  same a.server_key b.server_key,
  same a.server_cert b.server_cert,
  same a.allow_origins b.allow_origins,
  same a.trusted_proxies b.trusted_proxies,
)

module _ (new old : Conf) where
  pub logger_same : close_logger new old ≡ false → logger_settings new ≡ logger_settings old
  unfolding close_logger logger_settings
  logger_same h = ground (
    arith,
    same new.log_level old.log_level,
    same new.log_destinations old.log_destinations,
    same new.log_file old.log_file,
    same new.sys_log_prefix old.sys_log_prefix,
  )

  pub auth_same :
      close_auth_manager new old ≡ false
      → auth_settings new ≡ record (auth_settings old) { internal_users = new.auth_internal_users }
  unfolding close_auth_manager auth_settings
  auth_same h = ground (
    arith,
    same new.auth_method old.auth_method,
    same new.auth_http_address old.auth_http_address,
    same new.auth_http_exclude old.auth_http_exclude,
    same new.auth_jwt_jwks old.auth_jwt_jwks,
    same new.auth_jwt_jwks_fingerprint old.auth_jwt_jwks_fingerprint,
    same new.auth_jwt_claim_key old.auth_jwt_claim_key,
    same new.auth_jwt_exclude old.auth_jwt_exclude,
    same new.auth_jwt_in_http_query old.auth_jwt_in_http_query,
    same new.read_timeout old.read_timeout,
  )

  module _ (a' a : Option ℕ) (auth : close_auth_manager new old ≡ false → a' ≡ a) where
    pub metrics_same :
        close_metrics new old ≡ false
        → (new.metrics ≡ old.metrics)
          × (http_settings new.metrics_http new a' ≡ http_settings old.metrics_http old a)
    unfolding close_metrics close_http http_settings
    metrics_same h = ground (
      arith,
      auth,
      http_same new.metrics_http old.metrics_http,
      same new.metrics old.metrics,
      same new.read_timeout old.read_timeout,
      same new.write_timeout old.write_timeout,
    )

    pub pprof_same :
        close_pprof new old ≡ false
        → (new.pprof ≡ old.pprof)
          × (http_settings new.pprof_http new a' ≡ http_settings old.pprof_http old a)
    unfolding close_pprof close_http http_settings
    pprof_same h = ground (
      arith,
      auth,
      http_same new.pprof_http old.pprof_http,
      same new.pprof old.pprof,
      same new.read_timeout old.read_timeout,
      same new.write_timeout old.write_timeout,
    )

    pub playback_same :
        close_playback_server new old ≡ false
        → (new.playback ≡ old.playback)
          × (playback_settings new a' ≡ record (playback_settings old a) { path_confs = new.paths })
    unfolding close_playback_server close_http playback_settings http_settings
    playback_same h = ground (
      arith,
      auth,
      http_same new.playback_http old.playback_http,
      same new.playback old.playback,
      same new.read_timeout old.read_timeout,
      same new.write_timeout old.write_timeout,
    )

    pub path_manager_same :
        (m' m : Option ℕ)
        → (close_metrics new old ≡ false → m' ≡ m)
        → close_path_manager new old ≡ false
        → path_manager_settings new a' m'
          ≡ record (path_manager_settings old a m) { path_confs = new.paths }
    unfolding close_path_manager path_manager_settings
    path_manager_same m' m metrics h = ground (
      arith,
      auth,
      metrics,
      same new.log_level old.log_level,
      same new.rtsp_address old.rtsp_address,
      same new.read_timeout old.read_timeout,
      same new.write_timeout old.write_timeout,
      same new.write_queue_size old.write_queue_size,
      same new.udp_read_buffer_size old.udp_read_buffer_size,
      same new.udp_max_payload_size old.udp_max_payload_size,
      same new.rtsp_encryption old.rtsp_encryption,
    )

  pub cleaner_same :
      close_recorder_cleaner new old ≡ false
      → at_least_one_record_delete_after new.paths ≡ at_least_one_record_delete_after old.paths
  unfolding close_recorder_cleaner
  cleaner_same h = ground (
    arith,
    same (at_least_one_record_delete_after new.paths) (at_least_one_record_delete_after old.paths),
  )

  pub path_manager-metrics : close_path_manager new old ≡ false → close_metrics new old ≡ false
  unfolding close_path_manager
  path_manager-metrics h = ground arith
