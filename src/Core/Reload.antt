-- ===== src/Core/Reload.antt =====
-- internal/core/core.go: the second half of closeResources, reloadConf, and New and run. The watcher
-- of the file and the pool of commands live as long as the program and are left out.
use plux_mtx.Base.{
  ℕ, zero, suc, Bool, true, false, not, Option, some, none, is_some, List, [], ◌∷◌, get_elem?,
  if◌then◌else◌,
}
use plux_mtx.Base.Equality.{differs}
use plux_mtx.Conf.Find.{PathConfs}
use plux_mtx.Auth.State.{User}
use plux_mtx.Core.Conf.{Conf, Users-Comparable, PathConfs-Comparable}
use plux_mtx.Core.Settings.{AuthSettings, PlaybackSettings, PathManagerSettings}
use plux_mtx.Core.Servers.{ApiSettings}
use plux_mtx.Core.Closes.{
  close_logger, close_auth_manager, close_metrics, close_pprof, close_recorder_cleaner,
  close_playback_server, close_path_manager, close_rtsp_server, close_rtsps_server,
  close_rtmp_server, close_rtmps_server, close_hls_server, close_webrtc_server, close_srt_server,
  close_api,
}
use plux_mtx.Core.State.{Core, Slot, Created, created, failed, Component}
use plux_mtx.Core.Create.{create_resources}

unfoldable pub closed : {S : Type 0} → Bool → Slot S → Slot S
closed true o = none
closed false o = o

-- A reload of an instance that is there.
unfoldable pub reloaded : {S : Type 0} → Bool → (S → S) → Slot S → Slot S
reloaded b f none = none
reloaded true f (some i) = some (record i { settings = f i.settings })
reloaded false f (some i) = some i

-- auth.Manager.ReloadInternalUsers
unfoldable pub set_users : List User → AuthSettings → AuthSettings
set_users us s = record s { internal_users = us }

-- recordcleaner.Cleaner.ReloadPathConfs
unfoldable pub set_cleaner_confs : PathConfs → PathConfs → PathConfs
set_cleaner_confs new old = new

-- playback.Server.ReloadPathConfs
unfoldable pub set_playback_confs : PathConfs → PlaybackSettings → PlaybackSettings
set_playback_confs confs s = record s { path_confs = confs }

-- pathManager.ReloadPathConfs
unfoldable pub set_manager_confs : PathConfs → PathManagerSettings → PathManagerSettings
set_manager_confs confs s = record s { path_confs = confs }

-- api.API.ReloadConf
unfoldable pub set_conf : Conf → ApiSettings → ApiSettings
set_conf c s = record s { conf = c }

unfoldable pub close_resources : Conf → Bool → Core → Core
unfolding closed reloaded set_users set_cleaner_confs set_playback_confs set_manager_confs set_conf
    close_logger close_auth_manager close_metrics close_pprof close_recorder_cleaner
    close_playback_server close_path_manager close_rtsp_server close_rtsps_server close_rtmp_server
    close_rtmps_server close_hls_server close_webrtc_server close_srt_server close_api
close_resources new by_api c =
    let users_differ : Bool = differs new.auth_internal_users c.conf.auth_internal_users in
    let paths_differ : Bool = differs new.paths c.conf.paths in
    record {
      conf = c.conf;
      logger = closed (close_logger new c.conf) c.logger;
      auth_manager =
          closed (close_auth_manager new c.conf)
            (reloaded users_differ (set_users new.auth_internal_users) c.auth_manager);
      metrics = closed (close_metrics new c.conf) c.metrics;
      pprof = closed (close_pprof new c.conf) c.pprof;
      record_cleaner =
          closed (close_recorder_cleaner new c.conf)
            (reloaded paths_differ (set_cleaner_confs new.paths) c.record_cleaner);
      playback_server =
          closed (close_playback_server new c.conf)
            (reloaded paths_differ (set_playback_confs new.paths) c.playback_server);
      path_manager =
          closed (close_path_manager new c.conf)
            (reloaded paths_differ (set_manager_confs new.paths) c.path_manager);
      rtsp_server = closed (close_rtsp_server new c.conf) c.rtsp_server;
      rtsps_server = closed (close_rtsps_server new c.conf) c.rtsps_server;
      rtmp_server = closed (close_rtmp_server new c.conf) c.rtmp_server;
      rtmps_server = closed (close_rtmps_server new c.conf) c.rtmps_server;
      hls_server = closed (close_hls_server new c.conf) c.hls_server;
      webrtc_server = closed (close_webrtc_server new c.conf) c.webrtc_server;
      srt_server = closed (close_srt_server new c.conf) c.srt_server;
      api = closed (close_api new c.conf) (reloaded (not by_api) (set_conf new) c.api);
      next_id = c.next_id;
    }

-- closeResources without a new configuration.
unfoldable pub close_all : Core → Core
close_all c = record {
  conf = c.conf;
  logger = none;
  auth_manager = none;
  metrics = none;
  pprof = none;
  record_cleaner = none;
  playback_server = none;
  path_manager = none;
  rtsp_server = none;
  rtsps_server = none;
  rtmp_server = none;
  rtmps_server = none;
  hls_server = none;
  webrtc_server = none;
  srt_server = none;
  api = none;
  next_id = c.next_id;
}

-- A request that changes the configuration, as the API handles it.
unfoldable pub set_api_conf : Conf → Core → Core
unfolding reloaded set_conf
set_api_conf new c = record c { api = reloaded true (set_conf new) c.api }

-- The core before createResources.
unfoldable pub empty_core : Conf → Core
empty_core c = record {
  conf = c;
  logger = none;
  auth_manager = none;
  metrics = none;
  pprof = none;
  record_cleaner = none;
  playback_server = none;
  path_manager = none;
  rtsp_server = none;
  rtsps_server = none;
  rtmp_server = none;
  rtmps_server = none;
  hls_server = none;
  webrtc_server = none;
  srt_server = none;
  api = none;
  next_id = 0;
}

-- What happens to the core: its loop receives a change of the file, where `none` is a file that conf.Load
-- refuses, one of the configurations that the API has sent, or the end; or the API takes on
-- a configuration and starts a goroutine that sends it.
pub data CoreEvent : Type 0 where
  file_changed : Option Conf → CoreEvent
  api_patched : Conf → CoreEvent
  api_config_set : ℕ → CoreEvent
  interrupted : CoreEvent

-- A core that runs, with the configurations that are sent and not received.
pub data Program : Type 0 where
  running : Core → List Conf → Program
  stopped : Core → Program
  panicked : Program

-- New: an error ends the program, and everything that runs is closed.
unfoldable pub program_of : Created → Program
unfolding close_all
program_of (created c) = running c []
program_of (failed c) = stopped (close_all c)

-- run: the error of a reload is logged before everything is closed, which panics without a logger.
unfoldable pub after_reload : List Conf → Created → Program
unfolding close_all
after_reload requests (created c) = running c requests
after_reload requests (failed c) = if is_some c.logger then stopped (close_all c) else panicked

unfoldable pub remove_request : ℕ → List Conf → List Conf
remove_request n [] = []
remove_request zero (r ∷ rs) = rs
remove_request (suc n) (r ∷ rs) = r ∷ remove_request n rs

module _ (succeeds : Component → ℕ → Bool) where
  unfoldable pub reload_conf : Conf → Bool → Core → Created
  unfolding create_resources close_resources
  reload_conf new by_api c =
      create_resources succeeds (record (close_resources new by_api c) { conf = new })

  unfoldable pub new_core : Conf → Program
  unfolding create_resources empty_core program_of
  new_core c = program_of (create_resources succeeds (empty_core c))

  -- A configuration of the API that is received, if there is one.
  unfoldable pub receive_config : Option Conf → List Conf → Core → Program
  unfolding reload_conf after_reload
  receive_config none requests c = running c requests
  receive_config (some new) requests c = after_reload requests (reload_conf new true c)

  unfoldable pub core_step : CoreEvent → Program → Program
  unfolding reload_conf set_api_conf after_reload close_all remove_request receive_config
  core_step e (stopped c) = stopped c
  core_step e panicked = panicked
  core_step (file_changed none) (running c rs) = stopped (close_all c)
  core_step (file_changed (some new)) (running c rs) = after_reload rs (reload_conf new false c)
  core_step (api_patched new) (running c rs) = running (set_api_conf new c) (new ∷ rs)
  core_step (api_config_set n) (running c rs) =
      receive_config (get_elem? rs n) (remove_request n rs) c
  core_step interrupted (running c rs) = stopped (close_all c)

  unfoldable pub core_run : List CoreEvent → Program → Program
  unfolding core_step
  core_run [] p = p
  core_run (e ∷ es) p = core_run es (core_step e p)
