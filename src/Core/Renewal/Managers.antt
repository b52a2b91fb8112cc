-- ===== src/Core/Renewal/Managers.antt =====
-- The components before the streaming servers, one by one.
use plux_mtx.Base.{Bool, true, false, ◌≡◌, refl, sym, ap, ◌∙◌}
use plux_mtx.Base.Equality.{differs, same}
use plux_mtx.Core.Conf.{Conf, Users-Comparable, PathConfs-Comparable}
use plux_mtx.Core.Settings.{
  logger_settings, auth_settings, http_settings, playback_settings, path_manager_settings,
}
use plux_mtx.Core.Closes.{
  close_logger, close_auth_manager, close_metrics, close_pprof, close_recorder_cleaner,
  close_playback_server, close_path_manager, at_least_one_record_delete_after,
}
use plux_mtx.Core.State.{Core, id_of}
use plux_mtx.Core.Reload.{
  close_resources, reloaded, set_users, set_cleaner_confs, set_playback_confs, set_manager_confs,
}
use plux_mtx.Core.Fresh.{Fresh, renewed, reloaded-Fresh, reloaded_id}
use plux_mtx.Core.Same.{
  logger_same, auth_same, metrics_same, pprof_same, playback_same, path_manager_same, cleaner_same,
}
use plux_mtx.Core.Current.{IsRest, IsFilled}

abbrev pub closed_core : Conf → Bool → Core → Core
closed_core new by_api c = record (close_resources new by_api c) { conf = new }

module _ (new : Conf) (by_api : Bool) (c d : Core) (v : IsRest c.conf c)
    (f : IsFilled (closed_core new by_api c) d) where
  pub logger_renewed :
      Fresh (λ s. s) true (logger_settings new) d.logger
      × (close_logger new c.conf ≡ false → id_of d.logger ≡ id_of c.logger)
  unfolding close_resources
  logger_renewed =
      let (n, e) = f.logger in
      renewed (λ s. s) (close_logger new c.conf) true true (logger_settings new)
        (logger_settings c.conf) n c.logger d.logger e v.logger
        (λ h. (refl, logger_same new c.conf h))

  pub auth_manager_renewed :
      Fresh (λ s. s) true (auth_settings new) d.auth_manager
      × (close_auth_manager new c.conf ≡ false → id_of d.auth_manager ≡ id_of c.auth_manager)
  unfolding close_resources auth_settings
  auth_manager_renewed =
      let (n, e) = f.auth_manager in
      let (h, i) =
        renewed (λ s. s) (close_auth_manager new c.conf) true true (auth_settings new)
          (set_users new.auth_internal_users (auth_settings c.conf)) n
          (reloaded (differs new.auth_internal_users c.conf.auth_internal_users)
            (set_users new.auth_internal_users) c.auth_manager)
          d.auth_manager e
          (reloaded-Fresh (differs new.auth_internal_users c.conf.auth_internal_users) true
            (set_users new.auth_internal_users) (auth_settings c.conf)
            (set_users new.auth_internal_users (auth_settings c.conf)) c.auth_manager (λ h. refl)
            (λ h.
              ap (λ us. set_users us (auth_settings c.conf))
                (sym (same new.auth_internal_users c.conf.auth_internal_users h)))
            v.auth_manager)
          (λ h. (refl, auth_same new c.conf h)) in
      (
        h,
        λ k.
            i k
            ∙ reloaded_id (differs new.auth_internal_users c.conf.auth_internal_users)
                (set_users new.auth_internal_users) c.auth_manager,
      )

  pub metrics_renewed :
      Fresh
        (λ s. s)
        new.metrics
        (http_settings new.metrics_http new (id_of d.auth_manager))
        d.metrics
      × (close_metrics new c.conf ≡ false → id_of d.metrics ≡ id_of c.metrics)
  unfolding close_resources
  metrics_renewed =
      let (n, e) = f.metrics in
      renewed (λ s. s) (close_metrics new c.conf) new.metrics c.conf.metrics
        (http_settings new.metrics_http new (id_of d.auth_manager))
        (http_settings c.conf.metrics_http c.conf (id_of c.auth_manager)) n c.metrics d.metrics e
        v.metrics
        (metrics_same new c.conf (id_of d.auth_manager) (id_of c.auth_manager)
          auth_manager_renewed.1)

  pub pprof_renewed :
      Fresh (λ s. s) new.pprof (http_settings new.pprof_http new (id_of d.auth_manager)) d.pprof
      × (close_pprof new c.conf ≡ false → id_of d.pprof ≡ id_of c.pprof)
  unfolding close_resources
  pprof_renewed =
      let (n, e) = f.pprof in
      renewed (λ s. s) (close_pprof new c.conf) new.pprof c.conf.pprof
        (http_settings new.pprof_http new (id_of d.auth_manager))
        (http_settings c.conf.pprof_http c.conf (id_of c.auth_manager)) n c.pprof d.pprof e v.pprof
        (pprof_same new c.conf (id_of d.auth_manager) (id_of c.auth_manager) auth_manager_renewed.1)

  pub record_cleaner_renewed :
      Fresh (λ s. s) (at_least_one_record_delete_after new.paths) new.paths d.record_cleaner
      × (close_recorder_cleaner new c.conf ≡ false
          → id_of d.record_cleaner ≡ id_of c.record_cleaner)
  unfolding close_resources
  record_cleaner_renewed =
      let (n, e) = f.record_cleaner in
      let (h, i) =
        renewed (λ s. s) (close_recorder_cleaner new c.conf)
          (at_least_one_record_delete_after new.paths)
          (at_least_one_record_delete_after c.conf.paths) new.paths
          (set_cleaner_confs new.paths c.conf.paths) n
          (reloaded (differs new.paths c.conf.paths) (set_cleaner_confs new.paths) c.record_cleaner)
          d.record_cleaner e
          (reloaded-Fresh (differs new.paths c.conf.paths)
            (at_least_one_record_delete_after c.conf.paths) (set_cleaner_confs new.paths)
            c.conf.paths (set_cleaner_confs new.paths c.conf.paths) c.record_cleaner (λ h. refl)
            (λ h.
              ap (λ ps. set_cleaner_confs ps c.conf.paths) (sym (same new.paths c.conf.paths h)))
            v.record_cleaner)
          (λ h. (cleaner_same new c.conf h, refl)) in
      (
        h,
        λ k.
            i k
            ∙ reloaded_id (differs new.paths c.conf.paths) (set_cleaner_confs new.paths)
                c.record_cleaner,
      )

  pub playback_server_renewed :
      Fresh (λ s. s) new.playback (playback_settings new (id_of d.auth_manager)) d.playback_server
      × (close_playback_server new c.conf ≡ false
          → id_of d.playback_server ≡ id_of c.playback_server)
  unfolding close_resources playback_settings
  playback_server_renewed =
      let (n, e) = f.playback_server in
      let (h, i) =
        renewed (λ s. s) (close_playback_server new c.conf) new.playback c.conf.playback
          (playback_settings new (id_of d.auth_manager))
          (set_playback_confs new.paths (playback_settings c.conf (id_of c.auth_manager))) n
          (reloaded (differs new.paths c.conf.paths) (set_playback_confs new.paths)
            c.playback_server)
          d.playback_server e
          (reloaded-Fresh (differs new.paths c.conf.paths) c.conf.playback
            (set_playback_confs new.paths) (playback_settings c.conf (id_of c.auth_manager))
            (set_playback_confs new.paths (playback_settings c.conf (id_of c.auth_manager)))
            c.playback_server (λ h. refl)
            (λ h.
              ap (λ ps. set_playback_confs ps (playback_settings c.conf (id_of c.auth_manager)))
                (sym (same new.paths c.conf.paths h)))
            v.playback_server)
          (playback_same new c.conf (id_of d.auth_manager) (id_of c.auth_manager)
            auth_manager_renewed.1) in
      (
        h,
        λ k.
            i k
            ∙ reloaded_id (differs new.paths c.conf.paths) (set_playback_confs new.paths)
                c.playback_server,
      )

  pub path_manager_renewed :
      Fresh
        (λ s. s)
        true
        (path_manager_settings new (id_of d.auth_manager) (id_of d.metrics))
        d.path_manager
      × (close_path_manager new c.conf ≡ false → id_of d.path_manager ≡ id_of c.path_manager)
  unfolding close_resources path_manager_settings
  path_manager_renewed =
      let (n, e) = f.path_manager in
      let (h, i) =
        renewed (λ s. s) (close_path_manager new c.conf) true true
          (path_manager_settings new (id_of d.auth_manager) (id_of d.metrics))
          (set_manager_confs new.paths
            (path_manager_settings c.conf (id_of c.auth_manager) (id_of c.metrics)))
          n (reloaded (differs new.paths c.conf.paths) (set_manager_confs new.paths) c.path_manager)
          d.path_manager e
          (reloaded-Fresh (differs new.paths c.conf.paths) true (set_manager_confs new.paths)
            (path_manager_settings c.conf (id_of c.auth_manager) (id_of c.metrics))
            (set_manager_confs new.paths
              (path_manager_settings c.conf (id_of c.auth_manager) (id_of c.metrics)))
            c.path_manager (λ h. refl)
            (λ h.
              ap
                (λ ps.
                  set_manager_confs ps
                    (path_manager_settings c.conf (id_of c.auth_manager) (id_of c.metrics)))
                (sym (same new.paths c.conf.paths h)))
            v.path_manager)
          (λ h. (
            refl,
            path_manager_same new c.conf (id_of d.auth_manager) (id_of c.auth_manager)
                auth_manager_renewed.1 (id_of d.metrics) (id_of c.metrics) metrics_renewed.1 h,
          )) in
      (
        h,
        λ k.
            i k
            ∙ reloaded_id (differs new.paths c.conf.paths) (set_manager_confs new.paths)
                c.path_manager,
      )
