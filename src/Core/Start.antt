-- ===== src/Core/Start.antt =====
-- createResources: if no component fails, it fills the slots of all that are enabled.
use plux_mtx.Base.{ℕ, Bool, true, false, ◌≡◌, refl, sym, ap, ◌∙◌, subst, ◌&&◌, some, none}
use plux_mtx.Core.Conf.{Conf}
use plux_mtx.Core.Settings.{
  logger_settings, auth_settings, http_settings, playback_settings, path_manager_settings,
  rtsp_settings, rtsps_settings,
}
use plux_mtx.Core.Servers.{
  rtmp_settings, rtmps_settings, hls_settings, webrtc_settings, srt_settings, api_settings,
}
use plux_mtx.Core.Closes.{at_least_one_record_delete_after}
use plux_mtx.Core.State.{
  Core, Slot, Created, created, failed, ◌>>=◌, Component, id_of, no_tls, with_tls, sources_of,
  starting, with_logger, with_auth_manager, with_metrics, with_pprof, with_record_cleaner,
  with_playback_server, with_path_manager, with_rtsp_server, with_rtsps_server, with_rtmp_server,
  with_rtmps_server, with_hls_server, with_webrtc_server, with_srt_server, with_api,
}
use plux_mtx.Core.Create.{
  create_resources, create_logger, create_metrics, create_pprof, create_playback_server,
  create_rtsp_server, create_rtsps_server, create_rtmp_server, create_rtmps_server,
  create_hls_server, create_webrtc_server, create_srt_server, create_api,
}
use plux_mtx.Core.Reload.{empty_core}
use plux_mtx.Core.Fresh.{Fresh, filled-Fresh}
use plux_mtx.Core.Same.{compared_rtsps, compared_api}
use plux_mtx.Core.Current.{IsRest, IsApiCurrent, IsFilled, all_filled}

-- A result that is not an error has the property.
abbrev pub IfCreated : (Core → Type 0) → Created → Type 0
IfCreated P (created d) = P d
IfCreated P (failed d) = Unit

-- What a part of createResources makes of the core.
abbrev Makes : (Core → Created) → (Core → Core) → Type 0
Makes f g = (c : Core) → IfCreated (λ d. d ≡ g c) (f c)

abbrev AlwaysMakes : (Core → Created) → (Core → Core) → Type 0
AlwaysMakes f g = (c : Core) → f c ≡ created (g c)

then_Makes :
    (f f' : Core → Created) (g g' : Core → Core)
    → Makes f g
    → Makes f' g'
    → Makes (λ c. f c >>= f') (λ c. g' (g c))
then_Makes f f' g g' h h' c = go (f c) (h c)
  where
    go : (r : Created) → IfCreated (λ d. d ≡ g c) r → IfCreated (λ d. d ≡ g' (g c)) (r >>= f')
    go (created d) e = subst (λ x. IfCreated (λ d. d ≡ g' x) (f' d)) e (h' d)
    go (failed d) e = tt

then_AlwaysMakes :
    (f f' : Core → Created) (g g' : Core → Core)
    → AlwaysMakes f g
    → AlwaysMakes f' g'
    → AlwaysMakes (λ c. f c >>= f') (λ c. g' (g c))
then_AlwaysMakes f f' g g' h h' c = ap (λ r. r >>= f') (h c) ∙ h' (g c)

starting-IfCreated :
    {S : Type 0} (ok enabled : Bool) (o : Slot S) (c d : Core)
    → IfCreated (λ e. e ≡ d) (starting ok enabled o c d)
unfolding starting
starting-IfCreated ok enabled (some i) c d = refl
starting-IfCreated true true none c d = refl
starting-IfCreated true false none c d = refl
starting-IfCreated false true none c d = tt
starting-IfCreated false false none c d = refl

starting_created :
    {S : Type 0} (ok enabled : Bool) (o : Slot S) (c d : Core)
    → ok ≡ true
    → starting ok enabled o c d ≡ created d
unfolding starting
starting_created ok enabled (some i) c d h = refl
starting_created true true none c d h = refl
starting_created true false none c d h = refl
starting_created false enabled none c d h = cc

module _ (succeeds : Component → ℕ → Bool) where
  pub create_resources-IfCreated :
      (c : Core) → IfCreated (λ d. d ≡ all_filled c) (create_resources succeeds c)
  unfolding create_resources create_logger create_metrics create_pprof create_playback_server
      create_rtsp_server create_rtsps_server create_rtmp_server create_rtmps_server
      create_hls_server create_webrtc_server create_srt_server create_api
  create_resources-IfCreated =
      (then_Makes _ (create_api succeeds) _ with_api
        (then_Makes _ (create_srt_server succeeds) _ with_srt_server
          (then_Makes _ (create_webrtc_server succeeds) _ with_webrtc_server
            (then_Makes _ (create_hls_server succeeds) _ with_hls_server
              (then_Makes _ (create_rtmps_server succeeds) _ with_rtmps_server
                (then_Makes _ (create_rtmp_server succeeds) _ with_rtmp_server
                  (then_Makes _ (create_rtsps_server succeeds) _ with_rtsps_server
                    (then_Makes _ (create_rtsp_server succeeds) _ with_rtsp_server
                      (then_Makes _ (λ d. created (with_path_manager d)) _ with_path_manager
                        (then_Makes _ (create_playback_server succeeds) _ with_playback_server
                          (then_Makes _ (λ d. created (with_record_cleaner d)) _ with_record_cleaner
                            (then_Makes _ (create_pprof succeeds) _ with_pprof
                              (then_Makes _ (create_metrics succeeds) _ with_metrics
                                (then_Makes _ (λ d. created (with_auth_manager d)) _
                                  with_auth_manager
                                  (λ d.
                                    starting-IfCreated (succeeds Component.logger d.next_id) true
                                      d.logger d (with_logger d))
                                  (λ d. refl))
                                (λ d.
                                  starting-IfCreated (succeeds Component.metrics d.next_id)
                                    d.conf.metrics d.metrics d (with_metrics d)))
                              (λ d.
                                starting-IfCreated (succeeds Component.pprof d.next_id) d.conf.pprof
                                  d.pprof d (with_pprof d)))
                            (λ d. refl))
                          (λ d.
                            starting-IfCreated (succeeds Component.playback d.next_id)
                              d.conf.playback d.playback_server d (with_playback_server d)))
                        (λ d. refl))
                      (λ d.
                        starting-IfCreated (succeeds Component.rtsp d.next_id)
                          (d.conf.rtsp && no_tls d.conf.rtsp_encryption) d.rtsp_server d
                          (with_rtsp_server d)))
                    (λ d.
                      starting-IfCreated (succeeds Component.rtsps d.next_id)
                        (d.conf.rtsp && with_tls d.conf.rtsp_encryption) d.rtsps_server d
                        (with_rtsps_server d)))
                  (λ d.
                    starting-IfCreated (succeeds Component.rtmp d.next_id)
                      (d.conf.rtmp && no_tls d.conf.rtmp_encryption) d.rtmp_server d
                      (with_rtmp_server d)))
                (λ d.
                  starting-IfCreated (succeeds Component.rtmps d.next_id)
                    (d.conf.rtmp && with_tls d.conf.rtmp_encryption) d.rtmps_server d
                    (with_rtmps_server d)))
              (λ d.
                starting-IfCreated (succeeds Component.hls d.next_id) d.conf.hls d.hls_server d
                  (with_hls_server d)))
            (λ d.
              starting-IfCreated (succeeds Component.webrtc d.next_id) d.conf.webrtc d.webrtc_server
                d (with_webrtc_server d)))
          (λ d.
            starting-IfCreated (succeeds Component.srt d.next_id) d.conf.srt d.srt_server d
              (with_srt_server d)))
        (λ d.
          starting-IfCreated (succeeds Component.api d.next_id) d.conf.api d.api d (with_api d)))

  pub create_resources_created :
      ((k : Component) (n : ℕ) → succeeds k n ≡ true)
      → (c : Core) → create_resources succeeds c ≡ created (all_filled c)
  unfolding create_resources create_logger create_metrics create_pprof create_playback_server
      create_rtsp_server create_rtsps_server create_rtmp_server create_rtmps_server
      create_hls_server create_webrtc_server create_srt_server create_api
  create_resources_created ok =
      (then_AlwaysMakes _ (create_api succeeds) _ with_api
        (then_AlwaysMakes _ (create_srt_server succeeds) _ with_srt_server
          (then_AlwaysMakes _ (create_webrtc_server succeeds) _ with_webrtc_server
            (then_AlwaysMakes _ (create_hls_server succeeds) _ with_hls_server
              (then_AlwaysMakes _ (create_rtmps_server succeeds) _ with_rtmps_server
                (then_AlwaysMakes _ (create_rtmp_server succeeds) _ with_rtmp_server
                  (then_AlwaysMakes _ (create_rtsps_server succeeds) _ with_rtsps_server
                    (then_AlwaysMakes _ (create_rtsp_server succeeds) _ with_rtsp_server
                      (then_AlwaysMakes _ (λ d. created (with_path_manager d)) _ with_path_manager
                        (then_AlwaysMakes _ (create_playback_server succeeds) _ with_playback_server
                          (then_AlwaysMakes _ (λ d. created (with_record_cleaner d)) _
                            with_record_cleaner
                            (then_AlwaysMakes _ (create_pprof succeeds) _ with_pprof
                              (then_AlwaysMakes _ (create_metrics succeeds) _ with_metrics
                                (then_AlwaysMakes _ (λ d. created (with_auth_manager d)) _
                                  with_auth_manager
                                  (λ d.
                                    starting_created (succeeds Component.logger d.next_id) true
                                      d.logger d (with_logger d) (ok Component.logger d.next_id))
                                  (λ d. refl))
                                (λ d.
                                  starting_created (succeeds Component.metrics d.next_id)
                                    d.conf.metrics d.metrics d (with_metrics d)
                                    (ok Component.metrics d.next_id)))
                              (λ d.
                                starting_created (succeeds Component.pprof d.next_id) d.conf.pprof
                                  d.pprof d (with_pprof d) (ok Component.pprof d.next_id)))
                            (λ d. refl))
                          (λ d.
                            starting_created (succeeds Component.playback d.next_id) d.conf.playback
                              d.playback_server d (with_playback_server d)
                              (ok Component.playback d.next_id)))
                        (λ d. refl))
                      (λ d.
                        starting_created (succeeds Component.rtsp d.next_id)
                          (d.conf.rtsp && no_tls d.conf.rtsp_encryption) d.rtsp_server d
                          (with_rtsp_server d) (ok Component.rtsp d.next_id)))
                    (λ d.
                      starting_created (succeeds Component.rtsps d.next_id)
                        (d.conf.rtsp && with_tls d.conf.rtsp_encryption) d.rtsps_server d
                        (with_rtsps_server d) (ok Component.rtsps d.next_id)))
                  (λ d.
                    starting_created (succeeds Component.rtmp d.next_id)
                      (d.conf.rtmp && no_tls d.conf.rtmp_encryption) d.rtmp_server d
                      (with_rtmp_server d) (ok Component.rtmp d.next_id)))
                (λ d.
                  starting_created (succeeds Component.rtmps d.next_id)
                    (d.conf.rtmp && with_tls d.conf.rtmp_encryption) d.rtmps_server d
                    (with_rtmps_server d) (ok Component.rtmps d.next_id)))
              (λ d.
                starting_created (succeeds Component.hls d.next_id) d.conf.hls d.hls_server d
                  (with_hls_server d) (ok Component.hls d.next_id)))
            (λ d.
              starting_created (succeeds Component.webrtc d.next_id) d.conf.webrtc d.webrtc_server d
                (with_webrtc_server d) (ok Component.webrtc d.next_id)))
          (λ d.
            starting_created (succeeds Component.srt d.next_id) d.conf.srt d.srt_server d
              (with_srt_server d) (ok Component.srt d.next_id)))
        (λ d.
          starting_created (succeeds Component.api d.next_id) d.conf.api d.api d (with_api d)
            (ok Component.api d.next_id)))

-- The components that createResources starts when nothing runs yet.
module _ (k : Conf) (d : Core) (f : IsFilled (empty_core k) d) where
  pub started-IsRest : IsRest k d
  unfolding empty_core
  started-IsRest = record {
    logger =
        subst (Fresh (λ s. s) true (logger_settings k)) (sym f.logger.1)
          (filled-Fresh (λ s. s) true (logger_settings k) f.logger.0);
    auth_manager =
        subst (Fresh (λ s. s) true (auth_settings k)) (sym f.auth_manager.1)
          (filled-Fresh (λ s. s) true (auth_settings k) f.auth_manager.0);
    metrics =
        subst (Fresh (λ s. s) k.metrics (http_settings k.metrics_http k (id_of d.auth_manager)))
          (sym f.metrics.1)
          (filled-Fresh (λ s. s) k.metrics (http_settings k.metrics_http k (id_of d.auth_manager))
            f.metrics.0);
    pprof =
        subst (Fresh (λ s. s) k.pprof (http_settings k.pprof_http k (id_of d.auth_manager)))
          (sym f.pprof.1)
          (filled-Fresh (λ s. s) k.pprof (http_settings k.pprof_http k (id_of d.auth_manager))
            f.pprof.0);
    record_cleaner =
        subst (Fresh (λ s. s) (at_least_one_record_delete_after k.paths) k.paths)
          (sym f.record_cleaner.1)
          (filled-Fresh (λ s. s) (at_least_one_record_delete_after k.paths) k.paths
            f.record_cleaner.0);
    playback_server =
        subst (Fresh (λ s. s) k.playback (playback_settings k (id_of d.auth_manager)))
          (sym f.playback_server.1)
          (filled-Fresh (λ s. s) k.playback (playback_settings k (id_of d.auth_manager))
            f.playback_server.0);
    path_manager =
        subst
          (Fresh (λ s. s) true (path_manager_settings k (id_of d.auth_manager) (id_of d.metrics)))
          (sym f.path_manager.1)
          (filled-Fresh (λ s. s) true
            (path_manager_settings k (id_of d.auth_manager) (id_of d.metrics)) f.path_manager.0);
    rtsp_server =
        subst
          (Fresh (λ s. s) (k.rtsp && no_tls k.rtsp_encryption)
            (rtsp_settings k (id_of d.metrics) (id_of d.path_manager)))
          (sym f.rtsp_server.1)
          (filled-Fresh (λ s. s) (k.rtsp && no_tls k.rtsp_encryption)
            (rtsp_settings k (id_of d.metrics) (id_of d.path_manager)) f.rtsp_server.0);
    rtsps_server =
        subst
          (Fresh compared_rtsps (k.rtsp && with_tls k.rtsp_encryption)
            (rtsps_settings k (id_of d.metrics) (id_of d.path_manager)))
          (sym f.rtsps_server.1)
          (filled-Fresh compared_rtsps (k.rtsp && with_tls k.rtsp_encryption)
            (rtsps_settings k (id_of d.metrics) (id_of d.path_manager)) f.rtsps_server.0);
    rtmp_server =
        subst
          (Fresh (λ s. s) (k.rtmp && no_tls k.rtmp_encryption)
            (rtmp_settings k (id_of d.metrics) (id_of d.path_manager)))
          (sym f.rtmp_server.1)
          (filled-Fresh (λ s. s) (k.rtmp && no_tls k.rtmp_encryption)
            (rtmp_settings k (id_of d.metrics) (id_of d.path_manager)) f.rtmp_server.0);
    rtmps_server =
        subst
          (Fresh (λ s. s) (k.rtmp && with_tls k.rtmp_encryption)
            (rtmps_settings k (id_of d.metrics) (id_of d.path_manager)))
          (sym f.rtmps_server.1)
          (filled-Fresh (λ s. s) (k.rtmp && with_tls k.rtmp_encryption)
            (rtmps_settings k (id_of d.metrics) (id_of d.path_manager)) f.rtmps_server.0);
    hls_server =
        subst (Fresh (λ s. s) k.hls (hls_settings k (id_of d.metrics) (id_of d.path_manager)))
          (sym f.hls_server.1)
          (filled-Fresh (λ s. s) k.hls (hls_settings k (id_of d.metrics) (id_of d.path_manager))
            f.hls_server.0);
    webrtc_server =
        subst (Fresh (λ s. s) k.webrtc (webrtc_settings k (id_of d.metrics) (id_of d.path_manager)))
          (sym f.webrtc_server.1)
          (filled-Fresh (λ s. s) k.webrtc
            (webrtc_settings k (id_of d.metrics) (id_of d.path_manager)) f.webrtc_server.0);
    srt_server =
        subst (Fresh (λ s. s) k.srt (srt_settings k (id_of d.metrics) (id_of d.path_manager)))
          (sym f.srt_server.1)
          (filled-Fresh (λ s. s) k.srt (srt_settings k (id_of d.metrics) (id_of d.path_manager))
            f.srt_server.0);
  }

  pub started-IsApiCurrent : IsApiCurrent k d
  unfolding empty_core
  started-IsApiCurrent =
      let w = api_settings k (id_of d.auth_manager) (sources_of d) in
      subst (Fresh compared_api k.api w) (sym f.api.1) (filled-Fresh compared_api k.api w f.api.0)
