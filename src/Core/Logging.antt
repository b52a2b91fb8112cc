-- ===== src/Core/Logging.antt =====
-- internal/core/core.go: createResources leaves the core without a logger only if the logger did not start.
use plux_mtx.Base.{ℕ, Bool, true, false, ◌≡◌, refl, ◌⊎◌, inl, inr, ◌&&◌, some, none, is_some}
use plux_mtx.Core.Settings.{LoggerSettings}
use plux_mtx.Core.State.{
  Core, Slot, Created, created, failed, ◌>>=◌, Component, no_tls, with_tls, starting, filled,
  with_logger, with_auth_manager, with_metrics, with_pprof, with_record_cleaner,
  with_playback_server, with_path_manager, with_rtsp_server, with_rtsps_server, with_rtmp_server,
  with_rtmps_server, with_hls_server, with_webrtc_server, with_srt_server, with_api,
}
use plux_mtx.Core.Create.{
  create_resources, create_logger, create_metrics, create_pprof, create_playback_server,
  create_rtsp_server, create_rtsps_server, create_rtmp_server, create_rtmps_server,
  create_hls_server, create_webrtc_server, create_srt_server, create_api,
}

-- With an error or without one, there is a logger.
abbrev pub IsLogging : Created → Type 0
IsLogging (created d) = is_some d.logger ≡ true
IsLogging (failed d) = is_some d.logger ≡ true

starting-IsLogging :
    {S : Type 0} (ok enabled : Bool) (o : Slot S) (c d : Core)
    → is_some c.logger ≡ true
    → is_some d.logger ≡ true
    → IsLogging (starting ok enabled o c d)
unfolding starting
starting-IsLogging ok enabled (some i) c d h k = k
starting-IsLogging true true none c d h k = k
starting-IsLogging true false none c d h k = k
starting-IsLogging false true none c d h k = h
starting-IsLogging false false none c d h k = k

module _ (succeeds : Component → ℕ → Bool) where
  -- There is a logger, or the logger has not started.
  abbrev Logs : (Core → Created) → Type 0
  Logs f =
      (c : Core)
      → IsLogging (f c)
        ⊎ (((d : Core) × (f c ≡ failed d)) × ((n : ℕ) × (succeeds Component.logger n ≡ false)))

  then_Logs :
      (f f' : Core → Created)
      → Logs f
      → ((d : Core) → is_some d.logger ≡ true → IsLogging (f' d))
      → Logs (λ c. f c >>= f')
  then_Logs f f' h k c = go (f c) (h c)
    where
      go :
          (r : Created)
          → IsLogging r
            ⊎ (((d : Core) × (r ≡ failed d)) × ((n : ℕ) × (succeeds Component.logger n ≡ false)))
          → IsLogging (r >>= f')
            ⊎ (((d : Core) × ((r >>= f') ≡ failed d))
                × ((n : ℕ) × (succeeds Component.logger n ≡ false)))
      go (created d) (inl l) = inl (k d l)
      go (failed d) (inl l) = inl l
      go (created d) (inr e) = cc e.0.1
      go (failed d) (inr e) = inr ((d, refl), e.1)

  logger-Logs : Logs (create_logger succeeds)
  unfolding create_logger starting with_logger filled
  logger-Logs c = go c.logger refl (succeeds Component.logger c.next_id) refl
    where
      go :
          (o : Slot LoggerSettings)
          → c.logger ≡ o
          → (b : Bool) → succeeds Component.logger c.next_id ≡ b
          → IsLogging (create_logger succeeds c)
            ⊎ (((d : Core) × (create_logger succeeds c ≡ failed d))
                × ((n : ℕ) × (succeeds Component.logger n ≡ false)))
      go (some i) e b k = inl (rw e refl)
      go none e true k = inl (rw (e, k) refl)
      go none e false k = inr ((c, rw (e, k) refl), (c.next_id, k))

  pub create_resources-Logs : Logs (create_resources succeeds)
  unfolding create_resources create_metrics create_pprof create_playback_server create_rtsp_server
      create_rtsps_server create_rtmp_server create_rtmps_server create_hls_server
      create_webrtc_server create_srt_server create_api with_auth_manager with_metrics with_pprof
      with_record_cleaner with_playback_server with_path_manager with_rtsp_server with_rtsps_server
      with_rtmp_server with_rtmps_server with_hls_server with_webrtc_server with_srt_server with_api
  create_resources-Logs =
      (then_Logs _ (create_api succeeds)
        (then_Logs _ (create_srt_server succeeds)
          (then_Logs _ (create_webrtc_server succeeds)
            (then_Logs _ (create_hls_server succeeds)
              (then_Logs _ (create_rtmps_server succeeds)
                (then_Logs _ (create_rtmp_server succeeds)
                  (then_Logs _ (create_rtsps_server succeeds)
                    (then_Logs _ (create_rtsp_server succeeds)
                      (then_Logs _ (λ d. created (with_path_manager d))
                        (then_Logs _ (create_playback_server succeeds)
                          (then_Logs _ (λ d. created (with_record_cleaner d))
                            (then_Logs _ (create_pprof succeeds)
                              (then_Logs _ (create_metrics succeeds)
                                (then_Logs _ (λ d. created (with_auth_manager d)) logger-Logs
                                  (λ d l. l))
                                (λ d l.
                                  starting-IsLogging (succeeds Component.metrics d.next_id)
                                    d.conf.metrics d.metrics d (with_metrics d) l l))
                              (λ d l.
                                starting-IsLogging (succeeds Component.pprof d.next_id) d.conf.pprof
                                  d.pprof d (with_pprof d) l l))
                            (λ d l. l))
                          (λ d l.
                            starting-IsLogging (succeeds Component.playback d.next_id)
                              d.conf.playback d.playback_server d (with_playback_server d) l l))
                        (λ d l. l))
                      (λ d l.
                        starting-IsLogging (succeeds Component.rtsp d.next_id)
                          (d.conf.rtsp && no_tls d.conf.rtsp_encryption) d.rtsp_server d
                          (with_rtsp_server d) l l))
                    (λ d l.
                      starting-IsLogging (succeeds Component.rtsps d.next_id)
                        (d.conf.rtsp && with_tls d.conf.rtsp_encryption) d.rtsps_server d
                        (with_rtsps_server d) l l))
                  (λ d l.
                    starting-IsLogging (succeeds Component.rtmp d.next_id)
                      (d.conf.rtmp && no_tls d.conf.rtmp_encryption) d.rtmp_server d
                      (with_rtmp_server d) l l))
                (λ d l.
                  starting-IsLogging (succeeds Component.rtmps d.next_id)
                    (d.conf.rtmp && with_tls d.conf.rtmp_encryption) d.rtmps_server d
                    (with_rtmps_server d) l l))
              (λ d l.
                starting-IsLogging (succeeds Component.hls d.next_id) d.conf.hls d.hls_server d
                  (with_hls_server d) l l))
            (λ d l.
              starting-IsLogging (succeeds Component.webrtc d.next_id) d.conf.webrtc d.webrtc_server
                d (with_webrtc_server d) l l))
          (λ d l.
            starting-IsLogging (succeeds Component.srt d.next_id) d.conf.srt d.srt_server d
              (with_srt_server d) l l))
        (λ d l.
          starting-IsLogging (succeeds Component.api d.next_id) d.conf.api d.api d (with_api d) l
            l))
