-- ===== src/Core/Same/Connections.antt =====
-- The API, and the components that it answers about.
use plux_mtx.Base.{ℕ, Bool, false, ◌≡◌, ◌||◌, Option, none, arith}
use plux_mtx.Base.Equality.{
  same, Bool-Comparable, ℕ-Comparable, String-Comparable, List-String-Comparable, List-ℕ-Comparable,
}
use plux_mtx.Core.Conf.{Conf, Method-Comparable, Permissions-Comparable, Encryption-Comparable}
use plux_mtx.Core.Settings.{HttpSettings, http_settings}
use plux_mtx.Core.Servers.{ApiSources, ApiSettings, api_settings}
use plux_mtx.Core.Closes.{
  close_auth_manager, close_path_manager, close_rtsp_server, close_rtsps_server, close_rtmp_server,
  close_hls_server, close_webrtc_server, close_srt_server, close_api, close_sources,
}
use plux_mtx.Core.Same.Managers.{http_same}

-- The settings of the API without the encrypted RTMP server, which closeAPI does not mention.
abbrev pub compared_sources : ApiSources → ApiSources
compared_sources s = record s { rtmps_server = none }

abbrev pub compared_api : ApiSettings → ApiSettings
compared_api s = record s { sources = compared_sources s.sources }

-- The settings of the API without its copy of the configuration, too.
abbrev pub connected_api : ApiSettings → HttpSettings × ApiSources
connected_api s = (s.server, compared_sources s.sources)

or_parts :
    (a b c d e f g : Bool)
    → (a || b || c || d || e || f || g) ≡ false
    → (a ≡ false)
      × (b ≡ false)
      × (c ≡ false)
      × (d ≡ false)
      × (e ≡ false)
      × (f ≡ false)
      × (g ≡ false)
or_parts a b c d e f g h = ground arith

pub sources_same :
    (new old : Conf) (t s : ApiSources)
    → (close_path_manager new old ≡ false → t.path_manager ≡ s.path_manager)
    → (close_rtsp_server new old ≡ false → t.rtsp_server ≡ s.rtsp_server)
    → (close_rtsps_server new old ≡ false → t.rtsps_server ≡ s.rtsps_server)
    → (close_rtmp_server new old ≡ false → t.rtmp_server ≡ s.rtmp_server)
    → (close_hls_server new old ≡ false → t.hls_server ≡ s.hls_server)
    → (close_webrtc_server new old ≡ false → t.webrtc_server ≡ s.webrtc_server)
    → (close_srt_server new old ≡ false → t.srt_server ≡ s.srt_server)
    → close_sources new old ≡ false
    → compared_sources t ≡ compared_sources s
unfolding close_sources
sources_same new old t s manager rtsp rtsps rtmp hls webrtc srt h =
    let p =
      or_parts (close_path_manager new old) (close_rtsp_server new old) (close_rtsps_server new old)
        (close_rtmp_server new old) (close_hls_server new old) (close_webrtc_server new old)
        (close_srt_server new old) h in
    cc (manager p.0, rtsp p.1, rtsps p.2, rtmp p.3, hls p.4, webrtc p.5, srt p.6)

api_parts :
    (new old : Conf) (a' a : Option ℕ)
    → (close_auth_manager new old ≡ false → a' ≡ a)
    → close_api new old ≡ false
    → (new.api ≡ old.api)
      × (http_settings new.api_http new a' ≡ http_settings old.api_http old a)
      × (close_sources new old ≡ false)
unfolding close_api http_settings
api_parts new old a' a auth h = ground (
  arith,
  auth,
  http_same new.api_http old.api_http,
  same new.api old.api,
  same new.read_timeout old.read_timeout,
  same new.write_timeout old.write_timeout,
)

pub api_same :
    (new old : Conf) (a' a : Option ℕ) (t s : ApiSources)
    → (close_auth_manager new old ≡ false → a' ≡ a)
    → (close_sources new old ≡ false → compared_sources t ≡ compared_sources s)
    → close_api new old ≡ false
    → (new.api ≡ old.api)
      × (compared_api (api_settings new a' t)
          ≡ compared_api (record (api_settings old a s) { conf = new }))
unfolding close_api api_settings
api_same new old a' a t s auth sources h =
    let (e, f, b) = api_parts new old a' a auth h in (e, cc (f, sources b))
