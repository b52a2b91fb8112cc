-- ===== src/Auth/Remote/Cache.antt =====
-- The cached key set: fetched at most once an hour, and never used before it is fetched.
use plux_mtx.Base.{ℕ, String, ◌+◌, ◌-◌, ◌≤◌, ◌<◌, ◌≡◌, ◌⊎◌, some, is_some, true, Ensures, arith}
use plux_mtx.Auth.State.{Libraries, AuthManager, Request}
use plux_mtx.Auth.Remote.{
  keys, jwks_refresh_period, pull_jwt_jwks, current_keys, authenticate, authenticate_jwt, answer,
  with_keys,
}

-- A key set is cached, unless none was fetched since the start.
abbrev pub HasKeys : AuthManager → Type 0
HasKeys m = (m.jwks_last_refresh ≡ 0) ⊎ (is_some m.jwt_key_func ≡ true)

-- Once the first hour of Go's time is over, Authenticate never uses a key set that was not fetched
-- (it does not panic), whatever the network answers, and keeps a manager with that property.
pub authenticate-HasKeys :
    (env : Libraries) (now : ℕ) (m : AuthManager) (req : Request)
    → jwks_refresh_period ≤ now
    → HasKeys m
    → Ensures (λ r. HasKeys r.0) (authenticate env now m req)
unfolding authenticate authenticate_jwt pull_jwt_jwks current_keys answer with_keys
authenticate-HasKeys env now m req l h = ground arith

-- After a successful fetch no call before the hour is over fetches again: it gives the same keys and
-- changes nothing, whatever the server would answer then.
pub pull_jwt_jwks-cached :
    (env later : Libraries) (t u : ℕ) (m n : AuthManager) (k : String)
    → jwks_refresh_period ≤ t - m.jwks_last_refresh
    → pull_jwt_jwks env t m ≡ some (n, keys k)
    → u < t + jwks_refresh_period
    → pull_jwt_jwks later u n ≡ some (n, keys k)
unfolding pull_jwt_jwks current_keys
pull_jwt_jwks-cached env later t u m n k l h e = ground arith
