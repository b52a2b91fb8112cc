-- ===== src/Auth/Remote.antt =====
-- internal/auth/manager.go: authenticateHTTP, authenticateJWT, pullJWTJWKS, RefreshJWTJWKS,
-- ReloadInternalUsers and Authenticate. Times are nanoseconds and 0 is Go's zero time.
pub mod Cache
use plux_mtx.Base.{
  ℕ, zero, suc, ◌+◌, ◌-◌, ◌*◌, ◌≤◌, ◌<◌, String, Bool, true, false, ◌≡◌, refl, ◌↔◌, Option, some,
  none, List, [], ◌∷◌, ◌==◌, ◌==s◌, ◌&&◌, ◌||◌, not, ltb, leb, is_some, is_empty, if◌then◌else◌,
  ◌>>=◌, arith,
}
use plux_mtx.Auth.State.{
  Request, Libraries, AuthManager, AuthErr, Error, Response, User, internal, http, jwt,
  http_request_failed, replied_with, jwks_unavailable, query_invalid, jwt_not_provided, jwt_invalid,
  no_permission,
}
use plux_mtx.Auth.Permissions.{matches_permission}
use plux_mtx.Auth.Users.{authenticate_internal}

-- An hour.
abbrev pub jwks_refresh_period : ℕ
jwks_refresh_period = 60 * 60 * 1000000000

pub data Keys : Type 0 where
  keys : String → Keys
  keys_err : AuthErr → Keys

pub data Encoded : Type 0 where
  encoded : String → Encoded
  encoded_err : AuthErr → Encoded

module _ (env : Libraries) where
  unfoldable pub reply : Response → Option AuthErr
  reply r =
      if ltb r.status 200 || ltb 299 r.status
      then elim r.body [
        | none ↦ some (replied_with r.status "")
        | some b ↦ some (replied_with r.status b)
      ]
      else none

  unfoldable pub authenticate_http : AuthManager → Request → Option AuthErr
  unfolding matches_permission reply
  authenticate_http m req =
      if matches_permission env m.http_exclude req
      then none
      else elim (env.post m.http_address req) [ none ↦ some http_request_failed | some r ↦ reply r ]

  -- `none` is the panic of a nil key set.
  unfoldable pub current_keys : AuthManager → Option (AuthManager × Keys)
  current_keys m = elim m.jwt_key_func [ none ↦ none | some k ↦ some (m, keys k) ]

  unfoldable pub pull_jwt_jwks : ℕ → AuthManager → Option (AuthManager × Keys)
  unfolding current_keys
  pull_jwt_jwks now m =
      if leb jwks_refresh_period (now - m.jwks_last_refresh)
      then elim (env.get_jwks m.jwt_jwks m.jwt_jwks_fingerprint) [
        | none ↦ some (m, keys_err jwks_unavailable)
        | some raw ↦ current_keys (record m { jwt_key_func = some raw; jwks_last_refresh = now })
      ]
      else current_keys m

  unfoldable pub refresh_jwt_jwks : AuthManager → AuthManager
  refresh_jwt_jwks m = record m { jwks_last_refresh = 0 }

  unfoldable pub reload_internal_users : List User → AuthManager → AuthManager
  reload_internal_users us m = record m { internal_users = us }

  -- The values of "jwt" in the query: exactly one, not empty.
  unfoldable pub jwt_of_query : List String → Option String
  jwt_of_query (v ∷ []) = if v ==s "" then none else some v
  jwt_of_query [] = none
  jwt_of_query (v ∷ w ∷ vs) = none

  unfoldable pub encoded_jwt : AuthManager → Request → Encoded
  unfolding jwt_of_query
  encoded_jwt m req =
      if not (req.credentials.token ==s "")
      then encoded req.credentials.token
      else if not (req.credentials.pass ==s "")
      then encoded req.credentials.pass
      else if m.jwt_in_http_query
      then elim (env.query_values req.query) [
        | none ↦ encoded_err query_invalid
        | some vs ↦ elim (jwt_of_query vs) [
          | none ↦ encoded_err jwt_not_provided
          | some v ↦ encoded v
        ]
      ]
      else encoded_err jwt_not_provided

  unfoldable pub authenticate_claims : AuthManager → String → Request → Option AuthErr
  unfolding encoded_jwt matches_permission
  authenticate_claims m k req = elim (encoded_jwt m req) [
    | encoded_err e ↦ some e
    | encoded v ↦ elim (env.parse_claims m.jwt_claim_key k v) [
      | none ↦ some jwt_invalid
      | some perms ↦ if not (matches_permission env perms req) then some no_permission else none
    ]
  ]

  unfoldable pub with_keys : Request → AuthManager × Keys → AuthManager × Option AuthErr
  unfolding authenticate_claims
  with_keys req (m, keys_err e) = (m, some e)
  with_keys req (m, keys k) = (m, authenticate_claims m k req)

  unfoldable pub authenticate_jwt :
      ℕ → AuthManager → Request → Option (AuthManager × Option AuthErr)
  unfolding matches_permission pull_jwt_jwks with_keys
  authenticate_jwt now m req =
      if matches_permission env m.jwt_exclude req
      then some (m, none)
      else pull_jwt_jwks now m >>= λ r. some (with_keys req r)

  unfoldable pub asks : Request → Bool
  asks req =
      req.credentials.user ==s "" && req.credentials.pass ==s "" && req.credentials.token ==s ""

  unfoldable pub answer : Request → AuthManager × Option AuthErr → AuthManager × Option Error
  unfolding asks
  answer req (m, none) = (m, none)
  answer req (m, some e) = (m, some record { wrapped = e; ask_credentials = asks req })

  unfoldable pub authenticate : ℕ → AuthManager → Request → Option (AuthManager × Option Error)
  unfolding authenticate_internal authenticate_http authenticate_jwt answer
  authenticate now m req =
      elim m.method [
        | internal ↦ some (m, authenticate_internal env m.internal_users req)
        | http ↦ some (m, authenticate_http m req)
        | jwt ↦ authenticate_jwt now m req
      ]
      >>= λ r. some (answer req r)
