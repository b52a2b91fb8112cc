-- ===== src/Auth/State.antt =====
-- internal/auth: Request, Credentials, Error, Manager; internal/conf: AuthAction, AuthMethod,
-- AuthInternalUser. What third-party packages do is the record `Libraries`.
use Prim.Native.Char.{code}
use plux_mtx.Base.{ℕ, String, Bool, Option, some, none, List, ◌==◌, if◌then◌else◌}

pub data Method : Type 0 where
  internal : Method
  http : Method
  jwt : Method

pub record Permission : Type 0 where
  pub action : String
  pub path : String

pub record User : Type 0 where
  pub user : String
  pub pass : String
  pub ips : List String
  pub permissions : List Permission

pub record Credentials : Type 0 where
  pub user : String
  pub pass : String
  pub token : String

pub record Request : Type 0 where
  pub action : String
  pub path : String
  pub query : String
  pub protocol : String
  pub id : Option String
  pub credentials : Credentials
  pub ip : String
  pub custom_verify : Option (String → String → Bool)

-- The answer of the HTTP server: the status, and the body if it could be read.
pub record Response : Type 0 where
  pub status : ℕ
  pub body : Option String

pub data AuthErr : Type 0 where
  authentication_failed : AuthErr
  http_request_failed : AuthErr
  replied_with : ℕ → String → AuthErr
  jwks_unavailable : AuthErr
  query_invalid : AuthErr
  jwt_not_provided : AuthErr
  jwt_invalid : AuthErr
  no_permission : AuthErr

pub record Error : Type 0 where
  pub wrapped : AuthErr
  pub ask_credentials : Bool

-- The packages regexp, crypto/sha256, encoding/base64, argon2, net, net/http (with the body that
-- json makes of the request), net/url, keyfunc and jwt. A key set is the text of its JSON.
pub record Libraries : Type 0 where
  pub compile : String → Option (String → Bool)
  pub sha256 : String → String
  pub base64 : String → String
  pub argon2_verify : String → String → Bool
  pub network_contains : String → String → Bool
  pub post : String → Request → Option Response
  pub query_values : String → Option (List String)
  pub get_jwks : String → String → Option String
  pub parse_claims : String → String → String → Option (List Permission)

pub record AuthManager : Type 0 where
  pub method : Method
  pub internal_users : List User
  pub http_address : String
  pub http_exclude : List Permission
  pub jwt_jwks : String
  pub jwt_jwks_fingerprint : String
  pub jwt_claim_key : String
  pub jwt_exclude : List Permission
  pub jwt_in_http_query : Bool
  pub jwks_last_refresh : ℕ
  pub jwt_key_func : Option String

-- What follows a prefix.
unfoldable pub strip_prefix : String → String → Option String
strip_prefix String.[] t = some t
strip_prefix (String.◌∷◌ c s) String.[] = none
strip_prefix (String.◌∷◌ c s) (String.◌∷◌ d t) =
    let rest = strip_prefix s t in if code c == code d then rest else none
