-- ===== src/Tests/Logins.antt =====
-- Users, permissions and key sets; the libraries' functions are simple ones.
use mathlib.Core.List.{Memᴰ}
use plux_mtx.Base.{
  ℕ, true, ◌≡◌, ◌↔◌, ◌+◌, refl, inl, some, none, [], ◌∷◌, ◌==s◌, ◌*◌, Ensures, arith,
}
use plux_mtx.Auth.State.{Libraries, Permission, User, Request, AuthManager, jwt}
use plux_mtx.Auth.Users.{authenticate_internal, IsAdmitted, authenticate_internal-IsAdmitted}
use plux_mtx.Auth.Remote.{authenticate, pull_jwt_jwks, current_keys, keys, jwks_refresh_period}
use plux_mtx.Auth.Remote.Cache.{HasKeys, authenticate-HasKeys, pull_jwt_jwks-cached}

abbrev read_all : Permission
read_all = record { action = "read"; path = "" }

-- Texts are their own hashes; a key set can be fetched from every server.
abbrev plain : Libraries
plain = record {
  compile = λ r. some (λ s. r ==s s);
  sha256 = λ s. s;
  base64 = λ s. s;
  argon2_verify = λ s h. s ==s h;
  network_contains = λ n i. n ==s i;
  post = λ a r. none;
  query_values = λ q. some (q ∷ []);
  get_jwks = λ u f. some "keys";
  parse_claims = λ c k t. some (read_all ∷ []);
}

-- No server can be reached.
abbrev offline : Libraries
offline = record plain { get_jwks = λ u f. none }

abbrev bob : User
bob = record { user = "bob"; pass = "secret"; ips = "10.0.0.1" ∷ []; permissions = read_all ∷ [] }

abbrev bobs_read : Request
bobs_read = record {
  action = "read";
  path = "cam";
  query = "";
  protocol = "rtsp";
  id = none;
  credentials = record { user = "bob"; pass = "secret"; token = "" };
  ip = "10.0.0.1";
  custom_verify = none;
}

authenticate_internal-IsAdmitted_example :
    (authenticate_internal plain (bob ∷ []) bobs_read ≡ none)
    ↔ ((u : User) × Memᴰ u (bob ∷ []) × IsAdmitted plain u bobs_read)
authenticate_internal-IsAdmitted_example =
    authenticate_internal-IsAdmitted plain (bob ∷ []) bobs_read

abbrev fresh : AuthManager
fresh = record {
  method = jwt;
  internal_users = [];
  http_address = "";
  http_exclude = [];
  jwt_jwks = "https://keys";
  jwt_jwks_fingerprint = "";
  jwt_claim_key = "mediamtx_permissions";
  jwt_exclude = [];
  jwt_in_http_query = true;
  jwks_last_refresh = 0;
  jwt_key_func = none;
}

-- A day after the zero time.
abbrev day : ℕ
day = 24 * jwks_refresh_period

authenticate-HasKeys_example : Ensures (λ r. HasKeys r.0) (authenticate plain day fresh bobs_read)
authenticate-HasKeys_example =
    authenticate-HasKeys plain day fresh bobs_read (omega arith) (inl refl)

abbrev cached : AuthManager
cached = record fresh { jwks_last_refresh = day; jwt_key_func = some "keys" }

pull_jwt_jwks-cached_example : pull_jwt_jwks offline (day + 5) cached ≡ some (cached, keys "keys")
unfolding pull_jwt_jwks current_keys
pull_jwt_jwks-cached_example =
    pull_jwt_jwks-cached plain offline day (day + 5) fresh cached "keys" (omega arith) refl
      (omega arith)
