-- ===== src/Auth/Users.antt =====
-- internal/auth/manager.go: authenticateInternal and authenticateWithUser;
-- internal/conf/credential.go: Check; internal/conf/ip_networks.go: Contains.
use mathlib.Core.List.{Memᴰ}
use mathlib.Core.List.Memᴰ.{head, tail}
use plux_mtx.Base.{
  String, Bool, true, false, ◌≡◌, refl, ◌↔◌, ◌⊎◌, inl, inr, Option, some, none, List, [], ◌∷◌,
  ◌==s◌, ◌&&◌, ◌||◌, not, is_empty, if◌then◌else◌, Bool-cases, subst, text_eq, eq_text, arith,
}
use plux_mtx.Auth.State.{Request, Libraries, User, AuthErr, authentication_failed, strip_prefix}
use plux_mtx.Auth.Permissions.{
  matches_permission, IsGranted, matches_permission-IsGranted, IsGranted-matches_permission,
}

module _ (env : Libraries) where
  unfoldable pub sha256_base64 : String → String
  sha256_base64 s = env.base64 (env.sha256 s)

  unfoldable pub check : String → String → Bool
  unfolding strip_prefix sha256_base64
  check d guess = elim (strip_prefix "sha256:" d) [
    | some hash ↦ hash ==s sha256_base64 guess
    | none ↦ elim (strip_prefix "argon2:" d) [
      | some hash ↦ env.argon2_verify guess hash
      | none ↦ if not (d ==s "") then d ==s guess else true
    ]
  ]

  unfoldable pub networks_contain : List String → String → Bool
  networks_contain [] ip = false
  networks_contain (n ∷ ns) ip = env.network_contains n ip || networks_contain ns ip

  unfoldable pub verify : Request → User → Bool
  unfolding check
  verify req u = elim req.custom_verify [
    | some f ↦ f u.user u.pass
    | none ↦ check u.user req.credentials.user && check u.pass req.credentials.pass
  ]

  unfoldable pub authenticate_with_user : Request → User → Bool
  unfolding networks_contain matches_permission verify
  authenticate_with_user req u =
      if not (is_empty u.ips) && not (networks_contain u.ips req.ip)
      then false
      else if not (matches_permission env u.permissions req)
      then false
      else if not (u.user ==s "any")
      then verify req u
      else true

  unfoldable pub authenticate_internal : List User → Request → Option AuthErr
  unfolding authenticate_with_user
  authenticate_internal [] req = some authentication_failed
  authenticate_internal (u ∷ us) req =
      let rest = authenticate_internal us req in if authenticate_with_user req u then none else rest

-- What a user of the configuration asks of a request: an address in its networks, if it has any, a
-- permission that grants the request, and, unless the user is "any", the right credentials.
abbrev pub IsAdmitted : Libraries → User → Request → Type 0
IsAdmitted env u req =
    ((u.ips ≡ []) ⊎ (networks_contain env u.ips req.ip ≡ true))
    × IsGranted env u.permissions req
    × ((u.user ≡ "any") ⊎ (verify env req u ≡ true))

authenticate_with_user-IsAdmitted :
    (env : Libraries) (req : Request) (u : User)
    → authenticate_with_user env req u ≡ true
    → IsAdmitted env u req
unfolding authenticate_with_user
authenticate_with_user-IsAdmitted env req u h = (
  net u.ips (ground arith),
  matches_permission-IsGranted env u.permissions req (ground arith),
  who,
)
  where
    net :
        (ips : List String)
        → (is_empty ips ≡ true) ⊎ (networks_contain env ips req.ip ≡ true)
        → (ips ≡ []) ⊎ (networks_contain env ips req.ip ≡ true)
    net [] k = inl refl
    net (i ∷ is) (inl k) = cc
    net (i ∷ is) (inr k) = inr k

    who : (u.user ≡ "any") ⊎ (verify env req u ≡ true)
    who = elim (Bool-cases (u.user ==s "any")) [
      | inl e ↦ inl (text_eq u.user "any" e)
      | inr e ↦ inr (ground arith)
    ]

IsAdmitted-authenticate_with_user :
    (env : Libraries) (req : Request) (u : User)
    → IsAdmitted env u req
    → authenticate_with_user env req u ≡ true
unfolding authenticate_with_user
IsAdmitted-authenticate_with_user env req u (n, g, w) =
    ground (arith, IsGranted-matches_permission env u.permissions req g, eq_text u.user "any")

-- A request passes the internal method exactly if some user of the configuration is admitted to it:
-- by address, by permission and by credentials. The order of the users does not matter.
pub authenticate_internal-IsAdmitted :
    (env : Libraries) (us : List User) (req : Request)
    → (authenticate_internal env us req ≡ none) ↔ ((u : User) × Memᴰ u us × IsAdmitted env u req)
unfolding authenticate_internal
authenticate_internal-IsAdmitted env us req = (to us, λ (u, m, a). from us u m a)
  where
    to :
        (us : List User)
        → authenticate_internal env us req ≡ none
        → (u : User) × Memᴰ u us × IsAdmitted env u req
    to [] h = cc
    to (u ∷ us) h = elim (Bool-cases (authenticate_with_user env req u)) [
      | inl e ↦ (u, head refl, authenticate_with_user-IsAdmitted env req u e)
      | inr e ↦ let (v, m, a) = to us (ground arith) in (v, tail m, a)
    ]

    from :
        (us : List User) (u : User)
        → Memᴰ u us
        → IsAdmitted env u req
        → authenticate_internal env us req ≡ none
    from [] u m a = elim m [ ]
    from (v ∷ us) u (head e) a =
        ground (
          arith,
          IsAdmitted-authenticate_with_user env req v (subst (λ x. IsAdmitted env x req) e a),
        )
    from (v ∷ us) u (tail m) a = ground (arith, from us u m a)
