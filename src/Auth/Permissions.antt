-- ===== src/Auth/Permissions.antt =====
-- internal/auth/manager.go: matchesPermission, and what a permission grants.
use mathlib.Core.List.{Memᴰ}
use mathlib.Core.List.Memᴰ.{head, tail}
use plux_mtx.Base.{
  String, Bool, true, false, ◌≡◌, refl, inl, inr, some, none, List, [], ◌∷◌, ◌==s◌, ◌||◌,
  if◌then◌else◌, Bool-cases, Option-cases, subst, text_eq, eq_text, arith,
}
use plux_mtx.Auth.State.{Permission, Request, Libraries, strip_prefix}

-- The actions that a path limits.
unfoldable pub is_scoped : String → Bool
is_scoped a = a ==s "publish" || a ==s "read" || a ==s "playback"

module _ (env : Libraries) where
  unfoldable pub path_matches : String → String → Bool
  unfolding strip_prefix
  path_matches p path = if p ==s "" then true else elim (strip_prefix "~" p) [
    | some re ↦ elim (env.compile re) [ none ↦ false | some test ↦ test path ]
    | none ↦ p ==s path
  ]

  unfoldable pub matches_permission : List Permission → Request → Bool
  unfolding is_scoped path_matches
  matches_permission [] req = false
  matches_permission (perm ∷ perms) req =
      let rest = matches_permission perms req in
      if perm.action ==s req.action
      then if is_scoped perm.action then path_matches perm.path req.path || rest else true
      else rest

-- A path of a permission stands for every path, for those that a regular expression matches, or
-- for itself.
pub data PathMatches (env : Libraries) (p path : String) : Type 0 where
  every : p ≡ "" → PathMatches env p path
  by_regexp :
      (re : String) (test : String → Bool)
      → strip_prefix "~" p ≡ some re
      → env.compile re ≡ some test
      → test path ≡ true
      → PathMatches env p path
  itself : strip_prefix "~" p ≡ none → p ≡ path → PathMatches env p path

pub data Grants (env : Libraries) (perm : Permission) (req : Request) : Type 0 where
  of_action : perm.action ≡ req.action → is_scoped perm.action ≡ false → Grants env perm req
  on_path :
      perm.action ≡ req.action
      → is_scoped perm.action ≡ true
      → PathMatches env perm.path req.path
      → Grants env perm req

path_matches-PathMatches :
    (env : Libraries) (p path : String) → path_matches env p path ≡ true → PathMatches env p path
unfolding path_matches
path_matches-PathMatches env p path h = elim (Bool-cases (p ==s "")) [
  | inl e ↦ every (text_eq p "" e)
  | inr e ↦ elim (Option-cases (strip_prefix "~" p)) [
    | inl n ↦ itself n (text_eq p path (ground arith))
    | inr (re, s) ↦ elim (Option-cases (env.compile re)) [
      | inl n ↦ ground arith
      | inr (test, c) ↦ by_regexp re test s c (ground arith)
    ]
  ]
]

PathMatches-path_matches :
    (env : Libraries) (p path : String) → PathMatches env p path → path_matches env p path ≡ true
unfolding path_matches
PathMatches-path_matches env p path (every e) = ground (arith, eq_text p "" e)
PathMatches-path_matches env p path (by_regexp re test s c t) = ground arith
PathMatches-path_matches env p path (itself s e) = ground (arith, eq_text p path e)

-- Some permission of the list grants the request.
abbrev pub IsGranted : Libraries → List Permission → Request → Type 0
IsGranted env perms req = (perm : Permission) × Memᴰ perm perms × Grants env perm req

skip :
    (env : Libraries) (perm : Permission) (perms : List Permission) (req : Request)
    → IsGranted env perms req
    → IsGranted env (perm ∷ perms) req
skip env perm perms req (q, m, g) = (q, tail m, g)

pub matches_permission-IsGranted :
    (env : Libraries) (perms : List Permission) (req : Request)
    → matches_permission env perms req ≡ true
    → IsGranted env perms req
unfolding matches_permission
matches_permission-IsGranted env [] req h = cc
matches_permission-IsGranted env (perm ∷ perms) req h =
    elim (Bool-cases (perm.action ==s req.action)) [
      | inl a ↦ elim (Bool-cases (is_scoped perm.action)) [
        | inl s ↦ elim (Bool-cases (path_matches env perm.path req.path)) [
          | inl p ↦
              (perm, head refl, on_path (text_eq _ _ a) s (path_matches-PathMatches env _ _ p))
          | inr p ↦
              skip env perm perms req (matches_permission-IsGranted env perms req (ground arith))
        ]
        | inr s ↦ (perm, head refl, of_action (text_eq _ _ a) s)
      ]
      | inr a ↦ skip env perm perms req (matches_permission-IsGranted env perms req (ground arith))
    ]

here :
    (env : Libraries) (perm : Permission) (perms : List Permission) (req : Request)
    → Grants env perm req
    → matches_permission env (perm ∷ perms) req ≡ true
unfolding matches_permission
here env perm perms req (of_action a s) = rw (eq_text _ _ a, s) refl
here env perm perms req (on_path a s p) =
    ground (arith, eq_text _ _ a, s, PathMatches-path_matches env _ _ p)

later :
    (env : Libraries) (perm : Permission) (perms : List Permission) (req : Request)
    → matches_permission env perms req ≡ true
    → matches_permission env (perm ∷ perms) req ≡ true
unfolding matches_permission
later env perm perms req h = ground arith

pub IsGranted-matches_permission :
    (env : Libraries) (perms : List Permission) (req : Request)
    → IsGranted env perms req
    → matches_permission env perms req ≡ true
IsGranted-matches_permission env [] req (q, m, g) = elim m [ ]
IsGranted-matches_permission env (perm ∷ perms) req (q, head e, g) =
    here env perm perms req (subst (λ x. Grants env x req) e g)
IsGranted-matches_permission env (perm ∷ perms) req (q, tail m, g) =
    later env perm perms req (IsGranted-matches_permission env perms req (q, m, g))
