-- ===== src/Access/Routes.antt =====
-- backend/internal/httpapi/routes.go: the route manifest, and what its guards let through.
use text.Mathlib.Text.{starts_with}
use apekeeper.Common.{
  ℕ, ◌≤◌, ◌≡◌, ◌≢◌, refl, String, Bool, true, ◌&&◌, ◌||◌, ◌==◌, leb, str_eq, eq_iff, if◌then◌else◌,
  Option, none, some, List, [], ◌∷◌, All, any, arith, ==_iff,
}
use apekeeper.Domain.{User, GuildMembership}
use apekeeper.Access.{levels, or_zero, role_allowed}
use apekeeper.Access.Rules.{superadmin_level}

-- the three constructors of routes: `public`, `authenticated` and `role`
pub data Guard : Type 0 where
  open_to_all : Guard
  authenticated : Guard
  guarded : List String → Guard

pub record Route : Type 0 where
  pub method : String
  pub path : String
  pub guard : Guard

abbrev member : List String
member = "member" ∷ []

abbrev officer : List String
officer = "superadmin" ∷ "admin" ∷ "officer" ∷ []

abbrev admin : List String
admin = "superadmin" ∷ "admin" ∷ []

abbrev manager : List String
manager = "superadmin" ∷ "owner" ∷ "admin" ∷ []

abbrev public_route : String → String → Route
public_route method path = record { method = method; path = path; guard = open_to_all }

abbrev auth_route : String → String → Route
auth_route method path = record { method = method; path = path; guard = authenticated }

abbrev role_route : String → String → List String → Route
role_route method path roles = record { method = method; path = path; guard = guarded roles }

-- RouteManifest
unfoldable pub route_manifest : List Route
route_manifest =
    public_route "GET" "/api/auth/login"
    ∷ public_route "GET" "/api/auth/callback"
    ∷ auth_route "POST" "/api/auth/logout"
    ∷ auth_route "GET" "/api/auth/me"
    ∷ auth_route "GET" "/api/guilds"
    ∷ auth_route "POST" "/api/guilds/select"
    ∷ public_route "GET" "/healthz"
    ∷ public_route "GET" "/api/healthz"
    ∷ public_route "GET" "/readyz"
    ∷ public_route "GET" "/api/readyz"
    ∷ role_route "GET" "/api/dashboard" member
    ∷ role_route "GET" "/api/roster" member
    ∷ role_route "GET" "/api/roster/export" member
    ∷ role_route "GET" "/api/characters/{id}" member
    ∷ role_route "GET" "/api/characters/{id}/history" member
    ∷ role_route "GET" "/api/sync/runs" officer
    ∷ role_route "GET" "/api/sync/progress" officer
    ∷ role_route "GET" "/api/diagnostics/sync-metrics" admin
    ∷ role_route "POST" "/api/sync/run" admin
    ∷ role_route "POST" "/api/sync/dry-run" admin
    ∷ role_route "POST" "/api/sync/runs/{id}/retry" admin
    ∷ role_route "POST" "/api/sync/cancel" admin
    ∷ role_route "GET" "/api/officer/queue" officer
    ∷ role_route "POST" "/api/officer/queue/complete" officer
    ∷ role_route "POST" "/api/officer/bulk-tags" officer
    ∷ role_route "GET" "/api/officer/characters/{id}" officer
    ∷ role_route "PUT" "/api/officer/characters/{id}" officer
    ∷ role_route "GET" "/api/officer/activity" officer
    ∷ role_route "GET" "/api/guild/members" manager
    ∷ role_route "GET" "/api/guild/members/search" manager
    ∷ role_route "POST" "/api/guild/members" manager
    ∷ role_route "PUT" "/api/guild/members/{id}" manager
    ∷ role_route "DELETE" "/api/guild/members/{id}" manager
    ∷ []

-- Whether the guard of a route lets a signed-in user through who acts by a membership.
unfoldable pub admits : User → GuildMembership → Guard → Bool
admits u m open_to_all = true
admits u m authenticated = true
admits u m (guarded roles) = any (role_allowed u m) roles

-- The guild level that a route asks for, read off its method and path alone: reading the guild's
-- pages takes a member, the officer's pages and the sync's state an officer, and every change of
-- the sync or of the memberships an admin.
unfoldable pub asked_level : Route → ℕ
asked_level r =
    if starts_with r.path "/api/guild/members" || starts_with r.path "/api/diagnostics/"
    then 3
    else if starts_with r.path "/api/sync/"
    then (if str_eq r.method "GET" then 2 else 3)
    else if starts_with r.path "/api/officer/"
    then 2
    else if str_eq r.path "/healthz"
        || str_eq r.path "/readyz"
        || starts_with r.path "/api/healthz"
        || starts_with r.path "/api/readyz"
        || starts_with r.path "/api/auth/"
        || starts_with r.path "/api/guilds"
    then 0
    else 1

-- the lowest level among the guild roles of a list, 5 if there is none
abbrev lower_of : Option ℕ → ℕ → ℕ
lower_of none k = k
lower_of (some n) k = if leb n k then n else k

abbrev lowest : List String → ℕ
lowest [] = 5
lowest (r ∷ rs) = lower_of (levels r) (lowest rs)

abbrev guard_level : Guard → ℕ
guard_level open_to_all = 0
guard_level authenticated = 0
guard_level (guarded roles) = lowest roles

module _ (u : User) (m : GuildMembership) (plain : u.role ≢ "superadmin") where
  level_le : or_zero (levels m.role) ≤ 4
  unfolding levels
  level_le = ground arith

  any-lowest :
      (roles : List String)
      → any (role_allowed u m) roles ≡ leb (lowest roles) (or_zero (levels m.role))
  unfolding role_allowed
  any-lowest [] = ground (arith, level_le)
  any-lowest (r ∷ rs) =
      ground
        (arith, any-lowest rs, eq_iff u.role "superadmin", eq_iff r "superadmin", superadmin_level)

  admits-level : (g : Guard) → admits u m g ≡ leb (guard_level g) (or_zero (levels m.role))
  unfolding admits
  admits-level open_to_all = ground arith
  admits-level authenticated = ground arith
  admits-level (guarded roles) = any-lowest roles

  agrees : Route → Bool
  agrees r = guard_level r.guard == asked_level r

  abbrev all_agree : List Route → Bool
  all_agree [] = true
  all_agree (r ∷ rs) = agrees r && all_agree rs

  admits-asked :
      (rs : List Route)
      → all_agree rs ≡ true
      → All (λ r. admits u m r.guard ≡ leb (asked_level r) (or_zero (levels m.role))) rs
  unfolding agrees
  admits-asked [] h = tt
  admits-asked (r ∷ rs) h = (
    rw (admits-level r.guard, (==_iff (guard_level r.guard) (asked_level r)).0 (ground arith)),
    admits-asked rs (ground arith),
  )

  manifest_agrees : all_agree route_manifest ≡ true
  unfolding route_manifest levels agrees asked_level
  manifest_agrees = refl

  -- On every route of the manifest, a user who is no superadmin is let through exactly when the
  -- user's guild role reaches the level that the route's method and path ask for.
  pub admits-route_manifest :
      All (λ r. admits u m r.guard ≡ leb (asked_level r) (or_zero (levels m.role))) route_manifest
  admits-route_manifest = admits-asked route_manifest manifest_agrees
