-- ===== src/Access.antt =====
-- backend/internal/httpapi: who may call what. The role rule, the choice of a guild for a request
-- and the middleware chain of api.go. The proofs are in the children.
pub mod Rules
pub mod Guilds
pub mod Selection
pub mod Routes
pub mod Members
pub mod Limits
pub mod History
use apekeeper.Common.{
  ℕ, String, Bool, true, false, not, ◌&&◌, ◌||◌, leb, ◌==◌, str_eq, if◌then◌else◌, Option, none,
  some, List, [], ◌∷◌, any, Result, ok, err,
}
use apekeeper.Domain.{User, Guild, GuildMembership, zero_guild, zero_membership}

-- the map `levels` of roleAllowed
unfoldable pub levels : String → Option ℕ
levels role =
    if str_eq role "member"
    then some 1
    else if str_eq role "officer"
    then some 2
    else if str_eq role "admin"
    then some 3
    else if str_eq role "owner"
    then some 4
    else none

-- a missing key of a Go map reads as 0
abbrev pub or_zero : Option ℕ → ℕ
or_zero none = 0
or_zero (some n) = n

abbrev pub is_superadmin : String → Bool
is_superadmin role = str_eq role "superadmin"

-- roleAllowed
unfoldable pub role_allowed : User → GuildMembership → String → Bool
role_allowed u membership required =
    if is_superadmin u.role
    then true
    else if is_superadmin required
    then false
    else elim (levels required) [
      | none ↦ false
      | some level ↦ leb level (or_zero (levels membership.role))
    ]

-- validMembershipRole
unfoldable pub valid_membership_role : String → Bool
valid_membership_role role =
    str_eq role "owner" || str_eq role "admin" || str_eq role "officer" || str_eq role "member"

-- membershipChangeAllowed; a membership enters by its role alone
unfoldable pub membership_change_allowed : String → String → String → Bool
membership_change_allowed actor target role =
    if is_superadmin actor
    then true
    else if str_eq role "owner" && not (str_eq actor "owner")
    then false
    else if str_eq target "owner" && not (str_eq actor "owner")
    then false
    else (str_eq actor "owner" || str_eq actor "admin")

pub record Refusal : Type 0 where
  pub status : ℕ
  pub message : String

abbrev pub refusal : ℕ → String → Refusal
refusal status message = record { status = status; message = message }

-- What a request brings: the user of its session cookie and its guild cookie.
pub record Request : Type 0 where
  pub session_user : Option User
  pub guild_cookie : Option String

-- What the handlers read from the database: `none` stands for an error of the query.
pub record Lookups : Type 0 where
  pub memberships : ℕ → Option (List GuildMembership)
  pub guild_by_slug : String → Option Guild

-- the loop over the memberships that stops at the first with the slug
unfoldable pub find_membership : String → List GuildMembership → GuildMembership
find_membership slug [] = zero_membership
find_membership slug (m ∷ ms) = if str_eq m.guild.slug slug then m else find_membership slug ms

abbrev pub or_zero_guild : Option Guild → Guild
or_zero_guild none = zero_guild
or_zero_guild (some g) = g

-- The two branches of requireGuild differ in the slug only: the cookie's, or the configured one.
unfoldable pub choose : Lookups → User → List GuildMembership → String → GuildMembership
unfolding find_membership
choose db u memberships slug =
    let chosen = find_membership slug memberships in
    if chosen.guild.id == 0 && is_superadmin u.role
    then record {
      guild = or_zero_guild (db.guild_by_slug slug);
      user_id = u.id;
      role = "superadmin";
    }
    else chosen

abbrev pub head_or : GuildMembership → List GuildMembership → GuildMembership
head_or m [] = m
head_or m (x ∷ xs) = x

abbrev pub requested : Option String → String → Option String
requested (some slug) configured = some slug
requested none configured = if str_eq configured "" then none else some configured

unfoldable pub chosen_guild :
    Lookups → String → Request → User → List GuildMembership → GuildMembership
unfolding choose
chosen_guild db configured r u memberships =
    let picked : GuildMembership = elim (requested r.guild_cookie configured) [
      | none ↦ zero_membership
      | some slug ↦ choose db u memberships slug
    ] in
    if picked.guild.id == 0 then head_or picked memberships else picked

-- requireAuth, with what it passes on to the next handler
unfoldable pub require_auth : Request → Result Refusal User
require_auth r = elim r.session_user [ none ↦ err (refusal 401 "unauthenticated") | some u ↦ ok u ]

-- requireGuild
unfoldable pub require_guild : Lookups → String → Request → Result Refusal (User × GuildMembership)
unfolding require_auth chosen_guild
require_guild db configured r = elim (require_auth r) [
  | err e ↦ err e
  | ok u ↦ elim (db.memberships u.id) [
    | none ↦ err (refusal 500 "guild membership lookup failed")
    | some memberships ↦
        let chosen = chosen_guild db configured r u memberships in
        if chosen.guild.id == 0
        then err (refusal 403 "guild membership required")
        else ok (u, chosen)
  ]
]

-- requireRole
unfoldable pub require_role :
    Lookups → String → List String → Request → Result Refusal (User × GuildMembership)
unfolding require_guild role_allowed
require_role db configured roles r = elim (require_guild db configured r) [
  | err e ↦ err e
  | ok (u, membership) ↦
      if any (role_allowed u membership) roles
      then ok (u, membership)
      else err (refusal 403 "forbidden")
]
