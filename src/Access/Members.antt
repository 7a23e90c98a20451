-- ===== src/Access/Members.antt =====
-- The membership handlers of backend/internal/httpapi/api.go over the table guild_memberships
-- (backend/internal/store/memberships.go): inviteMember, updateMember, removeMember.
-- A handler is given the user and the membership that the middleware put into the request's context.
pub mod Owners
use apekeeper.Common.{
  ℕ, String, Bool, true, false, not, ◌&&◌, ◌||◌, ◌==◌, str_eq, if◌then◌else◌, Option, none, some,
  List, [], ◌∷◌, ◌++◌, Result, ok, err, ℤ, is_pos, to_ℕ,
}
use apekeeper.Domain.{User, GuildMembership}
use apekeeper.Access.{
  Refusal, refusal, is_superadmin, valid_membership_role, membership_change_allowed,
}

-- a row of guild_memberships
pub record Row : Type 0 where
  pub guild_id : ℕ
  pub user_id : ℕ
  pub role : String

-- a row of audit_events
pub record Event : Type 0 where
  pub actor : ℕ
  pub guild_id : ℕ
  pub event_type : String

pub record Db : Type 0 where
  pub rows : List Row
  pub events : List Event
  -- battle_net_identities: the tag and its user
  pub identities : List (String × ℕ)

-- Which statements the database refuses during the request.
pub record Faults : Type 0 where
  pub find : Bool
  pub target : Bool
  pub grant : Bool
  pub revoke : Bool
  pub audit : Bool

abbrev pub at_key : ℕ → ℕ → Row → Bool
at_key g u r = r.guild_id == g && r.user_id == u

unfoldable pub role_of : ℕ → ℕ → List Row → Option String
role_of g u [] = none
role_of g u (r ∷ rs) = if at_key g u r then some r.role else role_of g u rs

-- Grant: INSERT … ON CONFLICT(guild_id,user_id) DO UPDATE SET role=EXCLUDED.role
unfoldable pub grant : ℕ → ℕ → String → List Row → List Row
grant g u role [] = record { guild_id = g; user_id = u; role = role } ∷ []
grant g u role (r ∷ rs) =
    if at_key g u r then record r { role = role } ∷ rs else r ∷ grant g u role rs

-- Revoke: DELETE … WHERE guild_id=$1 AND user_id=$2
unfoldable pub revoke : ℕ → ℕ → List Row → List Row
revoke g u [] = []
revoke g u (r ∷ rs) = let rest = revoke g u rs in if at_key g u r then rest else r ∷ rest

abbrev is_none {ℓ} : {A : Type ℓ} → Option A → Bool
is_none none = true
is_none (some a) = false

-- store/users.go: FindGuildCandidate, a user with the tag and no membership in the guild
unfoldable pub find_guild_candidate : ℕ → String → List Row → List (String × ℕ) → Option ℕ
find_guild_candidate g tag rows [] = none
find_guild_candidate g tag rows ((t, u) ∷ ids) =
    if str_eq t tag && is_none (role_of g u rows)
    then some u
    else find_guild_candidate g tag rows ids

-- the role that a superadmin's user record puts in place of the membership's
abbrev pub actor_role : User → GuildMembership → String
actor_role u m = if is_superadmin u.role then "superadmin" else m.role

-- audited, and the answer after it
unfoldable pub audited : Faults → User → GuildMembership → String → ℕ → Db → Result Refusal ℕ × Db
audited f u m event status db =
    if f.audit then (err (refusal 500 "audit recording failed"), db) else (
      ok status,
      record db {
        events =
            db.events ++ record { actor = u.id; guild_id = m.guild.id; event_type = event } ∷ [];
      },
    )

module _ (trim : String → String) where
  -- inviteMember, with the decoded body; `trim` is strings.TrimSpace
  unfoldable pub invite_member :
      Faults → User → GuildMembership → Option (String × String) → Db → Result Refusal ℕ × Db
  unfolding audited
  invite_member f u m none db =
      (err (refusal 400 "battletag and valid membership role are required"), db)
  invite_member f u m (some (tag, role)) db =
      if str_eq (trim tag) "" || not (valid_membership_role role)
      then (err (refusal 400 "battletag and valid membership role are required"), db)
      else elim (if f.find
          then none
          else find_guild_candidate m.guild.id (trim tag) db.rows db.identities) [
            | none ↦ (err (refusal 404 "user not found or already a member"), db)
            | some id ↦
                if not (membership_change_allowed (actor_role u m) "" role)
                then (err (refusal 403 "forbidden"), db)
                else if f.grant
                then (err (refusal 400 "could not grant membership"), db)
                else audited f u m "member_invite" 201
                    (record db { rows = grant m.guild.id id role db.rows })
          ]

-- MembershipStore.ForUser: the role of the target, or an error
unfoldable pub for_user : Faults → ℕ → ℕ → Db → Option String
for_user f u g db = if f.target then none else role_of g u db.rows

-- the id in the path, which must be positive
unfoldable pub path_id : Option ℤ → Option ℕ
path_id none = none
path_id (some id) = if is_pos id then some (to_ℕ id) else none

-- updateMember
unfoldable pub update_member :
    Faults → User → GuildMembership → Option ℤ → Option String → Db → Result Refusal ℕ × Db
unfolding audited
update_member f u m id body db = elim (path_id id) [
  | none ↦ (err (refusal 400 "invalid member id"), db)
  | some id ↦ elim body [
    | none ↦ (err (refusal 400 "invalid membership role"), db)
    | some role ↦
        if not (valid_membership_role role)
        then (err (refusal 400 "invalid membership role"), db)
        else elim (for_user f id m.guild.id db) [
          | none ↦ (err (refusal 403 "forbidden"), db)
          | some target ↦
              if not (membership_change_allowed (actor_role u m) target role)
              then (err (refusal 403 "forbidden"), db)
              else if f.grant
              then (err (refusal 400 "could not update membership"), db)
              else audited f u m "role_change" 204
                  (record db { rows = grant m.guild.id id role db.rows })
        ]
  ]
]

-- removeMember
unfoldable pub remove_member :
    Faults → User → GuildMembership → Option ℤ → Db → Result Refusal ℕ × Db
unfolding audited
remove_member f u m id db = elim (path_id id) [
  | none ↦ (err (refusal 400 "invalid member id"), db)
  | some id ↦ elim (for_user f id m.guild.id db) [
    | none ↦ (err (refusal 403 "forbidden"), db)
    | some target ↦
        if not (membership_change_allowed (actor_role u m) target "member")
        then (err (refusal 403 "forbidden"), db)
        else if f.revoke
        then (err (refusal 400 "could not remove membership"), db)
        else audited f u m "member_remove" 204 (record db { rows = revoke m.guild.id id db.rows })
  ]
]

-- a request to one of the three routes, its path and body decoded
pub data MemberCall : Type 0 where
  invites : Option (String × String) → MemberCall
  updates : Option ℤ → Option String → MemberCall
  removes : Option ℤ → MemberCall

unfoldable pub handle_member :
    (String → String) → Faults → User → GuildMembership → MemberCall → Db → Result Refusal ℕ × Db
handle_member trim f u m (invites body) db = invite_member trim f u m body db
handle_member trim f u m (updates id body) db = update_member f u m id body db
handle_member trim f u m (removes id) db = remove_member f u m id db
