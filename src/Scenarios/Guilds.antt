-- ===== src/Scenarios/Guilds.antt =====
-- Requests of the members of a guild.
use mathlib.Core.List.{Memᴰ}
use apekeeper.Common.{
  Bool, true, none, str_eq, if◌then◌else◌, ◌==◌, subst, sym, eq_iff, Bool-cases, inl, inr, arith,
  ◌≡◌, ◌≢◌, refl, false, leb, some, List, [], ◌∷◌, All, ok, err, pos,
}
use apekeeper.Domain.{GuildMembership}
use apekeeper.Access.{
  Lookups, Request, refusal, require_guild, membership_change_allowed, levels, or_zero,
  require_auth, chosen_guild, choose, find_membership,
}
use apekeeper.Access.Guilds.{IsGranted, require_guild-IsGranted}
use apekeeper.Access.Routes.{admits, asked_level, route_manifest, admits-route_manifest}
use apekeeper.Access.Members.{
  Db, Faults, removes, handle_member, remove_member, path_id, for_user, role_of,
}
use apekeeper.Access.Members.Owners.{SameOwners, handle_member-SameOwners}
use apekeeper.Access.Selection.{select_guild, guilds}
use apekeeper.Access.Selection.InForce.{IsStored, select_guild-in_force, select_guild-shown}
use apekeeper.Scenarios.{apart, apes, user, membership}

abbrev lookups : Lookups
lookups = record {
  memberships = λ id. some (membership id "officer" ∷ []);
  guild_by_slug = λ slug. some apes;
}

abbrev request : Request
request = record { session_user = some (user 5 "member"); guild_cookie = some "apes" }

granted : require_guild lookups "" request ≡ ok (user 5 "member", membership 5 "officer")
unfolding require_guild require_auth chosen_guild choose find_membership
granted = refl

require_guild-IsGranted_example :
    (request.session_user ≡ some (user 5 "member"))
    × (apes.id ≢ 0)
    × ((ms : List GuildMembership) × (lookups.memberships 5 ≡ some ms)
        × IsGranted (user 5 "member") ms (membership 5 "officer"))
require_guild-IsGranted_example =
    require_guild-IsGranted lookups "" request (user 5 "member") (membership 5 "officer") granted

admits-route_manifest_example :
    All
      (λ r.
        admits (user 5 "member") (membership 5 "officer") r.guard
        ≡ leb (asked_level r) (or_zero (levels "officer")))
      route_manifest
admits-route_manifest_example =
    admits-route_manifest (user 5 "member") (membership 5 "officer")
      (apart "member" "superadmin" refl)

abbrev no_faults : Faults
no_faults = record { find = false; target = false; grant = false; revoke = false; audit = false }

abbrev db : Db
db = record {
  rows =
      record { guild_id = 1; user_id = 4; role = "owner" }
      ∷ record { guild_id = 1; user_id = 5; role = "admin" }
      ∷ [];
  events = [];
  identities = ("Bob#2", 6) ∷ [];
}

-- an admin tries to remove the owner
handle_member-SameOwners_example :
    SameOwners db
      (handle_member
        (λ s. s)
        no_faults
        (user 5 "member")
        (membership 5 "admin")
        (removes (some (pos 4)))
        db).1
handle_member-SameOwners_example =
    handle_member-SameOwners no_faults (user 5 "member") (membership 5 "admin")
      (apart "admin" "superadmin" refl) (apart "admin" "owner" refl) (λ s. s)
      (removes (some (pos 4))) db

removal_refused :
    (handle_member
      (λ s. s)
      no_faults
      (user 5 "member")
      (membership 5 "admin")
      (removes (some (pos 4)))
      db).0
    ≡ err (refusal 403 "forbidden")
unfolding handle_member remove_member path_id for_user role_of membership_change_allowed
removal_refused = refl

abbrev tables : Lookups
tables = record {
  memberships = λ id. some (membership id "officer" ∷ []);
  guild_by_slug = λ slug. if str_eq slug "apes" then some apes else none;
}

tables-IsStored : IsStored tables (user 6 "superadmin")
tables-IsStored = record {
  own = λ ms q.
      let same : membership 6 "officer" ∷ [] ≡ ms = ground arith in
      subst (All (λ m. (m.guild.id == 0) ≡ false)) same (refl, tt);
  found = λ slug g q. elim (Bool-cases (str_eq slug "apes")) [
    | inl e ↦
        let is_apes : apes ≡ g = ground arith in
        subst (λ x. (x.slug ≡ slug) × ((x.id == 0) ≡ false)) is_apes
          (sym ((eq_iff slug "apes").0 e), refl)
    | inr e ↦ absurd (ground arith)
  ];
}

selected : select_guild tables (user 6 "superadmin") (some "apes") ≡ ok "apes"
unfolding select_guild
selected = refl

-- the program is configured for another guild
select_guild-in_force_example :
    (m : GuildMembership) × (require_guild tables "bees"
        (record { session_user = some (user 6 "superadmin"); guild_cookie = some "apes" })
      ≡ ok (user 6 "superadmin", m))
    × (m.guild.slug ≡ "apes")
select_guild-in_force_example =
    select_guild-in_force tables "bees" (user 6 "superadmin") (some "apes") "apes"
      (record { session_user = some (user 6 "superadmin"); guild_cookie = some "apes" })
      tables-IsStored selected refl refl

chosen : select_guild tables (user 5 "member") (some "apes") ≡ ok "apes"
unfolding select_guild
chosen = refl

select_guild-shown_example :
    (m : GuildMembership) × (shown : List (GuildMembership × Bool)) × (guilds tables none "bees"
        request
        (user 5 "member")
      ≡ ok shown)
    × Memᴰ {A = GuildMembership × Bool} (m, true) shown
    × (m.guild.slug ≡ "apes")
select_guild-shown_example =
    select_guild-shown tables none "bees" (user 5 "member") "apes" request refl chosen refl
