-- ===== src/Access/Selection.antt =====
-- httpapi/api.go: guilds, which lists the guilds that a user may act in, and selectGuild, which puts
-- one into the guild cookie.
pub mod InForce
use apekeeper.Common.{
  String, Bool, not, ◌&&◌, str_eq, if◌then◌else◌, Option, none, some, List, any, map, Result, ok,
  err,
}
use apekeeper.Domain.{Guild, GuildMembership, User}
use apekeeper.Access.{Refusal, refusal, Request, Lookups, is_superadmin}

-- whether a listed guild is shown as the selected one
unfoldable pub is_selected : String → Request → GuildMembership → Bool
is_selected configured r m = elim r.guild_cookie [
  | some slug ↦ str_eq slug m.guild.slug
  | none ↦ not (str_eq configured "") && str_eq configured m.guild.slug
]

-- guilds, with what GuildStore.List gives
unfoldable pub guilds :
    Lookups
    → Option (List Guild)
    → String
    → Request
    → User
    → Result Refusal (List (GuildMembership × Bool))
unfolding is_selected
guilds db listed configured r u = elim (db.memberships u.id) [
  | none ↦ err (refusal 500 "guild membership lookup failed")
  | some own ↦
      let show = map (λ m. (m, is_selected configured r m)) in
      if not (is_superadmin u.role) then ok (show own) else elim listed [
        | none ↦ err (refusal 500 "guild lookup failed")
        | some all ↦
            ok (show (map (λ g. record { guild = g; user_id = u.id; role = "superadmin" }) all))
      ]
]

-- selectGuild: the value of the guild cookie that it sets. A body is none where it does not decode.
unfoldable pub select_guild : Lookups → User → Option String → Result Refusal String
select_guild db u none = err (refusal 400 "guild slug is required")
select_guild db u (some slug) =
    if str_eq slug ""
    then err (refusal 400 "guild slug is required")
    else elim (db.memberships u.id) [
      | none ↦ err (refusal 500 "guild membership lookup failed")
      | some own ↦
          let found = any (λ m. str_eq m.guild.slug slug) own in
          if not found && not (is_superadmin u.role)
          then err (refusal 403 "guild membership required")
          else if found
          then ok slug
          else elim (db.guild_by_slug slug) [
            | none ↦ err (refusal 404 "guild not found")
            | some g ↦ ok slug
          ]
    ]
