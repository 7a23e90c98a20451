-- ===== src/Access/Selection/InForce.antt =====
-- What selectGuild puts into the cookie, and requireGuild.
use mathlib.Core.List.{Memᴰ}
use apekeeper.Common.{
  map, ◌≡◌, refl, sym, subst, String, Bool, true, false, ◌==◌, str_eq, eq_iff, Option, none, some,
  List, [], ◌∷◌, any, All, ok, arith, Bool-cases, Option-cases, inl, inr,
}
use apekeeper.Domain.{Guild, GuildMembership, User}
use apekeeper.Access.{
  Request, Lookups, is_superadmin, find_membership, choose, chosen_guild, require_auth,
  require_guild,
}
use apekeeper.Access.Selection.{select_guild, guilds, is_selected}

-- what the tables hold: ids start at 1, and `WHERE slug=$1` gives a guild of that slug
pub record IsStored (db : Lookups) (u : User) : Type 0 where
  pub own :
      (ms : List GuildMembership)
      → db.memberships u.id ≡ some ms
      → All (λ m. (m.guild.id == 0) ≡ false) ms
  pub found :
      (slug : String) (g : Guild)
      → db.guild_by_slug slug ≡ some g
      → (g.slug ≡ slug) × ((g.id == 0) ≡ false)

-- a guild of the slug that is no zero value
abbrev pub IsNamed : String → GuildMembership → Type 0
IsNamed slug m = (m.guild.slug ≡ slug) × ((m.guild.id == 0) ≡ false)

find_membership-IsNamed :
    (slug : String) (ms : List GuildMembership)
    → All (λ m. (m.guild.id == 0) ≡ false) ms
    → any (λ m. str_eq m.guild.slug slug) ms ≡ true
    → IsNamed slug (find_membership slug ms)
unfolding find_membership
find_membership-IsNamed slug [] ids h = absurd (ground arith)
find_membership-IsNamed slug (m ∷ ms) (i, ids) h = elim (Bool-cases (str_eq m.guild.slug slug)) [
  | inl e ↦ rw e ((eq_iff m.guild.slug slug).0 e, i)
  | inr e ↦ rw e (find_membership-IsNamed slug ms ids (ground arith))
]

find_membership-slug :
    (slug : String) (ms : List GuildMembership)
    → any (λ m. str_eq m.guild.slug slug) ms ≡ true
    → (find_membership slug ms).guild.slug ≡ slug
unfolding find_membership
find_membership-slug slug [] h = absurd (ground arith)
find_membership-slug slug (m ∷ ms) h = elim (Bool-cases (str_eq m.guild.slug slug)) [
  | inl e ↦ rw e ((eq_iff m.guild.slug slug).0 e)
  | inr e ↦ rw e (find_membership-slug slug ms (ground arith))
]

find_membership-none :
    (slug : String) (ms : List GuildMembership)
    → any (λ m. str_eq m.guild.slug slug) ms ≡ false
    → ((find_membership slug ms).guild.id == 0) ≡ true
unfolding find_membership
find_membership-none slug [] h = refl
find_membership-none slug (m ∷ ms) h = let rest = find_membership-none slug ms in ground arith

choose-IsNamed :
    (db : Lookups) (u : User) (ms : List GuildMembership) (slug : String)
    → IsStored db u
    → db.memberships u.id ≡ some ms
    → select_guild db u (some slug) ≡ ok slug
    → IsNamed slug (choose db u ms slug)
unfolding choose select_guild
choose-IsNamed db u ms slug stored q h =
    elim (Bool-cases (any (λ m. str_eq m.guild.slug slug) ms)) [
      | inl e ↦
          let named = find_membership-IsNamed slug ms (stored.own ms q) e in rw (named.1) named
      | inr e ↦ elim (Bool-cases (is_superadmin u.role)) [
        | inr s ↦ absurd (ground arith)
        | inl s ↦ elim (Option-cases (db.guild_by_slug slug)) [
          | inl g ↦ absurd (ground arith)
          | inr (g, k) ↦ rw (find_membership-none slug ms e, s, k) (stored.found slug g k)
        ]
      ]
    ]

select_guild-slug :
    (db : Lookups) (u : User) (body : Option String) (slug : String)
    → select_guild db u body ≡ ok slug
    → (body ≡ some slug) × ((ms : List GuildMembership) × (db.memberships u.id ≡ some ms))
unfolding select_guild
select_guild-slug db u none slug h = absurd (ground arith)
select_guild-slug db u (some s) slug h = elim (Option-cases (db.memberships u.id)) [
  | inl q ↦ absurd (ground arith)
  | inr (ms, q) ↦ (ground arith, (ms, q))
]

-- Where the tables hold no guild of the id 0 and find a guild by its own slug: while they are as they
-- were when selectGuild accepted a guild for a user, the guild is in force in a request of the same
-- user that brings the cookie back, whatever guild the program is configured for.
pub select_guild-in_force :
    (db : Lookups) (configured : String) (u : User) (body : Option String) (slug : String)
    (r : Request)
    → IsStored db u
    → select_guild db u body ≡ ok slug
    → r.session_user ≡ some u
    → r.guild_cookie ≡ some slug
    → (m : GuildMembership) × (require_guild db configured r ≡ ok (u, m)) × (m.guild.slug ≡ slug)
unfolding require_guild require_auth chosen_guild
select_guild-in_force db configured u body slug r stored h user cookie =
    let (b, (ms, q)) = select_guild-slug db u body slug h in
    let accepted : select_guild db u (some slug) ≡ ok slug =
      subst (λ x. select_guild db u x ≡ ok slug) b h in
    let named = choose-IsNamed db u ms slug stored q accepted in
    rw (user, q, cookie, named.1, named.1) (choose db u ms slug, refl, named.0)

find_membership-shown :
    (configured slug : String) (r : Request) (ms : List GuildMembership)
    → r.guild_cookie ≡ some slug
    → any (λ m. str_eq m.guild.slug slug) ms ≡ true
    → Memᴰ {A = GuildMembership × Bool}
        (find_membership slug ms, true)
        (map (λ m. (m, is_selected configured r m)) ms)
unfolding find_membership is_selected
find_membership-shown configured slug r [] cookie h = absurd (ground arith)
find_membership-shown configured slug r (m ∷ ms) cookie h =
    elim (Bool-cases (str_eq m.guild.slug slug)) [
      | inl e ↦
          let same = (eq_iff slug m.guild.slug).1 (sym ((eq_iff m.guild.slug slug).0 e)) in
          rw (e, cookie, same) (Memᴰ.head refl)
      | inr e ↦
          rw (e) (Memᴰ.tail (find_membership-shown configured slug r ms cookie (ground arith)))
    ]

-- A guild that selectGuild accepts for a user who is no superadmin is shown as the selected one, while
-- the user's memberships are as they were, in the list of guilds that answers a request with the
-- cookie.
pub select_guild-shown :
    (db : Lookups) (listed : Option (List Guild)) (configured : String) (u : User) (slug : String)
    (r : Request)
    → is_superadmin u.role ≡ false
    → select_guild db u (some slug) ≡ ok slug
    → r.guild_cookie ≡ some slug
    → (m : GuildMembership) × (shown : List (GuildMembership × Bool)) × (guilds db listed configured
          r u
        ≡ ok shown)
      × Memᴰ {A = GuildMembership × Bool} (m, true) shown
      × (m.guild.slug ≡ slug)
unfolding select_guild guilds
select_guild-shown db listed configured u slug r plain h cookie =
    let (b, (ms, q)) = select_guild-slug db u (some slug) slug h in
    elim (Bool-cases (any (λ m. str_eq m.guild.slug slug) ms)) [
      | inr e ↦ absurd (ground arith)
      | inl e ↦
          rw (q, guilds, plain)
            (
              find_membership slug ms,
              map (λ m. (m, is_selected configured r m)) ms,
              refl,
              find_membership-shown configured slug r ms cookie e,
              find_membership-slug slug ms e,
            )
    ]
