-- ===== src/Access/Guilds.antt =====
-- The guild that a request acts in.
use mathlib.Core.List.{Memᴰ}
use apekeeper.Common.{
  none, some, subst, ◌≡◌, refl, ◌⊎◌, inl, inr, String, List, [], ◌∷◌, str_eq, eq_iff, Bool-cases,
  if◌then◌else◌, ◌==◌, arith, Option-cases, ◌≢◌,
}
use apekeeper.Domain.{User, GuildMembership, zero_membership}
use apekeeper.Access.{
  find_membership, choose, chosen_guild, head_or, require_guild, Lookups, require_auth, Request,
  is_superadmin, ok, requested, some, Option,
}

-- A membership that a request may act in: one of the user's own, or any guild for a superadmin.
abbrev pub IsGranted : User → List GuildMembership → GuildMembership → Type 0
IsGranted u ms m = Memᴰ m ms ⊎ ((u.role ≡ "superadmin") × (m.role ≡ "superadmin"))

find_membership-mem :
    (slug : String) (ms : List GuildMembership)
    → (find_membership slug ms ≡ zero_membership)
      ⊎ (Memᴰ (find_membership slug ms) ms × ((find_membership slug ms).guild.slug ≡ slug))
unfolding find_membership
find_membership-mem slug [] = inl refl
find_membership-mem slug (m ∷ ms) = elim (Bool-cases (str_eq m.guild.slug slug)) [
  | inl e ↦ rw e (inr (Memᴰ.head refl, (eq_iff m.guild.slug slug).0 e))
  | inr e ↦
      rw e (elim (find_membership-mem slug ms) [
        | inl z ↦ inl z
        | inr (mem, s) ↦ inr (Memᴰ.tail mem, s)
      ])
]

choose-IsGranted :
    (db : Lookups) (u : User) (ms : List GuildMembership) (slug : String)
    → ((choose db u ms slug).guild.id ≡ 0) ⊎ IsGranted u ms (choose db u ms slug)
unfolding choose
choose-IsGranted db u ms slug = elim (Bool-cases (is_superadmin u.role)) [
  | inl s ↦ elim (Bool-cases ((find_membership slug ms).guild.id == 0)) [
    | inl z ↦ rw (z, s) (inr (inr ((eq_iff u.role "superadmin").0 s, refl)))
    | inr z ↦ rw (z) (elim (find_membership-mem slug ms) [
      | inl e ↦ inl (ground arith)
      | inr (mem, _) ↦ inr (inl mem)
    ])
  ]
  | inr s ↦ elim (Bool-cases ((find_membership slug ms).guild.id == 0)) [
    | inl z ↦ rw (z, s) (inl (ground arith))
    | inr z ↦ rw z (elim (find_membership-mem slug ms) [
      | inl e ↦ inl (ground arith)
      | inr (mem, _) ↦ inr (inl mem)
    ])
  ]
]

head_or-IsGranted :
    (u : User) (m : GuildMembership) (ms : List GuildMembership)
    → (m.guild.id ≡ 0)
    → ((head_or m ms).guild.id ≡ 0) ⊎ IsGranted u ms (head_or m ms)
head_or-IsGranted u m [] z = inl z
head_or-IsGranted u m (x ∷ xs) z = inr (inl (Memᴰ.head refl))

fallback-IsGranted :
    (u : User) (ms : List GuildMembership) (picked : GuildMembership)
    → ((picked.guild.id ≡ 0) ⊎ IsGranted u ms picked)
    → let m = if picked.guild.id == 0 then head_or picked ms else picked in
      (m.guild.id ≡ 0) ⊎ IsGranted u ms m
fallback-IsGranted u ms picked h = elim (Bool-cases (picked.guild.id == 0)) [
  | inl z ↦ rw z (head_or-IsGranted u picked ms (ground arith))
  | inr z ↦ rw z h
]

chosen_guild-IsGranted :
    (db : Lookups) (configured : String) (r : Request) (u : User) (ms : List GuildMembership)
    → let m = chosen_guild db configured r u ms in (m.guild.id ≡ 0) ⊎ IsGranted u ms m
unfolding chosen_guild
chosen_guild-IsGranted db configured r u ms =
    elim (Option-cases (requested r.guild_cookie configured)) [
      | inl e ↦ rw e (fallback-IsGranted u ms zero_membership (inl refl))
      | inr (slug, e) ↦ rw e (fallback-IsGranted u ms _ (choose-IsGranted db u ms slug))
    ]

module _ (db : Lookups) (configured : String) (r : Request) (u : User) (m : GuildMembership) where
  abbrev Granted : Type 0
  Granted =
      (r.session_user ≡ some u)
      × (m.guild.id ≢ 0)
      × ((ms : List GuildMembership) × (db.memberships u.id ≡ some ms) × IsGranted u ms m)

  chosen-Granted :
      (ms : List GuildMembership)
      → r.session_user ≡ some u
      → db.memberships u.id ≡ some ms
      → chosen_guild db configured r u ms ≡ m
      → m.guild.id ≢ 0
      → Granted
  chosen-Granted ms su listed chosen ne = elim (chosen_guild-IsGranted db configured r u ms) [
    | inl z ↦ absurd (ne (ground arith))
    | inr g ↦ (su, ne, (ms, listed, subst (IsGranted u ms) chosen g))
  ]

  listed_guild :
      (o : Option User) → r.session_user ≡ o → require_guild db configured r ≡ ok (u, m) → Granted
  unfolding require_guild require_auth
  listed_guild none su h = ground arith
  listed_guild (some v) su h = elim (Option-cases (db.memberships v.id)) [
    | inl e ↦ ground arith
    | inr (ms, e) ↦ chosen-Granted ms (ground arith) (ground arith) (ground arith) (ground arith)
  ]

-- What the guild middleware passes on is the user of the session and a guild of id other than 0,
-- either by a membership that the database lists for that user or, for a superadmin, by any slug.
pub require_guild-IsGranted :
    (db : Lookups) (configured : String) (r : Request) (u : User) (m : GuildMembership)
    → require_guild db configured r ≡ ok (u, m)
    → (r.session_user ≡ some u)
      × (m.guild.id ≢ 0)
      × ((ms : List GuildMembership) × (db.memberships u.id ≡ some ms) × IsGranted u ms m)
unfolding require_guild require_auth
require_guild-IsGranted db configured r u m h =
    listed_guild db configured r u m r.session_user refl h

-- A user with a membership is never told that one is required: the first one is the fallback.
pub require_guild-member :
    (db : Lookups) (configured : String) (r : Request) (u : User) (x : GuildMembership)
    (ms : List GuildMembership)
    → r.session_user ≡ some u
    → db.memberships u.id ≡ some (x ∷ ms)
    → x.guild.id ≢ 0
    → (m : GuildMembership) × (require_guild db configured r ≡ ok (u, m)) × (m.guild.id ≢ 0)
unfolding require_guild require_auth chosen_guild
require_guild-member db configured r u x ms su listed real =
    (chosen_guild db configured r u (x ∷ ms), ground arith, ground arith)
