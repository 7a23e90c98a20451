-- ===== src/Access/Rules.antt =====
-- The role rule is a hierarchy.
use apekeeper.Common.{ℕ, ◌≤◌, ◌≡◌, ◌≢◌, refl, ◌↔◌, ◌⊎◌, String, true, some, none, arith, eq_iff}
use apekeeper.Domain.{User, GuildMembership}
use apekeeper.Access.{levels, or_zero, role_allowed, membership_change_allowed}

pub superadmin_level : levels "superadmin" ≡ none
unfolding levels
superadmin_level = refl

-- A user who is no superadmin may act in a role exactly when the role is one of the four guild
-- roles and the user's own guild role stands at least as high.
pub role_allowed_iff :
    (u : User) (m : GuildMembership) (required : String)
    → u.role ≢ "superadmin"
    → (role_allowed u m required ≡ true)
      ↔ ((n : ℕ) × (levels required ≡ some n) × (n ≤ or_zero (levels m.role)))
unfolding role_allowed
role_allowed_iff u m required h =
    ground (arith, eq_iff u.role "superadmin", eq_iff required "superadmin", superadmin_level)

-- Whoever may act in a guild role may also act in every lower one: an owner keeps what admins,
-- officers and members may do.
pub role_allowed_mono :
    (u : User) (m : GuildMembership) (high low : String) (h l : ℕ)
    → levels high ≡ some h
    → levels low ≡ some l
    → l ≤ h
    → role_allowed u m high ≡ true
    → role_allowed u m low ≡ true
unfolding role_allowed
role_allowed_mono u m high low h l eh el le allowed =
    ground (arith, eq_iff low "superadmin", superadmin_level)

-- A change of a membership is refused to everybody but owners, admins and superadmins, and an
-- admin can neither make an owner nor touch one.
pub membership_change_allowed_iff :
    (actor target role : String)
    → (membership_change_allowed actor target role ≡ true) ↔ (
        (actor ≡ "superadmin")
        ⊎ (actor ≡ "owner")
        ⊎ ((actor ≡ "admin") × (role ≢ "owner") × (target ≢ "owner")))
unfolding membership_change_allowed
membership_change_allowed_iff actor target role = ground (
  arith,
  eq_iff actor "superadmin",
  eq_iff actor "owner",
  eq_iff actor "admin",
  eq_iff role "owner",
  eq_iff target "owner",
)
