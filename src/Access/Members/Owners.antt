-- ===== src/Access/Members/Owners.antt =====
-- What the membership handlers do to the table: owners are safe from everybody else.
use apekeeper.Common.{
  ℕ, ◌≡◌, ◌≢◌, ◌↔◌, refl, inl, inr, String, true, not, ◌&&◌, ◌||◌, ◌==◌, str_eq, if◌then◌else◌,
  Option, none, some, List, [], ◌∷◌, ◌++◌, ok, err, ℤ, arith, Bool-cases, Option-cases,
}
use apekeeper.Domain.{User, GuildMembership}
use apekeeper.Access.{Refusal, membership_change_allowed, valid_membership_role}
use apekeeper.Access.Rules.{membership_change_allowed_iff}
use apekeeper.Access.Members.{
  Row, Db, Faults, role_of, grant, revoke, find_guild_candidate, actor_role, audited, invite_member,
  for_user, path_id, update_member, remove_member, MemberCall, invites, updates, removes,
  handle_member,
}

pub role_of-grant :
    (g u : ℕ) (role : String) (h v : ℕ) (rows : List Row)
    → role_of h v (grant g u role rows) ≡ (if g == h && u == v then some role else role_of h v rows)
unfolding role_of grant
role_of-grant g u role h v [] = refl
role_of-grant g u role h v (r ∷ rows) = ground (arith, role_of-grant g u role h v rows)

pub role_of-revoke :
    (g u h v : ℕ) (rows : List Row)
    → role_of h v (revoke g u rows) ≡ (if g == h && u == v then none else role_of h v rows)
unfolding role_of revoke
role_of-revoke g u h v [] = ground arith
role_of-revoke g u h v (r ∷ rows) = ground (arith, role_of-revoke g u h v rows)

find_guild_candidate-none :
    (g : ℕ) (tag : String) (rows : List Row) (ids : List (String × ℕ)) (u : ℕ)
    → find_guild_candidate g tag rows ids ≡ some u
    → role_of g u rows ≡ none
unfolding find_guild_candidate
find_guild_candidate-none g tag rows [] u h = cc
find_guild_candidate-none g tag rows ((t, v) ∷ ids) u h =
    ground (arith, find_guild_candidate-none g tag rows ids u)

abbrev pub IsOwner : ℕ → ℕ → Db → Type 0
IsOwner g u db = role_of g u db.rows ≡ some "owner"

abbrev pub SameOwners : Db → Db → Type 0
SameOwners a b = (g u : ℕ) → IsOwner g u a ↔ IsOwner g u b

module _ (f : Faults) (u : User) (m : GuildMembership) (unmarked : actor_role u m ≢ "superadmin")
    (below : actor_role u m ≢ "owner") where
  actor_below :
      (target role : String)
      → membership_change_allowed (actor_role u m) target role ≡ true
      → (role ≢ "owner") × (target ≢ "owner")
  actor_below target role h =
      elim ((membership_change_allowed_iff (actor_role u m) target role).0 h) [
        | inl e ↦ absurd (unmarked e)
        | inr (inl e) ↦ absurd (below e)
        | inr (inr (_, r, t)) ↦ (r, t)
      ]

  grant-SameOwners :
      (id : ℕ) (role event : String) (status : ℕ) (db : Db)
      → role ≢ "owner"
      → ¬ IsOwner m.guild.id id db
      → SameOwners db
          (audited f u m event status (record db { rows = grant m.guild.id id role db.rows })).1
  unfolding audited
  grant-SameOwners id role event status db ne not_owner g v =
      ground (arith, role_of-grant m.guild.id id role g v db.rows)

  revoke-SameOwners :
      (id : ℕ) (event : String) (status : ℕ) (db : Db)
      → ¬ IsOwner m.guild.id id db
      → SameOwners db
          (audited f u m event status (record db { rows = revoke m.guild.id id db.rows })).1
  unfolding audited
  revoke-SameOwners id event status db not_owner g v =
      ground (arith, role_of-revoke m.guild.id id g v db.rows)

  SameOwners-refl : (db : Db) → SameOwners db db
  SameOwners-refl db g v = ((λ h. h), (λ h. h))

  invite_found :
      (trim : String → String) (tag role : String) (db : Db) (o : Option ℕ)
      → (if f.find then none else find_guild_candidate m.guild.id (trim tag) db.rows db.identities)
        ≡ o
      → SameOwners db (invite_member trim f u m (some (tag, role)) db).1
  unfolding invite_member
  invite_found trim tag role db none e =
      elim (Bool-cases (str_eq (trim tag) "" || not (valid_membership_role role))) [
        | inl bad ↦ rw (bad) (SameOwners-refl db)
        | inr good ↦ rw (good, e) (SameOwners-refl db)
      ]
  invite_found trim tag role db (some id) e =
      elim (Bool-cases (str_eq (trim tag) "" || not (valid_membership_role role))) [
        | inl bad ↦ rw (bad) (SameOwners-refl db)
        | inr good ↦ elim (Bool-cases (membership_change_allowed (actor_role u m) "" role)) [
          | inr refused ↦ rw (good, e, refused) (SameOwners-refl db)
          | inl allowed ↦ elim (Bool-cases f.grant) [
            | inl fault ↦ rw (good, e, allowed, fault) (SameOwners-refl db)
            | inr done ↦
                rw (good, e, allowed, done)
                  (grant-SameOwners id role "member_invite" 201 db (actor_below "" role allowed).0 (
                    ground (
                      arith,
                      find_guild_candidate-none m.guild.id (trim tag) db.rows db.identities id,
                    )))
          ]
        ]
      ]

  invite_member-SameOwners :
      (trim : String → String) (body : Option (String × String)) (db : Db)
      → SameOwners db (invite_member trim f u m body db).1
  unfolding invite_member
  invite_member-SameOwners trim none db = SameOwners-refl db
  invite_member-SameOwners trim (some (tag, role)) db = invite_found trim tag role db _ refl

  -- the target's role is known not to be the owner's once the change is allowed
  target_below :
      (id : ℕ) (target role : String) (db : Db)
      → for_user f id m.guild.id db ≡ some target
      → membership_change_allowed (actor_role u m) target role ≡ true
      → ¬ IsOwner m.guild.id id db
  unfolding for_user
  target_below id target role db e allowed owner =
      (actor_below target role allowed).1 (ground arith)

  update_target :
      (path : Option ℤ) (id : ℕ) (role : String) (db : Db) (o : Option String)
      → path_id path ≡ some id
      → for_user f id m.guild.id db ≡ o
      → SameOwners db (update_member f u m path (some role) db).1
  unfolding update_member
  update_target path id role db none p e = elim (Bool-cases (not (valid_membership_role role))) [
    | inl bad ↦ rw (p, bad, update_member) (SameOwners-refl db)
    | inr good ↦ rw (p, good, e, update_member) (SameOwners-refl db)
  ]
  update_target path id role db (some target) p e =
      elim (Bool-cases (not (valid_membership_role role))) [
        | inl bad ↦ rw (p, bad, update_member) (SameOwners-refl db)
        | inr good ↦ elim (Bool-cases (membership_change_allowed (actor_role u m) target role)) [
          | inr refused ↦ rw (p, good, e, refused, update_member) (SameOwners-refl db)
          | inl allowed ↦ elim (Bool-cases f.grant) [
            | inl fault ↦ rw (p, good, e, allowed, fault, update_member) (SameOwners-refl db)
            | inr done ↦
                rw (p, good, e, allowed, done, update_member)
                  (grant-SameOwners id role "role_change" 204 db (actor_below target role allowed).0
                    (target_below id target role db e allowed))
          ]
        ]
      ]

  update_member-SameOwners :
      (path : Option ℤ) (body : Option String) (db : Db)
      → SameOwners db (update_member f u m path body db).1
  unfolding update_member
  update_member-SameOwners path none db = elim (Option-cases (path_id path)) [
    | inl p ↦ rw (p, update_member) (SameOwners-refl db)
    | inr (id, p) ↦ rw (p, update_member) (SameOwners-refl db)
  ]
  update_member-SameOwners path (some role) db = elim (Option-cases (path_id path)) [
    | inl p ↦ rw (p, update_member) (SameOwners-refl db)
    | inr (id, p) ↦ update_target path id role db _ p refl
  ]

  remove_target :
      (path : Option ℤ) (id : ℕ) (db : Db) (o : Option String)
      → path_id path ≡ some id
      → for_user f id m.guild.id db ≡ o
      → SameOwners db (remove_member f u m path db).1
  unfolding remove_member
  remove_target path id db none p e = rw (p, e, remove_member) (SameOwners-refl db)
  remove_target path id db (some target) p e =
      elim (Bool-cases (membership_change_allowed (actor_role u m) target "member")) [
        | inr refused ↦ rw (p, e, refused, remove_member) (SameOwners-refl db)
        | inl allowed ↦ elim (Bool-cases f.revoke) [
          | inl fault ↦ rw (p, e, allowed, fault, remove_member) (SameOwners-refl db)
          | inr done ↦
              rw (p, e, allowed, done, remove_member)
                (revoke-SameOwners id "member_remove" 204 db
                  (target_below id target "member" db e allowed))
        ]
      ]

  remove_member-SameOwners :
      (path : Option ℤ) (db : Db) → SameOwners db (remove_member f u m path db).1
  unfolding remove_member
  remove_member-SameOwners path db = elim (Option-cases (path_id path)) [
    | inl p ↦ rw (p, remove_member) (SameOwners-refl db)
    | inr (id, p) ↦ remove_target path id db _ p refl
  ]

  -- Whatever an actor asks for who is neither an owner of the guild nor a superadmin, and whatever
  -- statements the database refuses: exactly the same users own exactly the same guilds afterwards.
  pub handle_member-SameOwners :
      (trim : String → String) (call : MemberCall) (db : Db)
      → SameOwners db (handle_member trim f u m call db).1
  unfolding handle_member
  handle_member-SameOwners trim (invites body) db = invite_member-SameOwners trim body db
  handle_member-SameOwners trim (updates id body) db = update_member-SameOwners id body db
  handle_member-SameOwners trim (removes id) db = remove_member-SameOwners id db

-- A request that is refused with any status but 500 has changed nothing.
pub handle_member_refused :
    (trim : String → String) (f : Faults) (u : User) (m : GuildMembership) (call : MemberCall)
    (db : Db) (e : Refusal)
    → (handle_member trim f u m call db).0 ≡ err e
    → e.status ≢ 500
    → (handle_member trim f u m call db).1 ≡ db
unfolding handle_member invite_member update_member remove_member
handle_member_refused trim f u m (invites body) db e = ground arith
handle_member_refused trim f u m (updates id body) db e = ground arith
handle_member_refused trim f u m (removes id) db e = ground arith

abbrev pub event_name : MemberCall → String
event_name (invites body) = "member_invite"
event_name (updates id body) = "role_change"
event_name (removes id) = "member_remove"

-- A request that is answered with success has recorded one audit event, of the acting user in the
-- guild of the request.
pub events-handle_member :
    (trim : String → String) (f : Faults) (u : User) (m : GuildMembership) (call : MemberCall)
    (db : Db) (n : ℕ)
    → (handle_member trim f u m call db).0 ≡ ok n
    → (handle_member trim f u m call db).1.events
      ≡ db.events
        ++ record { actor = u.id; guild_id = m.guild.id; event_type = event_name call } ∷ []
unfolding handle_member invite_member update_member remove_member
events-handle_member trim f u m (invites body) db n = ground arith
events-handle_member trim f u m (updates id body) db n = ground arith
events-handle_member trim f u m (removes id) db n = ground arith
