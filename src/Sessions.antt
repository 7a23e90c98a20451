-- ===== src/Sessions.antt =====
-- backend/internal/auth/auth.go over the tables of backend/internal/store/users.go: sign-in by an
-- OAuth state that is used once, and sessions behind a signed cookie. Tokens and cookies are lists
-- of bytes; the hash, the signature and the random tokens are parameters. Instants are in seconds.
pub mod Cookies
pub mod States
pub mod SignIn
use apekeeper.Common.{
  ℕ, zero, suc, ◌+◌, ◌/◌, ◌%◌, String, Bool, true, false, not, ◌&&◌, ◌||◌, ltb, ◌==◌, if◌then◌else◌,
  Option, none, some, List, [], ◌∷◌, ◌++◌, keep, length, ℤ, pos, negsuc,
}

abbrev pub Bytes : Type 0
Bytes = List ℕ

unfoldable pub bytes_eq : Bytes → Bytes → Bool
bytes_eq [] [] = true
bytes_eq [] (y ∷ ys) = false
bytes_eq (x ∷ xs) [] = false
bytes_eq (x ∷ xs) (y ∷ ys) = let rest = bytes_eq xs ys in x == y && rest

-- a state with its expiry: an entry of the map `states`, or a row of oauth_states
pub record Pending : Type 0 where
  pub state : Bytes
  pub expires : ℕ

-- a row of sessions
pub record Session : Type 0 where
  pub id : Bytes
  pub user_id : ℕ
  pub expires : ℕ

-- a row of users joined with battle_net_identities
pub record Account : Type 0 where
  pub id : ℕ
  pub bnet_id : Bytes
  pub battletag : String
  pub role : String

pub record AuthDb : Type 0 where
  -- the map `states` of the Manager, for one without a StateStore
  pub states : List Pending
  -- oauth_states, with the digest in place of the state
  pub oauth_states : List Pending
  pub sessions : List Session
  pub accounts : List Account
  pub audits : List String

-- ConsumeOAuthState: DELETE … WHERE state_hash=$1 AND expires_at>$2, a row for which it holds
unfoldable pub is_live : Bytes → ℕ → Pending → Bool
is_live digest now p = bytes_eq p.state digest && ltb now p.expires

unfoldable pub is_state : Bytes → Pending → Bool
is_state state p = bytes_eq p.state state

-- the read of the map `states`
unfoldable pub lookup_state : Bytes → List Pending → Option ℕ
lookup_state state [] = none
lookup_state state (p ∷ ps) =
    let rest = lookup_state state ps in if is_state state p then some p.expires else rest

abbrev pub is_before : ℕ → Option ℕ → Bool
is_before now none = false
is_before now (some expires) = ltb now expires

-- the ten minutes and the seven days, in seconds
abbrev pub state_life : ℕ
state_life = 600

abbrev pub session_life : ℕ
session_life = 604800

module _ (digest : Bytes → Bytes) where
  -- AuthorizationURL up to the URL: whether the state is kept; `shared` says that there is a
  -- StateStore, `fault` that its statement fails
  unfoldable pub keep_state : Bool → Bool → Bytes → ℕ → AuthDb → Bool × AuthDb
  keep_state shared fault state now db =
      if shared
      then (if fault then (false, db) else (
        true,
        record db {
          oauth_states =
              record { state = digest state; expires = now + state_life } ∷ db.oauth_states;
        },
      ))
      else (
        true,
        record db {
          states =
              record { state = state; expires = now + state_life }
              ∷ keep (λ p. not (is_state state p)) db.states;
        },
      )

  -- consumeStateContext
  unfoldable pub consume_state : Bool → Bool → Bytes → ℕ → AuthDb → Bool × AuthDb
  unfolding lookup_state
  consume_state shared fault state now db =
      if shared
      then (if fault then (false, db) else (
        length (keep (is_live (digest state) now) db.oauth_states) == 1,
        record db { oauth_states = keep (λ p. not (is_live (digest state) now p)) db.oauth_states },
      ))
      else (
        is_before now (lookup_state state db.states),
        record db { states = keep (λ p. not (is_state state p)) db.states },
      )

-- DeleteExpiredOAuthStates and DeleteExpiredSessions
unfoldable pub delete_expired : ℕ → AuthDb → AuthDb
delete_expired now db = record db {
  oauth_states = keep (λ p. ltb now p.expires) db.oauth_states;
  sessions = keep (λ s. ltb now s.expires) db.sessions;
}

-- the digits of stringInt put before `b`, with fuel for the 20 that an int64 has at most
unfoldable pub digits : ℕ → ℕ → Bytes → Bytes
digits zero v b = b
digits (suc fuel) v b =
    let rest = digits fuel (v / 10) ((48 + v % 10) ∷ b) in if v == 0 then b else rest

-- stringInt
unfoldable pub string_int : ℤ → Bytes
string_int (pos v) = if v == 0 then 48 ∷ [] else digits 20 v []
string_int (negsuc v) = []

abbrev pub dot : ℕ
dot = 46

-- the loop of sessionID: the parts before and after the first dot, none for no dot
unfoldable pub split_cookie : Bytes → Option (Bytes × Bytes)
split_cookie [] = none
split_cookie (c ∷ cs) =
    let rest = split_cookie cs in
    if c == dot
    then some ([], cs)
    else elim rest [ none ↦ none | some (id, sig) ↦ some (c ∷ id, sig) ]

-- audit: the event is recorded where Manager.Audit is set and does not fail; its error is only logged
abbrev pub log_event : Bool → String → List String → List String
log_event kept event events = if kept then events ++ event ∷ [] else events

abbrev pub audit : Bool → String → AuthDb → AuthDb
audit kept event db = record db { audits = log_event kept event db.audits }

abbrev pub is_empty : Bytes → Bool
is_empty [] = true
is_empty (c ∷ cs) = false

-- `id` and `sig` are empty without a dot
abbrev pub parts_of : Option (Bytes × Bytes) → Bytes × Bytes
parts_of none = ([], [])
parts_of (some p) = p

-- DeleteSession for the session of a valid cookie
unfoldable pub revoke_session : Bool → Option Bytes → AuthDb → AuthDb
revoke_session fault none db = db
revoke_session true (some id) db = db
revoke_session false (some id) db = record db {
  sessions = keep (λ s. not (bytes_eq s.id id)) db.sessions;
}

module _ (sign : Bytes → Bytes) where
  -- the value of the cookie
  unfoldable pub cookie : Bytes → Bytes
  cookie id = id ++ dot ∷ sign id

  -- sessionID, for the cookie of the request
  unfoldable pub session_id : Option Bytes → Option Bytes
  unfolding split_cookie
  session_id none = none
  session_id (some value) =
      let p = parts_of (split_cookie value) in
      if is_empty p.0 || not (bytes_eq p.1 (sign p.0)) then none else some p.0

  -- Logout: the session of a valid cookie is revoked, unless the statement fails, and the answer is
  -- the same; `kept` says that the audit event is recorded
  unfoldable pub logout : Bool → Bool → Option Bytes → AuthDb → ℕ × AuthDb
  unfolding session_id revoke_session
  logout kept fault c db = (204, audit kept "logout" (revoke_session fault (session_id c) db))
