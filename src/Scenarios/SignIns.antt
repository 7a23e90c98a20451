-- ===== src/Scenarios/SignIns.antt =====
-- A sign-in, its cookie and its end.
use apekeeper.Common.{
  if◌then◌else◌, ◌≡◌, ◌≢◌, ◌⊎◌, refl, String, true, false, none, some, [], ◌∷◌, str_eq, pos, arith,
}
use apekeeper.Sessions.{
  Bytes, Session, Account, AuthDb, cookie, session_id, consume_state, logout, is_live, split_cookie,
  bytes_eq,
}
use apekeeper.Sessions.States.{consume_state-once}
use apekeeper.Sessions.SignIn.{Profile, Replies, callback, session_user, account_of, find_session}
use apekeeper.Sessions.SignIn.Laws.{IsSignedIn, IsTurnedAway, callback-ends}
use apekeeper.Sessions.SignIn.Live.{ends_session, session_user-logout}

abbrev digest : Bytes → Bytes
digest b = 1 ∷ b

abbrev sign : Bytes → Bytes
sign b = 2 ∷ b

abbrev state : Bytes
state = 97 ∷ 98 ∷ []

abbrev token : Bytes
token = 120 ∷ 121 ∷ []

abbrev ape : Account
ape = record { id = 1; bnet_id = 51 ∷ []; battletag = "Ape#1"; role = "admin" }

abbrev session : Session
session = record { id = token; user_id = 1; expires = 1000 }

abbrev db : AuthDb
db = record {
  states = [];
  oauth_states = record { state = digest state; expires = 700 } ∷ [];
  sessions = session ∷ [];
  accounts = ape ∷ [];
  audits = [];
}

accepted : (consume_state digest true false state 200 db).0 ≡ true
unfolding consume_state is_live bytes_eq
accepted = refl

consume_state-once_example :
    (consume_state digest true false state 300 (consume_state digest true false state 200 db).1).0
    ≡ false
consume_state-once_example =
    consume_state-once digest true false false state 200 300 db (omega arith) accepted

read_back : session_id sign (some (cookie sign token)) ≡ some token
unfolding session_id cookie split_cookie bytes_eq
read_back = refl

abbrev replies : Replies
replies = record {
  token = some "access";
  profile = λ t. some (record { id = pos 3; battletag = "Ape#1" });
  state_fault = false;
  upsert_fault = false;
  role_fault = false;
  session_fault = false;
  audit_kept = true;
}

abbrev code : String
code = "code"

callback-ends_example :
    (((consume_state digest true false state 200 db).0 ≡ true)
      × (code ≢ "")
      × ((t : String) × (p : Profile) × (replies.token ≡ some t)
          × (replies.profile t ≡ some p)
          × IsSignedIn digest
              (λ b. b)
              str_eq
              []
              true
              (9 ∷ [])
              200
              p
              db
              (callback digest (λ b. b) str_eq [] true replies (9 ∷ []) 200 state code db)))
    ⊎ IsTurnedAway digest
        (λ b. b)
        str_eq
        []
        true
        db
        (callback digest (λ b. b) str_eq [] true replies (9 ∷ []) 200 state code db)
callback-ends_example =
    callback-ends digest (λ b. b) str_eq [] true replies (9 ∷ []) 200 state code db

signed_in : (session_user (1 ∷ []) token 500 db []).0 ≡ some ape
unfolding session_user find_session account_of bytes_eq
signed_in = refl

session_user-logout_example :
    session_user (1 ∷ []) token 500 (logout sign true false (some (cookie sign token)) db).1 [] ≡ (
      if ends_session false (session_id sign (some (cookie sign token))) token
      then (none, [])
      else session_user (1 ∷ []) token 500 db [])
session_user-logout_example =
    session_user-logout true token db (1 ∷ []) 500 [] sign false (some (cookie sign token))

ended : ends_session false (session_id sign (some (cookie sign token))) token ≡ true
unfolding session_id cookie split_cookie bytes_eq
ended = refl
