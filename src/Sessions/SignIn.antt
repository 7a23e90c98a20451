-- ===== src/Sessions/SignIn.antt =====
-- auth.go: Login and Callback, with UpsertBattleNetUser, CreateSession and SessionUser of
-- backend/internal/store/users.go.
pub mod Laws
pub mod Live
use apekeeper.Common.{
  ℕ, suc, ◌+◌, String, Bool, true, false, not, ◌&&◌, ◌||◌, ltb, ◌==◌, str_eq, if◌then◌else◌, Option,
  none, some, List, [], ◌∷◌, ◌++◌, any, length, ℤ,
}
use apekeeper.Access.{is_superadmin}
use apekeeper.Access.Members.{Row, role_of}
use apekeeper.Sessions.{
  Bytes, bytes_eq, Session, Account, AuthDb, session_life, keep_state, consume_state, string_int,
  audit,
}

-- isSuperAdmin, with strings.EqualFold
unfoldable pub is_super_admin : (String → String → Bool) → List String → String → Bool
is_super_admin equal_fold tags battletag = any (λ tag. equal_fold tag battletag) tags

-- the role that the inserted user gets
unfoldable pub first_role : Bool → List Account → String
first_role superadmin accounts =
    if superadmin then "superadmin" else if length accounts == 0 then "admin" else "member"

-- The two updates of a user that has signed in before: the tag, and the role of a super admin.
unfoldable pub sign_in_again : String → Bool → Account → Account
sign_in_again battletag superadmin a = record a {
  battletag = battletag;
  role = if superadmin then "superadmin" else a.role;
}

-- the account of a Battle.net identifier
unfoldable pub find_account : Bytes → List Account → Option Account
find_account bnet_id [] = none
find_account bnet_id (a ∷ rest) =
    let found = find_account bnet_id rest in if bytes_eq a.bnet_id bnet_id then some a else found

unfoldable pub update_account : (Account → Account) → Bytes → List Account → List Account
update_account f bnet_id [] = []
update_account f bnet_id (a ∷ rest) =
    let others = update_account f bnet_id rest in
    if bytes_eq a.bnet_id bnet_id then f a ∷ rest else a ∷ others

-- UpsertBattleNetUser; `stored` says that its second statement, the update of a super admin's role,
-- was executed. Users are never deleted, so that a new one has the next number
unfoldable pub upsert : Bytes → String → Bool → Bool → List Account → Account × List Account
upsert bnet_id battletag superadmin stored accounts = elim (find_account bnet_id accounts) [
  | some a ↦ (
    sign_in_again battletag (superadmin && stored) a,
    update_account (sign_in_again battletag (superadmin && stored)) bnet_id accounts,
  )
  | none ↦
      let a : Account = record {
        id = suc (length accounts);
        bnet_id = bnet_id;
        battletag = battletag;
        role = first_role superadmin accounts;
      } in
      (a, accounts ++ a ∷ [])
]

-- UserProfile: the number of the account and its tag
pub record Profile : Type 0 where
  pub id : ℤ
  pub battletag : String

-- What the other services answer during one callback: `none` for an error of ExchangeCode or of
-- UserProfile, and the faults of the statements.
pub record Replies : Type 0 where
  pub token : Option String
  pub profile : String → Option Profile
  pub state_fault : Bool
  pub upsert_fault : Bool
  -- a fault of the statements after the first of UpsertBattleNetUser
  pub role_fault : Bool
  pub session_fault : Bool
  -- the audit event is recorded
  pub audit_kept : Bool

-- the status of the answer, and the identifier in the cookie that it sets
pub record SignInReply : Type 0 where
  pub status : ℕ
  pub session : Option Bytes

abbrev pub sign_in_failure : Bool → ℕ → AuthDb → SignInReply × AuthDb
sign_in_failure kept status db =
    (record { status = status; session = none }, audit kept "sign_in_failure" db)

module _ (digest : Bytes → Bytes) (encode : Bytes → Bytes) (equal_fold : String → String → Bool)
    (tags : List String) where
  -- formatID
  abbrev pub format_id : ℤ → Bytes
  format_id id = encode (string_int id)

  -- the call of UpsertBattleNetUser
  abbrev save_user : Profile → Bool → AuthDb → Account × List Account
  save_user p stored db =
      upsert (format_id p.id) p.battletag (is_super_admin equal_fold tags p.battletag) stored
        db.accounts

  -- from the profile to the answer; `id` is the random token of the session
  unfoldable pub open_session : Replies → Bytes → ℕ → Profile → AuthDb → SignInReply × AuthDb
  unfolding upsert is_super_admin
  open_session replies id now p db =
      if replies.upsert_fault
      then sign_in_failure replies.audit_kept 500 db
      else if replies.role_fault
      then sign_in_failure replies.audit_kept 500
          (record db { accounts = (save_user p false db).1 })
      else if replies.session_fault
      then sign_in_failure replies.audit_kept 500 (record db { accounts = (save_user p true db).1 })
      else (
        record { status = 302; session = some id },
        audit replies.audit_kept "sign_in_success" (record db {
          accounts = (save_user p true db).1;
          sessions =
              record { id = id; user_id = (save_user p true db).0.id; expires = now + session_life }
              ∷ db.sessions;
        }),
      )

  -- Callback, for the parameters `state` and `code` of the query, "" for a code that is missing
  unfoldable pub callback :
      Bool → Replies → Bytes → ℕ → Bytes → String → AuthDb → SignInReply × AuthDb
  unfolding open_session
  callback shared replies id now state code db =
      let c = consume_state digest shared replies.state_fault state now db in
      if not c.0
      then sign_in_failure replies.audit_kept 400 c.1
      else if str_eq code ""
      then sign_in_failure replies.audit_kept 400 c.1
      else elim replies.token [
        | none ↦ sign_in_failure replies.audit_kept 502 c.1
        | some token ↦ elim (replies.profile token) [
          | none ↦ sign_in_failure replies.audit_kept 502 c.1
          | some p ↦ open_session replies id now p c.1
        ]
      ]

-- Login: the redirect to the provider, unless the state could not be kept
unfoldable pub login : (Bytes → Bytes) → Bool → Bool → Bytes → ℕ → AuthDb → ℕ × AuthDb
login digest shared fault state now db =
    let k = keep_state digest shared fault state now db in (if k.0 then 302 else 503, k.1)

-- the session that a cookie names and that has not expired
unfoldable pub find_session : Bytes → ℕ → List Session → Option Session
find_session id now [] = none
find_session id now (s ∷ ss) =
    let found = find_session id now ss in
    if bytes_eq s.id id && ltb now s.expires then some s else found

unfoldable pub account_of : ℕ → List Account → Option Account
account_of user [] = none
account_of user (a ∷ rest) =
    let found = account_of user rest in if a.id == user then some a else found

-- the role that a user of the only guild starts with
unfoldable pub boot_role : String → String
boot_role role = if str_eq role "admin" || is_superadmin role then "owner" else role

-- the CTE `boot`: INSERT … ON CONFLICT DO NOTHING, if there is exactly one guild
unfoldable pub boot : List ℕ → Account → List Row → List Row
unfolding boot_role
boot (g ∷ []) u rows = elim (role_of g u.id rows) [
  | some role ↦ rows
  | none ↦ rows ++ record { guild_id = g; user_id = u.id; role = boot_role u.role } ∷ []
]
boot [] u rows = rows
boot (g ∷ h ∷ gs) u rows = rows

-- SessionUser
unfoldable pub session_user : List ℕ → Bytes → ℕ → AuthDb → List Row → Option Account × List Row
unfolding find_session account_of boot
session_user guilds id now db rows = elim (find_session id now db.sessions) [
  | none ↦ (none, rows)
  | some s ↦ elim (account_of s.user_id db.accounts) [
    | none ↦ (none, rows)
    | some u ↦ (some u, boot guilds u rows)
  ]
]
