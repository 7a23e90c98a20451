-- ===== src/Sessions/SignIn/Laws.antt =====
-- What a sign-in does to the sessions, the audit log and the roles.
use apekeeper.Common.{
  ℕ, ◌+◌, ◌≤◌, ◌≡◌, ◌≢◌, refl, ◌∙◌, sym, ap, String, Bool, true, false, ◌&&◌, str_eq, none, some,
  List, [], ◌∷◌, ◌++◌, arith, Bool-cases, Option-cases, inl, inr, ◌⊎◌, eq_iff, subst,
}
use apekeeper.Sessions.{
  log_event, Bytes, bytes_eq, Session, Account, AuthDb, session_life, consume_state,
}
use apekeeper.Sessions.SignIn.{
  is_super_admin, sign_in_again, find_account, update_account, upsert, Profile, Replies,
  SignInReply, open_session, callback, format_id, sign_in_failure,
}

-- Every account of the first list is at its place in the second, with its role or xs a superadmin.
abbrev pub KeepsRoles : List Account → List Account → Type 0
KeepsRoles [] bs = Unit
KeepsRoles (a ∷ xs) [] = ⊥
KeepsRoles (a ∷ xs) (b ∷ bs) =
    (a.id ≡ b.id) × ((b.role ≡ a.role) ⊎ (b.role ≡ "superadmin")) × KeepsRoles xs bs

KeepsRoles-append : (xs bs : List Account) → KeepsRoles xs (xs ++ bs)
KeepsRoles-append [] bs = tt
KeepsRoles-append (a ∷ xs) bs = (refl, inl refl, KeepsRoles-append xs bs)

KeepsRoles-refl : (xs : List Account) → KeepsRoles xs xs
KeepsRoles-refl [] = tt
KeepsRoles-refl (a ∷ xs) = (refl, inl refl, KeepsRoles-refl xs)

sign_in_again-role :
    (tag : String) (superadmin : Bool) (a : Account)
    → ((sign_in_again tag superadmin a).role ≡ a.role)
      ⊎ ((sign_in_again tag superadmin a).role ≡ "superadmin")
unfolding sign_in_again
sign_in_again-role tag true a = inr refl
sign_in_again-role tag false a = inl refl

update_account-KeepsRoles :
    (tag : String) (superadmin : Bool) (id : Bytes) (xs : List Account)
    → KeepsRoles xs (update_account (sign_in_again tag superadmin) id xs)
unfolding update_account sign_in_again
update_account-KeepsRoles tag superadmin id [] = tt
update_account-KeepsRoles tag superadmin id (a ∷ xs) = elim (Bool-cases (bytes_eq a.bnet_id id)) [
  | inl e ↦ rw e (refl, sign_in_again-role tag superadmin a, KeepsRoles-refl xs)
  | inr e ↦ rw e (refl, inl refl, update_account-KeepsRoles tag superadmin id xs)
]

-- A sign-in never removes an account and never demotes one: each keeps its number and its role, or
-- becomes a superadmin.
pub upsert-KeepsRoles :
    (id : Bytes) (tag : String) (superadmin stored : Bool) (xs : List Account)
    → KeepsRoles xs (upsert id tag superadmin stored xs).1
unfolding upsert
upsert-KeepsRoles id tag superadmin stored xs = elim (Option-cases (find_account id xs)) [
  | inl e ↦ rw (e, upsert) (KeepsRoles-append xs _)
  | inr (a, e) ↦ rw (e, upsert) (update_account-KeepsRoles tag (superadmin && stored) id xs)
]

-- reading a state changes the states only
consume_state-rest :
    (digest : Bytes → Bytes) (shared fault : Bool) (state : Bytes) (now : ℕ) (db : AuthDb)
    → let after = (consume_state digest shared fault state now db).1 in
      (after.sessions ≡ db.sessions) × (after.audits ≡ db.audits) × (after.accounts ≡ db.accounts)
unfolding consume_state
consume_state-rest digest true true state now db = (refl, refl, refl)
consume_state-rest digest true false state now db = (refl, refl, refl)
consume_state-rest digest false fault state now db = (refl, refl, refl)

module _ (digest : Bytes → Bytes) (encode : Bytes → Bytes) (equal_fold : String → String → Bool)
    (tags : List String) where
  -- the session of a sign-in with a profile, over some accounts
  abbrev pub session_for : Bytes → ℕ → Profile → List Account → Session
  session_for id now p accounts = record {
    id = id;
    user_id =
        (upsert (format_id digest encode equal_fold tags p.id) p.battletag
          (is_super_admin equal_fold tags p.battletag) true accounts).0.id;
    expires = now + session_life;
  }

  abbrev pub IsSignedIn : Bool → Bytes → ℕ → Profile → AuthDb → SignInReply × AuthDb → Type 0
  IsSignedIn kept id now p db r =
      (r.0.status ≡ 302)
      × (r.0.session ≡ some id)
      × (r.1.sessions ≡ session_for id now p db.accounts ∷ db.sessions)
      × (r.1.audits ≡ log_event kept "sign_in_success" db.audits)

  abbrev pub IsTurnedAway : Bool → AuthDb → SignInReply × AuthDb → Type 0
  IsTurnedAway kept db r =
      (400 ≤ r.0.status)
      × (r.0.session ≡ none)
      × (r.1.sessions ≡ db.sessions)
      × (r.1.audits ≡ log_event kept "sign_in_failure" db.audits)

  -- databases with the same sessions, audit log and accounts
  abbrev IsSame : AuthDb → AuthDb → Type 0
  IsSame a b = (a.sessions ≡ b.sessions) × (a.audits ≡ b.audits) × (a.accounts ≡ b.accounts)

  IsSignedIn-same :
      (kept : Bool) (id : Bytes) (now : ℕ) (p : Profile) (a b : AuthDb) (r : SignInReply × AuthDb)
      → IsSame a b
      → IsSignedIn kept id now p a r
      → IsSignedIn kept id now p b r
  IsSignedIn-same kept id now p a b r (s, u, c) (x, y, z, w) = (
    x,
    y,
    z
        ∙ ap (λ t. session_for id now p t ∷ a.sessions) c
        ∙ ap (λ t. session_for id now p b.accounts ∷ t) s,
    w ∙ ap (log_event kept "sign_in_success") u,
  )

  IsTurnedAway-same :
      (kept : Bool) (a b : AuthDb) (r : SignInReply × AuthDb)
      → IsSame a b
      → IsTurnedAway kept a r
      → IsTurnedAway kept b r
  IsTurnedAway-same kept a b r (s, u, c) (x, y, z, w) =
      (x, y, z ∙ s, w ∙ ap (log_event kept "sign_in_failure") u)

  open_session-ends :
      (replies : Replies) (id : Bytes) (now : ℕ) (p : Profile) (db : AuthDb)
      → let r = open_session digest encode equal_fold tags replies id now p db in
        IsSignedIn replies.audit_kept id now p db r ⊎ IsTurnedAway replies.audit_kept db r
  unfolding open_session
  open_session-ends replies id now p db = elim (Bool-cases replies.upsert_fault) [
    | inl e ↦ simp e (inr (omega arith, refl, refl, refl))
    | inr e ↦ elim (Bool-cases replies.role_fault) [
      | inl g ↦ simp (e, g) (inr (omega arith, refl, refl, refl))
      | inr g ↦ elim (Bool-cases replies.session_fault) [
        | inl f ↦ simp (e, g, f) (inr (omega arith, refl, refl, refl))
        | inr f ↦ simp (e, g, f) (inl (refl, refl, refl, refl))
      ]
    ]
  ]

  module _ (shared : Bool) (replies : Replies) (id : Bytes) (now : ℕ) (state : Bytes)
      (code : String) (db : AuthDb) where
    abbrev consumed : Bool × AuthDb
    consumed = consume_state digest shared replies.state_fault state now db

    abbrev IsGenuine : Type 0
    IsGenuine =
        (consumed.0 ≡ true)
        × (code ≢ "")
        × ((token : String) × (p : Profile) × (replies.token ≡ some token)
            × (replies.profile token ≡ some p)
            × IsSignedIn replies.audit_kept id now p db
                (callback digest encode equal_fold tags shared replies id now state code db))

    profiled :
        consumed.0 ≡ true
        → code ≢ ""
        → (token : String) (p : Profile) → replies.token ≡ some token
        → replies.profile token ≡ some p
        → callback digest encode equal_fold tags shared replies id now state code db
          ≡ open_session digest encode equal_fold tags replies id now p consumed.1
        → IsGenuine
          ⊎ IsTurnedAway replies.audit_kept db
              (callback digest encode equal_fold tags shared replies id now state code db)
    profiled e ne token p g h q =
        let same = consume_state-rest digest shared replies.state_fault state now db in
        let r = open_session digest encode equal_fold tags replies id now p consumed.1 in
        elim (open_session-ends replies id now p consumed.1) [
          | inl o ↦ inl (
            e,
            ne,
            (
              token,
              p,
              g,
              h,
              subst (IsSignedIn replies.audit_kept id now p db) (sym q)
                  (IsSignedIn-same replies.audit_kept id now p consumed.1 db r same o),
            ),
          )
          | inr o ↦ inr (
              subst (IsTurnedAway replies.audit_kept db) (sym q)
                (IsTurnedAway-same replies.audit_kept consumed.1 db r same o))
        ]

    -- A callback ends in one of two ways. Either the state was accepted, the code was not empty and
    -- the provider gave a token and a profile; then it redirects with a new session for the account
    -- of that profile. Or it answers with an error, sets no session and leaves the sessions alone.
    -- At most one audit event says which: exactly one where the audit is set and its statement does not
    -- fail, and none else.
    pub callback-ends :
        IsGenuine
        ⊎ IsTurnedAway replies.audit_kept db
            (callback digest encode equal_fold tags shared replies id now state code db)
    unfolding callback
    callback-ends =
        let same = consume_state-rest digest shared replies.state_fault state now db in
        elim (Bool-cases consumed.0) [
          | inr e ↦ rw e (
              inr (
                IsTurnedAway-same replies.audit_kept consumed.1 db
                  (sign_in_failure replies.audit_kept 400 consumed.1) same
                  (omega arith, refl, refl, refl)))
          | inl e ↦ elim (Bool-cases (str_eq code "")) [
            | inl f ↦
                rw (e, f)
                  (inr (
                    IsTurnedAway-same replies.audit_kept consumed.1 db
                      (sign_in_failure replies.audit_kept 400 consumed.1) same
                      (omega arith, refl, refl, refl)))
            | inr f ↦ elim (Option-cases replies.token) [
              | inl g ↦
                  rw (e, f, g)
                    (inr (
                      IsTurnedAway-same replies.audit_kept consumed.1 db
                        (sign_in_failure replies.audit_kept 502 consumed.1) same
                        (omega arith, refl, refl, refl)))
              | inr (token, g) ↦ elim (Option-cases (replies.profile token)) [
                | inl h ↦
                    rw (e, f, g, h)
                      (inr (
                        IsTurnedAway-same replies.audit_kept consumed.1 db
                          (sign_in_failure replies.audit_kept 502 consumed.1) same
                          (omega arith, refl, refl, refl)))
                | inr (p, h) ↦
                    profiled e (λ z. ground (arith, (eq_iff code "").1 z)) token p g h
                      (rw (e, f, g, h, callback) refl)
              ]
            ]
          ]
        ]
