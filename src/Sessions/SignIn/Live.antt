-- ===== src/Sessions/SignIn/Live.antt =====
-- Which sessions a cookie can still be used for.
use mathlib.Core.List.{Memᴰ}
use apekeeper.Common.{
  true, Bool, ◌∙◌, ap, subst, if◌then◌else◌, ◌&&◌, ℕ, ◌<◌, ◌≡◌, refl, false, not, ltb, Option, none,
  some, List, [], ◌∷◌, keep, arith, Bool-cases, Option-cases, inl, inr, ltb→lt,
}
use apekeeper.Access.Members.{Row}
use apekeeper.Sessions.{
  Bytes, bytes_eq, Session, Account, AuthDb, session_id, logout, revoke_session, audit,
}
use apekeeper.Sessions.Cookies.{bytes_eq_sound}
use apekeeper.Sessions.SignIn.{find_session, account_of, session_user}

find_session_sound :
    (id : Bytes) (now : ℕ) (ss : List Session) (s : Session)
    → find_session id now ss ≡ some s
    → Memᴰ s ss × (s.id ≡ id) × (now < s.expires)
unfolding find_session
find_session_sound id now [] s h = ground arith
find_session_sound id now (x ∷ ss) s h = elim (Bool-cases (bytes_eq x.id id)) [
  | inr e ↦ let r = find_session_sound id now ss s (ground arith) in (Memᴰ.tail r.0, r.1, r.2)
  | inl e ↦ elim (Bool-cases (ltb now x.expires)) [
    | inr f ↦ let r = find_session_sound id now ss s (ground arith) in (Memᴰ.tail r.0, r.1, r.2)
    | inl f ↦
        let q : s ≡ x = ground arith in
        rw q (Memᴰ.head refl, bytes_eq_sound x.id id e, ltb→lt now x.expires f)
  ]
]

-- without the sessions of an identifier, that one finds none and every other finds what it found
find_session-keep :
    (id other : Bytes) (now : ℕ) (ss : List Session)
    → find_session other now (keep (λ s. not (bytes_eq s.id id)) ss)
      ≡ (if bytes_eq id other then none else find_session other now ss)
unfolding find_session
find_session-keep id other now [] = ground arith
find_session-keep id other now (x ∷ ss) =
    let rest = find_session-keep id other now ss in
    elim (Bool-cases (bytes_eq x.id id)) [
      | inl e ↦
          let same : bytes_eq x.id other ≡ bytes_eq id other =
            ap (λ b. bytes_eq b other) (bytes_eq_sound x.id id e) in
          elim (Bool-cases (bytes_eq id other)) [
            | inl f ↦ simp (e, rest, f) refl
            | inr f ↦ simp (e, rest, f, same ∙ f, find_session) refl
          ]
      | inr e ↦ elim (Bool-cases (bytes_eq id other)) [
        | inr f ↦ simp (e, rest, f, find_session) refl
        | inl f ↦
            let n : bytes_eq x.id other ≡ false =
              subst (λ b. bytes_eq x.id b ≡ false) (bytes_eq_sound id other f) e in
            simp (e, rest, f, n, find_session) refl
      ]
    ]

-- A request is that of a user only by a session of the table, with the identifier of the cookie,
-- that has not expired and belongs to that user.
pub session_user-live :
    (guilds : List ℕ) (id : Bytes) (now : ℕ) (db : AuthDb) (rows : List Row) (u : Account)
    → (session_user guilds id now db rows).0 ≡ some u
    → (s : Session) × Memᴰ s db.sessions
      × (s.id ≡ id)
      × (now < s.expires)
      × (account_of s.user_id db.accounts ≡ some u)
unfolding session_user
session_user-live guilds id now db rows u h =
    elim (Option-cases (find_session id now db.sessions)) [
      | inl e ↦ absurd (ground arith)
      | inr (s, e) ↦
          let r = find_session_sound id now db.sessions s e in
          elim (Option-cases (account_of s.user_id db.accounts)) [
            | inl f ↦ absurd (ground arith)
            | inr (v, f) ↦ (s, r.0, r.1, r.2, ground arith)
          ]
    ]

-- whether a logout with the identifier of a valid cookie, if any, ends the sessions of another one
abbrev pub ends_session : Bool → Option Bytes → Bytes → Bool
ends_session fault none other = false
ends_session fault (some id) other = not fault && bytes_eq id other

module _ (kept : Bool) (other : Bytes) (db : AuthDb) (guilds : List ℕ) (later : ℕ)
    (rows : List Row) where
  session_user-revoke_session :
      (fault : Bool) (o : Option Bytes)
      → session_user guilds other later (audit kept "logout" (revoke_session fault o db)) rows ≡ (
          if ends_session fault o other
          then (none, rows)
          else session_user guilds other later db rows)
  unfolding revoke_session session_user
  session_user-revoke_session fault none = refl
  session_user-revoke_session true (some id) = refl
  session_user-revoke_session false (some id) = elim (Bool-cases (bytes_eq id other)) [
    | inl g ↦ simp (g, session_user, find_session-keep id other later db.sessions) refl
    | inr g ↦ simp (g, session_user, find_session-keep id other later db.sessions) refl
  ]

  -- After a logout, the identifier of its cookie is no user's any more at any instant, provided that
  -- the cookie is valid and the statement that deletes the session does not fail. In every other case,
  -- and for every other identifier, a request is that of the same user as without the logout.
  pub session_user-logout :
      (sign : Bytes → Bytes) (fault : Bool) (c : Option Bytes)
      → session_user guilds other later (logout sign kept fault c db).1 rows ≡ (
          if ends_session fault (session_id sign c) other
          then (none, rows)
          else session_user guilds other later db rows)
  unfolding logout
  session_user-logout sign fault c = session_user-revoke_session fault (session_id sign c)
