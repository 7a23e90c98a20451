-- ===== src/Sessions/States.antt =====
-- OAuth states are used once.
use apekeeper.Common.{
  ℕ, ◌+◌, ◌≤◌, ◌<◌, ◌≡◌, refl, Bool, true, false, not, none, List, [], ◌∷◌, keep, arith, Bool-cases,
  inl, inr, lt→ltb,
}
use apekeeper.Sessions.Cookies.{bytes_eq_refl}
use apekeeper.Sessions.{
  Bytes, Pending, AuthDb, is_live, is_state, lookup_state, keep_state, consume_state, state_life,
}

lookup_state-keep :
    (s : Bytes) (ps : List Pending) → lookup_state s (keep (λ p. not (is_state s p)) ps) ≡ none
unfolding lookup_state
lookup_state-keep s [] = refl
lookup_state-keep s (p ∷ ps) = elim (Bool-cases (is_state s p)) [
  | inl e ↦ rw e (lookup_state-keep s ps)
  | inr e ↦ simp (e, lookup_state-keep s ps, lookup_state) refl
]

is_live-later :
    (d : Bytes) (now later : ℕ) (p : Pending)
    → now ≤ later
    → is_live d now p ≡ false
    → is_live d later p ≡ false
unfolding is_live
is_live-later d now later p le h = ground arith

keep_live-keep :
    (d : Bytes) (now later : ℕ) (ps : List Pending)
    → now ≤ later
    → keep (is_live d later) (keep (λ p. not (is_live d now p)) ps) ≡ []
keep_live-keep d now later [] le = refl
keep_live-keep d now later (p ∷ ps) le = elim (Bool-cases (is_live d now p)) [
  | inl e ↦ rw e (keep_live-keep d now later ps le)
  | inr e ↦
      let f : is_live d later p ≡ false = is_live-later d now later p le e in
      rw (e, keep, f) (keep_live-keep d now later ps le)
]

-- A state that was accepted once is not accepted again at any later instant, whether the states
-- are shared through the database or kept by the process, and whatever the second query's fault.
pub consume_state-once :
    (digest : Bytes → Bytes) (shared fault fault' : Bool) (state : Bytes) (now later : ℕ)
    (db : AuthDb)
    → now ≤ later
    → (consume_state digest shared fault state now db).0 ≡ true
    → (consume_state digest shared fault' state later
        (consume_state digest shared fault state now db).1).0
      ≡ false
unfolding consume_state
consume_state-once digest true true fault' state now later db le h = absurd (ground arith)
consume_state-once digest true false true state now later db le h = refl
consume_state-once digest true false false state now later db le h =
    rw (keep_live-keep (digest state) now later db.oauth_states le) refl
consume_state-once digest false fault fault' state now later db le h =
    rw (lookup_state-keep state db.states) refl

is_state_refl : (s : Bytes) (t : ℕ) → is_state s (record { state = s; expires = t }) ≡ true
unfolding is_state
is_state_refl s t = bytes_eq_refl s

-- A state that was kept is accepted within its ten minutes by a process that keeps its own states.
pub consume_state-keep_state :
    (digest : Bytes → Bytes) (fault fault' : Bool) (state : Bytes) (now later : ℕ) (db : AuthDb)
    → later < now + state_life
    → (consume_state digest false fault' state later
        (keep_state digest false fault state now db).1).0
      ≡ true
unfolding consume_state keep_state lookup_state
consume_state-keep_state digest fault fault' state now later db l =
    let e : is_state state (record { state = state; expires = now + state_life }) ≡ true =
      is_state_refl state (now + state_life) in
    rw e (lt→ltb later (now + state_life) l)
