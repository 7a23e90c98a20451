-- ===== src/Officers/Handlers/Laws.antt =====
-- What the officers' handlers of httpapi/api.go answer and leave.
use apekeeper.Common.{
  ℕ, ◌+◌, ◌≡◌, ◌⊎◌, refl, ap, String, Bool, false, not, ◌&&◌, ◌||◌, none, some, List, [], ◌∷◌, ◌++◌,
  any, length, Result, ok, err, ℤ, eqz, is_pos, inl, inr, arith, Bool-cases,
}
use apekeeper.Domain.{User, GuildMembership}
use apekeeper.Access.Members.{Faults, audited}
use apekeeper.Officers.{OfficerError, valid_officer_ids, has_repeat}
use apekeeper.Officers.Changes.{
  OfficerFaults, OfficerCall, officer_step, valid_completion, characters_of, runs_of, OfficerDb,
}
use apekeeper.Officers.Changes.Scope.{IsOwned, officer_step-IsOwned, officer_step_refused}
use apekeeper.Officers.Handlers.{
  fresh_ids, officer_ids, officer_completion_ids, OfficerReply, accepted, details, refuses,
  OfficerRequest, bulk_tags_request, complete_request, character_request, OfficerWorld, perform,
  answer, reply_audited, officer_bulk_error, update_error, officer_bulk_tags, officer_complete,
  officer_character, handle_officer, refusal,
}

module _ {ℓ} {A : Type ℓ} where
  any-or : (p q : A → Bool) (xs : List A) → any (λ x. p x || q x) xs ≡ (any p xs || any q xs)
  any-or p q [] = refl
  any-or p q (x ∷ xs) = let rest = any-or p q xs in ground arith

-- the loop refuses an id that is not positive, one that stands in the list twice, or one seen before
fresh_ids-any :
    (seen ids : List ℤ)
    → fresh_ids seen ids ≡ (
        not (any (λ id. not (is_pos id)) ids)
        && not (has_repeat ids)
        && not (any (λ id. any (λ s. eqz s id) seen) ids))
unfolding fresh_ids has_repeat
fresh_ids-any seen [] = refl
fresh_ids-any seen (id ∷ ids) =
    let rest = fresh_ids-any (id ∷ seen) ids in
    let both = any-or (λ i. eqz id i) (λ i. any (λ s. eqz s i) seen) ids in ground arith

any-none {ℓ} : {A : Type ℓ} (xs : List A) → any (λ x. false) xs ≡ false
any-none [] = refl
any-none (x ∷ xs) = any-none xs

pub officer_ids-valid_officer_ids : (ids : List ℤ) → officer_ids ids ≡ valid_officer_ids ids
unfolding officer_ids valid_officer_ids
officer_ids-valid_officer_ids ids =
    let loop = fresh_ids-any [] ids in let empty = any-none ids in ground arith

-- the targets of a request, whatever its body
unfoldable pub targets_of : OfficerRequest → List ℤ × List ℤ
targets_of (bulk_tags_request none) = ([], [])
targets_of (bulk_tags_request (some b)) = (b.characters, [])
targets_of (complete_request now none) = ([], [])
targets_of (complete_request now (some c)) = (c.characters, c.runs)
targets_of (character_request none body) = ([], [])
targets_of (character_request (some id) body) = (id ∷ [], [])

-- an error's answer is a 400
unfoldable pub IsRejection : OfficerReply → Type 0
IsRejection (accepted n) = ⊥
IsRejection (details v) = Unit {0}
IsRejection (refuses r) = r.status ≡ 400

officer_bulk_error-IsRejection : (e : OfficerError) → IsRejection (officer_bulk_error e)
unfolding officer_bulk_error IsRejection
officer_bulk_error-IsRejection e = ground arith

update_error-IsRejection : (e : OfficerError) → IsRejection (update_error e)
unfolding update_error IsRejection
update_error-IsRejection e = refl

-- What a request that names `targets` may leave: all its targets are the guild's, and it is answered
-- 200 with their number and one event of the audit more, or 500 without an event; or it is rejected
-- and nothing has changed.
unfoldable pub IsSettled :
    GuildMembership → User → List ℤ × List ℤ → OfficerWorld → OfficerReply × OfficerWorld → Type 0
IsSettled m u targets w (reply, t) =
    (IsOwned m.guild.id w.officers.characters targets.0
      × IsOwned m.guild.id w.officers.runs targets.1
      × ((reply ≡ accepted (length targets.0 + length targets.1))
            × ((event : String) × (t.db.events
                  ≡ w.db.events
                    ++ record { actor = u.id; guild_id = m.guild.id; event_type = event } ∷ []))
          ⊎ (reply ≡ refuses (refusal 500 "audit recording failed")) × (t.db ≡ w.db)))
    ⊎ IsRejection reply × (t ≡ w)

rejected-IsSettled :
    (m : GuildMembership) (u : User) (targets : List ℤ × List ℤ) (w : OfficerWorld)
    (message : String)
    → IsSettled m u targets w (refuses (refusal 400 message), w)
unfolding IsSettled IsRejection
rejected-IsSettled m u targets w message = inr (refl, refl)

module _ (lower : ℕ → ℕ) (space : ℕ → Bool) (faults : OfficerFaults) (f : Faults) (u : User)
    (m : GuildMembership) where
  -- The handler of a completion lets through exactly the batches that the store takes.
  pub officer_completion_ids-valid_completion :
      (characters runs : List ℤ)
      → officer_completion_ids characters runs
        ≡ valid_completion lower space faults m.guild.id u.id characters runs
  unfolding officer_completion_ids valid_completion
  officer_completion_ids-valid_completion characters runs =
      let c = officer_ids-valid_officer_ids characters in
      let r = officer_ids-valid_officer_ids runs in ground arith

  answer-IsSettled :
      (explain : OfficerError → OfficerReply) (event : String) (n : ℕ) (call : OfficerCall)
      → n ≡ length (characters_of call) + length (runs_of call)
      → ((e : OfficerError) → IsRejection (explain e))
      → (w : OfficerWorld) (p : Result OfficerError (Unit {0}) × OfficerDb)
      → (p.0 ≡ ok tt
          → IsOwned m.guild.id w.officers.characters (characters_of call)
            × IsOwned m.guild.id w.officers.runs (runs_of call))
      → ((e : OfficerError) → p.0 ≡ err e → p.1 ≡ w.officers)
      → IsSettled m u
          (characters_of call, runs_of call)
          w
          (answer lower space faults f u m explain event n w.db p)
  unfolding IsSettled answer reply_audited audited
  answer-IsSettled explain event n call total rejected w (err e, officers) owned same =
      inr (rejected e, ap (λ o. record w { officers = o }) (same e refl))
  answer-IsSettled explain event n call total rejected w (ok tt, officers) owned same =
      let (c, r) = owned refl in
      inl (
        c,
        r,
        elim (Bool-cases f.audit) [
          | inl q ↦ rw q (inr (refl, refl))
          | inr q ↦ rw q (inl (ap accepted total, (event, refl)))
        ],
      )

  perform-IsSettled :
      (explain : OfficerError → OfficerReply) (event : String) (n : ℕ) (call : OfficerCall)
      → n ≡ length (characters_of call) + length (runs_of call)
      → ((e : OfficerError) → IsRejection (explain e))
      → (w : OfficerWorld)
      → IsSettled m u
          (characters_of call, runs_of call)
          w
          (perform lower space faults f u m explain event n call w)
  perform-IsSettled explain event n call total rejected w =
      answer-IsSettled explain event n call total rejected w
        (officer_step lower space faults m.guild.id u.id call w.officers)
        (officer_step-IsOwned lower space faults m.guild.id u.id call w.officers)
        (officer_step_refused lower space faults m.guild.id u.id call w.officers)

  -- Each request of an officer ends in one of three ways: all its targets are the guild's and the
  -- answer is 200 with their number and one event of the audit more; or they are, and the answer is
  -- the 500 of an audit that failed, with no event more; or it is rejected and nothing has changed.
  pub handle_officer-IsSettled :
      (request : OfficerRequest) (w : OfficerWorld)
      → IsSettled m u (targets_of request) w (handle_officer lower space faults f u m request w)
  unfolding handle_officer targets_of officer_bulk_tags officer_complete officer_character
  handle_officer-IsSettled (bulk_tags_request none) w = rejected-IsSettled m u ([], []) w _
  handle_officer-IsSettled (bulk_tags_request (some b)) w =
      elim (Bool-cases (not b.confirm || not (officer_ids b.characters))) [
        | inl q ↦ rw q (rejected-IsSettled m u _ w _)
        | inr q ↦ rw q (
            perform-IsSettled officer_bulk_error _ _ _ (omega arith) officer_bulk_error-IsRejection
              w)
      ]
  handle_officer-IsSettled (complete_request now none) w = rejected-IsSettled m u ([], []) w _
  handle_officer-IsSettled (complete_request now (some c)) w =
      elim (Bool-cases (not c.confirm || not (officer_completion_ids c.characters c.runs))) [
        | inl q ↦ rw q (rejected-IsSettled m u _ w _)
        | inr q ↦
            rw q (perform-IsSettled officer_bulk_error _ _ _ refl officer_bulk_error-IsRejection w)
      ]
  handle_officer-IsSettled (character_request none body) w = rejected-IsSettled m u ([], []) w _
  handle_officer-IsSettled (character_request (some id) none) w = elim (Bool-cases (is_pos id)) [
    | inl q ↦ rw q (rejected-IsSettled m u _ w _)
    | inr q ↦ rw q (rejected-IsSettled m u _ w _)
  ]
  handle_officer-IsSettled (character_request (some id) (some b)) w =
      elim (Bool-cases (is_pos id)) [
        | inl q ↦
            rw q (perform-IsSettled update_error _ _ _ (omega arith) update_error-IsRejection w)
        | inr q ↦ rw q (rejected-IsSettled m u _ w _)
      ]
