-- ===== src/Officers/Changes/Limits.antt =====
-- The bounds on what the officers' rows hold.
use apekeeper.Common.{
  ℕ, ◌≤◌, ◌≡◌, String, Bool, true, false, ltb, none, some, List, [], ◌∷◌, length, Result, ok, ℤ,
  eqz, All, arith, Bool-cases, Option-cases, inl, inr, subst, Result-cases,
}
use apekeeper.Sessions.{Bytes}
use apekeeper.Officers.{OfficerError, officer_tags_max, owner_of, clean_tags}
use apekeeper.Officers.Tags.{clean_tags-IsTagSet}
use apekeeper.Officers.Changes.{
  upsert_review, OfficerDb, OfficerFaults, CharacterState, new_state, upsert_state, logged, each,
  tag_batch, bulk_tags, change_tags, changed_tags, state_of, review_character, review_run,
  complete_reviews, with_note, write_character, update_character, OfficerCall, tags_batch,
  completes, updates_character, officer_step, officer_work, validate_characters,
}

abbrev pub IsTidy : OfficerDb → Type 0
IsTidy db = All (λ s. length s.tags ≤ officer_tags_max) db.states

upsert_state-All :
    (P : CharacterState → Type 0) (f : CharacterState → CharacterState) (id : ℤ)
    (ss : List CharacterState)
    → ((s : CharacterState) → P s → P (f s))
    → P (new_state id)
    → All P ss
    → All P (upsert_state f id ss)
unfolding upsert_state
upsert_state-All P f id [] k n a = (k (new_state id) n, tt)
upsert_state-All P f id (s ∷ ss) k n (p, a) = elim (Bool-cases (eqz s.id id)) [
  | inl e ↦ rw e (k s p, a)
  | inr e ↦ rw e (p, upsert_state-All P f id ss k n a)
]

each-IsTidy :
    (f : ℤ → OfficerDb → Result OfficerError OfficerDb)
    → ((id : ℤ) (db after : OfficerDb) → f id db ≡ ok after → IsTidy db → IsTidy after)
    → (ids : List ℤ) (db after : OfficerDb) → each f ids db ≡ ok after
    → IsTidy db
    → IsTidy after
unfolding each
each-IsTidy f k [] db after h v = let q : db ≡ after = ground arith in subst IsTidy q v
each-IsTidy f k (id ∷ ids) db after h v = elim (Result-cases (f id db)) [
  | inr (x, e) ↦ absurd (ground arith)
  | inl (next, e) ↦ each-IsTidy f k ids next after (ground arith) (k id db next e v)
]

-- a change of the states, with its row of the log
logged-IsTidy :
    (fault : Bool) (guild actor : ℕ) (action : String) (id : ℤ) (db after : OfficerDb)
    → logged fault guild actor action id db ≡ ok after
    → IsTidy db
    → IsTidy after
logged-IsTidy true guild actor action id db after h v = absurd (ground arith)
logged-IsTidy false guild actor action id db after h v =
    let q : db.states ≡ after.states = ground arith in
    subst (λ x. All (λ s. length s.tags ≤ officer_tags_max) x) q v

module _ (lower : ℕ → ℕ) (space : ℕ → Bool) (faults : OfficerFaults) (guild actor : ℕ) where
  change_tags-IsTidy :
      (add remove : List Bytes) (id : ℤ) (db after : OfficerDb)
      → change_tags faults guild actor add remove id db ≡ ok after
      → IsTidy db
      → IsTidy after
  unfolding change_tags
  change_tags-IsTidy add remove id db after h v =
      let tags = changed_tags add remove (state_of id db.states).tags in
      elim (Bool-cases (ltb officer_tags_max (length tags))) [
        | inl e ↦ absurd (ground arith)
        | inr e ↦ elim (Bool-cases (faults.write id)) [
          | inl f ↦ absurd (ground arith)
          | inr f ↦
              logged-IsTidy (faults.log id) guild actor "bulk_tags" id
                (record db { states = upsert_state (λ s. record s { tags = tags }) id db.states })
                after (ground arith)
                (upsert_state-All _ (λ s. record s { tags = tags }) id db.states
                  (λ s p. ground arith) (omega arith) v)
        ]
      ]

  review_character-IsTidy :
      (now : ℕ) (id : ℤ) (db after : OfficerDb)
      → review_character lower space faults guild actor now id db ≡ ok after
      → IsTidy db
      → IsTidy after
  unfolding review_character
  review_character-IsTidy now id db after h v = elim (Bool-cases (faults.write id)) [
    | inl f ↦ absurd (ground arith)
    | inr f ↦
        logged-IsTidy (faults.log id) guild actor "review_complete" id
          (record db { states = upsert_state (λ s. record s { reviewed = some now }) id db.states })
          after (ground arith)
          (upsert_state-All _ (λ s. record s { reviewed = some now }) id db.states (λ s p. p)
            (omega arith) v)
  ]

  review_run-IsTidy :
      (now : ℕ) (id : ℤ) (db after : OfficerDb)
      → review_run lower space faults guild actor now id db ≡ ok after
      → IsTidy db
      → IsTidy after
  unfolding review_run
  review_run-IsTidy now id db after h v = elim (Bool-cases (faults.run_write id)) [
    | inl f ↦ absurd (ground arith)
    | inr f ↦
        logged-IsTidy (faults.run_log id) guild actor "review_complete" id
          (record db { run_reviews = upsert_review guild now id db.run_reviews }) after
          (ground arith) v
  ]

  tag_batch-IsTidy :
      (ids : List ℤ) (add remove : List Bytes) (db after : OfficerDb)
      → tag_batch lower space faults guild actor ids add remove db ≡ ok after
      → IsTidy db
      → IsTidy after
  unfolding tag_batch
  tag_batch-IsTidy ids add remove db after h v =
      elim (Result-cases (validate_characters faults.characters guild db.characters ids)) [
        | inr (x, e) ↦ absurd (ground arith)
        | inl (none, e) ↦
            each-IsTidy (change_tags faults guild actor add remove) (change_tags-IsTidy add remove)
              ids db after (ground arith) v
        | inl ((some bad), e) ↦ absurd (ground arith)
      ]

  write_character-IsTidy :
      (id : ℤ) (note : Bytes) (status : String) (tags : List Bytes) (db after : OfficerDb)
      → length tags ≤ officer_tags_max
      → write_character lower space faults guild actor id note status tags db ≡ ok after
      → IsTidy db
      → IsTidy after
  unfolding write_character with_note
  write_character-IsTidy id note status tags db after l h v =
      elim (Option-cases (owner_of id db.characters)) [
        | inl e ↦ absurd (ground arith)
        | inr (owner, e) ↦
            logged-IsTidy (faults.log id) guild actor "character_update" id
              (record db {
                states =
                    upsert_state (with_note lower space faults guild actor note status tags) id
                      db.states;
              })
              after (ground arith)
              (upsert_state-All _ (with_note lower space faults guild actor note status tags) id
                db.states (λ s p. l) (omega arith) v)
      ]

  officer_work-IsTidy :
      (c : OfficerCall) (db after : OfficerDb)
      → officer_work lower space faults guild actor c db ≡ ok after
      → IsTidy db
      → IsTidy after
  unfolding officer_work bulk_tags complete_reviews update_character
  officer_work-IsTidy (tags_batch ids add remove) db after h v =
      elim (Result-cases (clean_tags lower space add)) [
        | inr (x, e) ↦ absurd (ground arith)
        | inl (a, e) ↦ elim (Result-cases (clean_tags lower space remove)) [
          | inr (x, f) ↦ absurd (ground arith)
          | inl (r, f) ↦ tag_batch-IsTidy ids a r db after (ground arith) v
        ]
      ]
  officer_work-IsTidy (completes now characters runs) db after h v =
      elim (Result-cases
        (each (review_character lower space faults guild actor now) characters db)) [
          | inr (x, e) ↦ absurd (ground arith)
          | inl (next, e) ↦
              each-IsTidy (review_run lower space faults guild actor now) (review_run-IsTidy now)
                runs next after (ground arith)
                (each-IsTidy (review_character lower space faults guild actor now)
                  (review_character-IsTidy now) characters db next e v)
        ]
  officer_work-IsTidy (updates_character id note status tags) db after h v =
      elim (Result-cases (clean_tags lower space tags)) [
        | inr (x, e) ↦ absurd (ground arith)
        | inl (a, e) ↦
            write_character-IsTidy id note status a db after
              (clean_tags-IsTagSet lower space tags a e).2 (ground arith) v
      ]

  -- No call, whatever its end, leaves a character with more than twenty tags.
  pub officer_step-IsTidy :
      (c : OfficerCall) (db : OfficerDb)
      → IsTidy db
      → IsTidy (officer_step lower space faults guild actor c db).1
  unfolding officer_step
  officer_step-IsTidy c db v =
      elim (Result-cases (officer_work lower space faults guild actor c db)) [
        | inr (x, e) ↦ rw e v
        | inl (after, e) ↦ elim (Bool-cases faults.commit) [
          | inl f ↦ simp (e, f) v
          | inr f ↦ simp (e, f) (officer_work-IsTidy c db after e v)
        ]
      ]
