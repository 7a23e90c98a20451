-- ===== src/Officers/Changes/Scope.antt =====
-- Whom an officer's call can touch: all or nothing, and only the guild's own characters and runs.
use apekeeper.Common.{
  ℕ, ◌+◌, ◌≡◌, refl, String, Bool, ltb, ◌==◌, some, List, [], ◌∷◌, length, Result, ok, err, ℤ, All,
  arith, Bool-cases, Option-cases, inl, inr, ◌∙◌, ap, Result-cases,
}
use apekeeper.Sessions.{Bytes}
use apekeeper.Officers.{OfficerError, owner_of, sort_ids, clean_tags}
use apekeeper.Officers.Changes.{
  OfficerDb, OfficerFaults, transact, tag_batch, bulk_tags, validate_characters,
  validate_completion, complete_reviews, write_character, update_character, OfficerCall, tags_batch,
  completes, updates_character, officer_step, officer_work, characters_of, runs_of,
}

abbrev pub IsOwned : ℕ → List (ℤ × ℕ) → List ℤ → Type 0
IsOwned guild rows ids = All (λ id. owner_of id rows ≡ some guild) ids

sort_ids-IsOwned :
    (guild : ℕ) (rows : List (ℤ × ℕ)) (ids : List ℤ)
    → length (sort_ids guild rows ids).0 + length (sort_ids guild rows ids).1 ≡ 0
    → IsOwned guild rows ids
unfolding sort_ids
sort_ids-IsOwned guild rows [] h = tt
sort_ids-IsOwned guild rows (id ∷ ids) h = elim (Option-cases (owner_of id rows)) [
  | inl e ↦ absurd (ground arith)
  | inr (owner, e) ↦ elim (Bool-cases (owner == guild)) [
    | inr f ↦ absurd (ground arith)
    | inl f ↦
        let q : owner ≡ guild = ground arith in
        (e ∙ ap some q, sort_ids-IsOwned guild rows ids (ground arith))
  ]
]

transact_refused :
    (faults : OfficerFaults) (db : OfficerDb) (r : Result OfficerError OfficerDb) (e : OfficerError)
    → (transact faults db r).0 ≡ err e
    → (transact faults db r).1 ≡ db
transact_refused faults db (err x) e h = refl
transact_refused faults db (ok after) e h = elim (Bool-cases faults.commit) [
  | inl c ↦ simp c refl
  | inr c ↦ absurd (ground arith)
]

transact_ok :
    (faults : OfficerFaults) (db : OfficerDb) (r : Result OfficerError OfficerDb)
    → (transact faults db r).0 ≡ ok tt
    → (after : OfficerDb) × (r ≡ ok after) × ((transact faults db r).1 ≡ after)
transact_ok faults db (err x) h = absurd (ground arith)
transact_ok faults db (ok after) h = elim (Bool-cases faults.commit) [
  | inl c ↦ absurd (ground arith)
  | inr c ↦ simp c (after, refl, refl)
]

module _ (lower : ℕ → ℕ) (space : ℕ → Bool) (faults : OfficerFaults) (guild actor : ℕ) where
  -- A call that is answered with an error has changed nothing, wherever in its batch it failed.
  pub officer_step_refused :
      (c : OfficerCall) (db : OfficerDb) (e : OfficerError)
      → (officer_step lower space faults guild actor c db).0 ≡ err e
      → (officer_step lower space faults guild actor c db).1 ≡ db
  unfolding officer_step
  officer_step_refused c db e h =
      transact_refused faults db (officer_work lower space faults guild actor c db) e h

  tag_batch-IsOwned :
      (ids : List ℤ) (add remove : List Bytes) (db after : OfficerDb)
      → tag_batch lower space faults guild actor ids add remove db ≡ ok after
      → IsOwned guild db.characters ids
  unfolding tag_batch validate_characters
  tag_batch-IsOwned ids add remove db after h =
      let found = sort_ids guild db.characters ids in
      elim (Bool-cases (length found.0 + length found.1 == 0)) [
        | inl e ↦ sort_ids-IsOwned guild db.characters ids (ground arith)
        | inr e ↦ absurd (ground arith)
      ]

  bulk_tags-IsOwned :
      (ids : List ℤ) (add remove : List Bytes) (db after : OfficerDb)
      → bulk_tags lower space faults guild actor ids add remove db ≡ ok after
      → IsOwned guild db.characters ids
  unfolding bulk_tags
  bulk_tags-IsOwned ids add remove db after h = elim (Result-cases (clean_tags lower space add)) [
    | inr (x, e) ↦ absurd (ground arith)
    | inl (a, e) ↦ elim (Result-cases (clean_tags lower space remove)) [
      | inr (x, f) ↦ absurd (ground arith)
      | inl (r, f) ↦ tag_batch-IsOwned ids a r db after (ground arith)
    ]
  ]

  complete_reviews-IsOwned :
      (now : ℕ) (characters runs : List ℤ) (db after : OfficerDb)
      → complete_reviews lower space faults guild actor now characters runs db ≡ ok after
      → IsOwned guild db.characters characters × IsOwned guild db.runs runs
  unfolding complete_reviews validate_completion
  complete_reviews-IsOwned now characters runs db after h =
      let c = sort_ids guild db.characters characters in
      let r = sort_ids guild db.runs runs in
      elim (Bool-cases (ltb 0 (length c.0 + length c.1 + length r.0 + length r.1))) [
        | inl e ↦ absurd (ground arith)
        | inr e ↦ (
          sort_ids-IsOwned guild db.characters characters (ground arith),
          sort_ids-IsOwned guild db.runs runs (ground arith),
        )
      ]

  update_character-IsOwned :
      (id : ℤ) (note : Bytes) (status : String) (tags : List Bytes) (db after : OfficerDb)
      → update_character lower space faults guild actor id note status tags db ≡ ok after
      → owner_of id db.characters ≡ some guild
  unfolding update_character write_character
  update_character-IsOwned id note status tags db after h =
      elim (Result-cases (clean_tags lower space tags)) [
        | inr (x, e) ↦ absurd (ground arith)
        | inl (a, e) ↦ elim (Option-cases (owner_of id db.characters)) [
          | inl f ↦ absurd (ground arith)
          | inr (owner, f) ↦ elim (Bool-cases (owner == guild)) [
            | inr g ↦ absurd (ground arith)
            | inl g ↦ let q : owner ≡ guild = ground arith in f ∙ ap some q
          ]
        ]
      ]

  officer_work-IsOwned :
      (c : OfficerCall) (db after : OfficerDb)
      → officer_work lower space faults guild actor c db ≡ ok after
      → IsOwned guild db.characters (characters_of c) × IsOwned guild db.runs (runs_of c)
  unfolding officer_work
  officer_work-IsOwned (tags_batch ids add remove) db after h =
      (bulk_tags-IsOwned ids add remove db after h, tt)
  officer_work-IsOwned (completes now characters runs) db after h =
      complete_reviews-IsOwned now characters runs db after h
  officer_work-IsOwned (updates_character id note status tags) db after h =
      ((update_character-IsOwned id note status tags db after h, tt), tt)

  -- A call that succeeds names characters and sync runs of the officer's own guild only: one id
  -- that is missing or of another guild refuses the whole batch.
  pub officer_step-IsOwned :
      (c : OfficerCall) (db : OfficerDb)
      → (officer_step lower space faults guild actor c db).0 ≡ ok tt
      → IsOwned guild db.characters (characters_of c) × IsOwned guild db.runs (runs_of c)
  unfolding officer_step
  officer_step-IsOwned c db h =
      let r = transact_ok faults db (officer_work lower space faults guild actor c db) h in
      officer_work-IsOwned c db r.0 r.1
