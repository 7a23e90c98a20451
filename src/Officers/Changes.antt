-- ===== src/Officers/Changes.antt =====
-- officer.go: BulkTags, Complete and Update, each in one transaction over officer_character_state,
-- officer_sync_run_review and officer_activity.
pub mod Scope
pub mod Limits
use apekeeper.Common.{
  ℕ, ◌+◌, String, Bool, not, ◌&&◌, ◌||◌, ltb, ◌==◌, str_eq, if◌then◌else◌, Option, none, some, List,
  [], ◌∷◌, length, Result, ok, err, ℤ, eqz, ◌>>=◌, ◌>>◌,
}
use apekeeper.Sessions.{Bytes, bytes_eq, is_empty}
use apekeeper.Officers.{
  OfficerError, BulkValidation, invalid_batch, change_required, too_many_tags, bulk_targets,
  note_too_long, invalid_status, character_not_found, database, officer_note_max_length,
  officer_tags_max, officer_batch_max, add_tags, delete_tags, clean_tags, valid_officer_ids,
  owner_of, sort_ids,
}

-- a row of officer_character_state; an empty status stands for NULL
pub record CharacterState : Type 0 where
  pub id : ℤ
  pub note : Bytes
  pub author : Option ℕ
  pub status : String
  pub tags : List Bytes
  pub reviewed : Option ℕ

abbrev pub new_state : ℤ → CharacterState
new_state id = record { id = id; note = []; author = none; status = ""; tags = []; reviewed = none }

-- a row of officer_activity
pub record Activity : Type 0 where
  pub guild_id : ℕ
  pub actor : ℕ
  pub action : String
  pub target : ℤ

-- a row of officer_sync_run_review
pub record RunReview : Type 0 where
  pub run : ℤ
  pub guild_id : ℕ
  pub reviewed : ℕ

pub record OfficerDb : Type 0 where
  -- characters and sync_runs: an id and its guild
  pub characters : List (ℤ × ℕ)
  pub runs : List (ℤ × ℕ)
  pub states : List CharacterState
  pub run_reviews : List RunReview
  pub activity : List Activity

-- Which statements the database refuses.
pub record OfficerFaults : Type 0 where
  pub begin : Bool
  pub characters : Bool
  pub runs : Bool
  pub count : Bool
  pub write : ℤ → Bool
  pub log : ℤ → Bool
  pub run_write : ℤ → Bool
  pub run_log : ℤ → Bool
  pub commit : Bool

-- the row of a character, or the values that a failed Scan leaves
unfoldable pub state_of : ℤ → List CharacterState → CharacterState
state_of id [] = new_state id
state_of id (s ∷ ss) = let found = state_of id ss in if eqz s.id id then s else found

-- INSERT … ON CONFLICT(character_id) DO UPDATE
unfoldable pub upsert_state :
    (CharacterState → CharacterState) → ℤ → List CharacterState → List CharacterState
upsert_state f id [] = f (new_state id) ∷ []
upsert_state f id (s ∷ ss) =
    let rest = upsert_state f id ss in if eqz s.id id then f s ∷ ss else s ∷ rest

-- INSERT … ON CONFLICT(sync_run_id) DO UPDATE SET reviewed_at=now()
unfoldable pub upsert_review : ℕ → ℕ → ℤ → List RunReview → List RunReview
upsert_review guild now id [] = record { run = id; guild_id = guild; reviewed = now } ∷ []
upsert_review guild now id (r ∷ rs) =
    let rest = upsert_review guild now id rs in
    if eqz r.run id then record r { reviewed = now } ∷ rs else r ∷ rest

-- the two statements for one target: the change and the row of the activity log
abbrev pub logged : Bool → ℕ → ℕ → String → ℤ → OfficerDb → Result OfficerError OfficerDb
logged fault guild actor action id db =
    if fault
    then err database
    else ok (record db {
      activity =
          record { guild_id = guild; actor = actor; action = action; target = id } ∷ db.activity;
    })

-- the end of a transaction: the deferred Rollback undoes the work of one that is not committed
abbrev pub transact :
    OfficerFaults
    → OfficerDb
    → Result OfficerError OfficerDb
    → Result OfficerError (Unit {0}) × OfficerDb
transact faults db (err e) = (err e, db)
transact faults db (ok after) = if faults.commit then (err database, db) else (ok tt, after)

-- validateCharacterIDs, with none for a batch that is valid
unfoldable pub validate_characters :
    Bool → ℕ → List (ℤ × ℕ) → List ℤ → Result OfficerError (Option BulkValidation)
validate_characters fault guild rows ids =
    if fault
    then err database
    else let found = sort_ids guild rows ids in
      if length found.0 + length found.1 == 0
      then ok none
      else ok (
          some (record {
            invalid_characters = found.0;
            cross_guild_characters = found.1;
            invalid_runs = [];
            cross_guild_runs = [];
          }))

-- the tags of a character after the change
abbrev pub changed_tags : List Bytes → List Bytes → List Bytes → List Bytes
changed_tags add remove before = delete_tags remove (add_tags add (add_tags before []))

-- one turn of the loop of BulkTags
unfoldable pub change_tags :
    OfficerFaults → ℕ → ℕ → List Bytes → List Bytes → ℤ → OfficerDb → Result OfficerError OfficerDb
change_tags faults guild actor add remove id db =
    let after = changed_tags add remove (state_of id db.states).tags in
    if ltb officer_tags_max (length after)
    then err too_many_tags
    else if faults.write id
    then err database
    else logged (faults.log id) guild actor "bulk_tags" id
        (record db { states = upsert_state (λ s. record s { tags = after }) id db.states })

-- the loop over the batch, which stops at the first error
unfoldable pub each :
    (ℤ → OfficerDb → Result OfficerError OfficerDb)
    → List ℤ
    → OfficerDb
    → Result OfficerError OfficerDb
each f [] db = ok db
each f (id ∷ ids) db = f id db >>= λ after. each f ids after

module _ (lower : ℕ → ℕ) (space : ℕ → Bool) (faults : OfficerFaults) (guild actor : ℕ) where
  -- BulkTags after its checks of the tags
  unfoldable pub tag_batch :
      List ℤ → List Bytes → List Bytes → OfficerDb → Result OfficerError OfficerDb
  unfolding each change_tags validate_characters
  tag_batch ids add remove db =
      if length add == 0 && length remove == 0
      then err change_required
      else if faults.begin
      then err database
      else validate_characters faults.characters guild db.characters ids >>= λ v. elim v [
        | some bad ↦ err (bulk_targets bad)
        | none ↦ each (change_tags faults guild actor add remove) ids db
      ]

  -- BulkTags up to Commit
  unfoldable pub bulk_tags :
      List ℤ → List Bytes → List Bytes → OfficerDb → Result OfficerError OfficerDb
  unfolding tag_batch
  bulk_tags ids add remove db =
      (if not (valid_officer_ids ids)
        then err invalid_batch
        else clean_tags lower space add >>= λ add.
            clean_tags lower space remove >>= λ remove. tag_batch ids add remove db)

  -- the two loops of Complete, at the instant `now`
  unfoldable pub review_character : ℕ → ℤ → OfficerDb → Result OfficerError OfficerDb
  review_character now id db =
      if faults.write id
      then err database
      else logged (faults.log id) guild actor "review_complete" id
          (record db { states = upsert_state (λ s. record s { reviewed = some now }) id db.states })

  unfoldable pub review_run : ℕ → ℤ → OfficerDb → Result OfficerError OfficerDb
  unfolding upsert_review
  review_run now id db =
      if faults.run_write id
      then err database
      else logged (faults.run_log id) guild actor "review_complete" id
          (record db { run_reviews = upsert_review guild now id db.run_reviews })

  -- the batch of Complete is neither empty nor too long, and has valid ids
  unfoldable pub valid_completion : List ℤ → List ℤ → Bool
  valid_completion characters runs = not (
      (length characters == 0 && length runs == 0)
      || ltb officer_batch_max (length characters + length runs)
      || (ltb 0 (length characters) && not (valid_officer_ids characters))
      || (ltb 0 (length runs) && not (valid_officer_ids runs)))

  -- validateSyncRunIDs, and the test of the four lists after it
  unfoldable pub validate_completion : List ℤ → List ℤ → OfficerDb → Result OfficerError (Unit {0})
  validate_completion characters runs db =
      if faults.characters
      then err database
      else if faults.runs
      then err database
      else let c = sort_ids guild db.characters characters in
        let r = sort_ids guild db.runs runs in
        if ltb 0 (length c.0 + length c.1 + length r.0 + length r.1)
        then err (
            bulk_targets (record {
              invalid_characters = c.0;
              cross_guild_characters = c.1;
              invalid_runs = r.0;
              cross_guild_runs = r.1;
            }))
        else ok tt

  -- Complete up to Commit
  unfoldable pub complete_reviews : ℕ → List ℤ → List ℤ → OfficerDb → Result OfficerError OfficerDb
  unfolding each review_character review_run valid_completion validate_completion
  complete_reviews now characters runs db =
      (if not (valid_completion characters runs)
        then err invalid_batch
        else if faults.begin
        then err database
        else validate_completion characters runs db
          >> (each (review_character now) characters db >>= each (review_run now) runs))

  abbrev pub is_lifecycle_status : String → Bool
  is_lifecycle_status s =
      str_eq s "applicant"
      || str_eq s "trial"
      || str_eq s "active"
      || str_eq s "inactive"
      || str_eq s "retired"

  -- the row after the upsert of Update: a changed note has a new author, none for an empty note
  unfoldable pub with_note : Bytes → String → List Bytes → CharacterState → CharacterState
  with_note note status tags s = record s {
    note = note;
    author = if bytes_eq s.note note then s.author else if is_empty note then none else some actor;
    status = status;
    tags = tags;
  }

  -- Update after its checks of the text
  unfoldable pub write_character :
      ℤ → Bytes → String → List Bytes → OfficerDb → Result OfficerError OfficerDb
  unfolding with_note
  write_character id note status tags db =
      if faults.begin || faults.count then err database else elim (owner_of id db.characters) [
        | none ↦ err character_not_found
        | some owner ↦
            if not (owner == guild)
            then err character_not_found
            else if faults.write id
            then err database
            else logged (faults.log id) guild actor "character_update" id
                (record db { states = upsert_state (with_note note status tags) id db.states })
      ]

  -- Update up to Commit
  unfoldable pub update_character :
      ℤ → Bytes → String → List Bytes → OfficerDb → Result OfficerError OfficerDb
  unfolding write_character
  update_character id note status tags db =
      (if ltb officer_note_max_length (length note)
        then err note_too_long
        else if not (str_eq status "") && not (is_lifecycle_status status)
        then err invalid_status
        else clean_tags lower space tags >>= λ tags. write_character id note status tags db)

-- a call of one of the three operations
pub data OfficerCall : Type 0 where
  tags_batch : List ℤ → List Bytes → List Bytes → OfficerCall
  completes : ℕ → List ℤ → List ℤ → OfficerCall
  updates_character : ℤ → Bytes → String → List Bytes → OfficerCall

unfoldable pub officer_work :
    (ℕ → ℕ)
    → (ℕ → Bool)
    → OfficerFaults
    → ℕ
    → ℕ
    → OfficerCall
    → OfficerDb
    → Result OfficerError OfficerDb
officer_work lower space faults guild actor (tags_batch ids add remove) db =
    bulk_tags lower space faults guild actor ids add remove db
officer_work lower space faults guild actor (completes now characters runs) db =
    complete_reviews lower space faults guild actor now characters runs db
officer_work lower space faults guild actor (updates_character id note status tags) db =
    update_character lower space faults guild actor id note status tags db

-- a whole call
unfoldable pub officer_step :
    (ℕ → ℕ)
    → (ℕ → Bool)
    → OfficerFaults
    → ℕ
    → ℕ
    → OfficerCall
    → OfficerDb
    → Result OfficerError (Unit {0}) × OfficerDb
officer_step lower space faults guild actor c db =
    transact faults db (officer_work lower space faults guild actor c db)

-- the characters and the runs that a call names
abbrev pub characters_of : OfficerCall → List ℤ
characters_of (tags_batch ids add remove) = ids
characters_of (completes now characters runs) = characters
characters_of (updates_character id note status tags) = id ∷ []

abbrev pub runs_of : OfficerCall → List ℤ
runs_of (tags_batch ids add remove) = []
runs_of (completes now characters runs) = runs
runs_of (updates_character id note status tags) = []
