-- ===== src/Officers/Handlers.antt =====
-- httpapi/api.go: officerBulkTags, officerComplete and officerCharacter, over the transactions of
-- store/officer.go. A body is none where decodeOfficerRequest refuses it. The guild is that of the
-- membership in the request's context.
pub mod Laws
use apekeeper.Common.{
  ℕ, ◌+◌, String, Bool, true, false, not, ◌&&◌, ◌||◌, ltb, leb, ◌==◌, if◌then◌else◌, Option, none,
  some, List, [], ◌∷◌, any, length, Result, ok, err, ℤ, eqz, is_pos,
}
use apekeeper.Domain.{User, GuildMembership}
use apekeeper.Access.{Refusal, refusal}
use apekeeper.Access.Members.{Faults, Db, audited}
use apekeeper.Sessions.{Bytes}
use apekeeper.Officers.{OfficerError, BulkValidation, bulk_targets, officer_batch_max}
use apekeeper.Officers.Changes.{
  OfficerDb, OfficerFaults, OfficerCall, tags_batch, completes, updates_character, officer_step,
}

-- the loop of officerIDs, with the keys of the map `seen`
unfoldable pub fresh_ids : List ℤ → List ℤ → Bool
fresh_ids seen [] = true
fresh_ids seen (id ∷ ids) =
    let rest = fresh_ids (id ∷ seen) ids in
    if not (is_pos id) || any (λ s. eqz s id) seen then false else rest

-- officerIDs
unfoldable pub officer_ids : List ℤ → Bool
unfolding fresh_ids
officer_ids ids =
    if length ids == 0 || ltb officer_batch_max (length ids) then false else fresh_ids [] ids

-- officerCompletionIDs
unfoldable pub officer_completion_ids : List ℤ → List ℤ → Bool
unfolding officer_ids
officer_completion_ids characters runs =
    leb (length characters + length runs) officer_batch_max
    && (ltb 0 (length characters) || ltb 0 (length runs))
    && (length characters == 0 || officer_ids characters)
    && (length runs == 0 || officer_ids runs)

pub record BulkTags : Type 0 where
  pub characters : List ℤ
  pub add : List Bytes
  pub remove : List Bytes
  pub confirm : Bool

pub record Completion : Type 0 where
  pub characters : List ℤ
  pub runs : List ℤ
  pub confirm : Bool

pub record CharacterUpdate : Type 0 where
  pub note : Bytes
  pub status : String
  pub tags : List Bytes

-- The answer: 200 with the number of targets (of one, `updated` is true), the 400 that lists the targets that are not valid, or
-- the refusal of `fail`.
pub data OfficerReply : Type 0 where
  accepted : ℕ → OfficerReply
  details : BulkValidation → OfficerReply
  refuses : Refusal → OfficerReply

-- officerBulkError
unfoldable pub officer_bulk_error : OfficerError → OfficerReply
officer_bulk_error (bulk_targets v) = details v
officer_bulk_error _ = refuses (refusal 400 "officer request rejected")

-- an error of Update in officerCharacter
unfoldable pub update_error : OfficerError → OfficerReply
update_error _ = refuses (refusal 400 "officer update rejected")

pub record OfficerWorld : Type 0 where
  pub officers : OfficerDb
  pub db : Db

pub data OfficerRequest : Type 0 where
  bulk_tags_request : Option BulkTags → OfficerRequest
  complete_request : ℕ → Option Completion → OfficerRequest
  character_request : Option ℤ → Option CharacterUpdate → OfficerRequest

module _ (lower : ℕ → ℕ) (space : ℕ → Bool) (faults : OfficerFaults) (f : Faults) (u : User)
    (m : GuildMembership) where
  -- the audit after a change, and the answer
  unfoldable pub reply_audited : ℕ → Result Refusal ℕ × Db → OfficerReply
  reply_audited n (ok status, db) = accepted n
  reply_audited n (err e, db) = refuses e

  -- what each handler does after its call of the store: an error is answered as `explain` says, and
  -- a change is audited as `event`
  unfoldable pub answer :
      (OfficerError → OfficerReply)
      → String
      → ℕ
      → Db
      → Result OfficerError (Unit {0}) × OfficerDb
      → OfficerReply × OfficerWorld
  unfolding reply_audited
  answer explain event n db (err e, officers) = (explain e, record { officers = officers; db = db })
  answer explain event n db (ok done, officers) =
      let audit = audited f u m event 200 db in
      (reply_audited n audit, record { officers = officers; db = audit.1 })

  abbrev pub perform :
      (OfficerError → OfficerReply)
      → String
      → ℕ
      → OfficerCall
      → OfficerWorld
      → OfficerReply × OfficerWorld
  perform explain event n call w =
      answer explain event n w.db (officer_step lower space faults m.guild.id u.id call w.officers)

  -- officerBulkTags
  unfoldable pub officer_bulk_tags : Option BulkTags → OfficerWorld → OfficerReply × OfficerWorld
  unfolding officer_ids answer officer_bulk_error
  officer_bulk_tags none w = (refuses (refusal 400 "invalid confirmed bulk tag request"), w)
  officer_bulk_tags (some b) w =
      if not b.confirm || not (officer_ids b.characters)
      then (refuses (refusal 400 "invalid confirmed bulk tag request"), w)
      else perform officer_bulk_error "officer_bulk_tags" (length b.characters)
          (tags_batch b.characters b.add b.remove) w

  -- officerComplete at the instant `now`
  unfoldable pub officer_complete :
      ℕ → Option Completion → OfficerWorld → OfficerReply × OfficerWorld
  unfolding officer_completion_ids answer officer_bulk_error
  officer_complete now none w = (refuses (refusal 400 "invalid confirmed review request"), w)
  officer_complete now (some c) w =
      if not c.confirm || not (officer_completion_ids c.characters c.runs)
      then (refuses (refusal 400 "invalid confirmed review request"), w)
      else perform officer_bulk_error "officer_complete" (length c.characters + length c.runs)
          (completes now c.characters c.runs) w

  -- officerCharacter, with the id of the path where it is a number of 64 bits
  unfoldable pub officer_character :
      Option ℤ → Option CharacterUpdate → OfficerWorld → OfficerReply × OfficerWorld
  unfolding answer update_error
  officer_character none body w = (refuses (refusal 400 "invalid character id"), w)
  officer_character (some id) body w =
      if not (is_pos id) then (refuses (refusal 400 "invalid character id"), w) else elim body [
        | none ↦ (refuses (refusal 400 "invalid officer character request"), w)
        | some b ↦
            perform update_error "officer_character_update" 1
              (updates_character id b.note b.status b.tags) w
      ]

  -- one of the three requests
  unfoldable pub handle_officer : OfficerRequest → OfficerWorld → OfficerReply × OfficerWorld
  handle_officer (bulk_tags_request body) w = officer_bulk_tags body w
  handle_officer (complete_request now body) w = officer_complete now body w
  handle_officer (character_request id body) w = officer_character id body w
