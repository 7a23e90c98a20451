-- ===== src/Scenarios/Batches.antt =====
-- An officer's batch.
use apekeeper.Common.{◌≡◌, refl, false, List, [], ◌∷◌, ok, err, pos, some, true}
use apekeeper.Sessions.{Bytes, bytes_eq}
use apekeeper.Domain.Text.{trim_space, trim_left}
use apekeeper.Officers.{
  bulk_targets, is_tag_name, clean_tags, check_tags, add_tag, all_tag_bytes, valid_officer_ids,
  has_repeat, sort_ids, owner_of, bytes_lt,
}
use apekeeper.Officers.Changes.{
  OfficerDb, OfficerFaults, OfficerCall, tags_batch, completes, officer_step, officer_work,
  bulk_tags, complete_reviews, tag_batch, valid_completion, validate_characters,
  validate_completion, each, review_character, review_run,
}
use apekeeper.Officers.Changes.Scope.{IsOwned, officer_step-IsOwned}
use apekeeper.Officers.Changes.Limits.{IsTidy, officer_step-IsTidy}
use apekeeper.Access.Members.{Faults, audited}
use apekeeper.Officers.Handlers.{
  OfficerWorld, OfficerRequest, complete_request, accepted, handle_officer, officer_complete,
  officer_completion_ids, officer_ids, fresh_ids, answer, reply_audited,
}
use apekeeper.Officers.Handlers.Laws.{IsSettled, targets_of, handle_officer-IsSettled}
use apekeeper.Scenarios.{ascii_lower, ascii_space, user, membership}

abbrev db : OfficerDb
db = record {
  characters = (pos 7, 1) ∷ (pos 8, 1) ∷ (pos 9, 2) ∷ [];
  runs = (pos 3, 1) ∷ [];
  states = [];
  run_reviews = [];
  activity = [];
}

abbrev no_faults : OfficerFaults
no_faults = record {
  begin = false;
  characters = false;
  runs = false;
  count = false;
  write = λ id. false;
  log = λ id. false;
  run_write = λ id. false;
  run_log = λ id. false;
  commit = false;
}

-- the tags Raid and tank
abbrev tags : List Bytes
tags = (116 ∷ 97 ∷ 110 ∷ 107 ∷ []) ∷ (82 ∷ 97 ∷ 105 ∷ 100 ∷ []) ∷ []

abbrev clean : List Bytes
clean = (114 ∷ 97 ∷ 105 ∷ 100 ∷ []) ∷ (116 ∷ 97 ∷ 110 ∷ 107 ∷ []) ∷ []

cleaned : clean_tags ascii_lower ascii_space tags ≡ ok clean
unfolding clean_tags check_tags add_tag is_tag_name all_tag_bytes trim_space trim_left bytes_eq
    bytes_lt
cleaned = refl

abbrev good : OfficerCall
good = completes 50 (pos 7 ∷ pos 8 ∷ []) (pos 3 ∷ [])

-- the character 9 is another guild's
abbrev bad : OfficerCall
bad = tags_batch (pos 7 ∷ pos 9 ∷ []) tags []

completed : (officer_step ascii_lower ascii_space no_faults 1 5 good db).0 ≡ ok tt
unfolding officer_step officer_work complete_reviews valid_completion valid_officer_ids has_repeat
    validate_completion sort_ids owner_of each review_character review_run
completed = refl

officer_step-IsOwned_example :
    IsOwned 1 db.characters (pos 7 ∷ pos 8 ∷ []) × IsOwned 1 db.runs (pos 3 ∷ [])
officer_step-IsOwned_example =
    officer_step-IsOwned ascii_lower ascii_space no_faults 1 5 good db completed

refused :
    (officer_step ascii_lower ascii_space no_faults 1 5 bad db).0
    ≡ err (
        bulk_targets (record {
          invalid_characters = [];
          cross_guild_characters = pos 9 ∷ [];
          invalid_runs = [];
          cross_guild_runs = [];
        }))
unfolding officer_step officer_work bulk_tags tag_batch valid_officer_ids has_repeat
    validate_characters clean_tags check_tags add_tag is_tag_name all_tag_bytes trim_space trim_left
    bytes_eq bytes_lt sort_ids owner_of
refused = refl

officer_step-IsTidy_example : IsTidy (officer_step ascii_lower ascii_space no_faults 1 5 good db).1
officer_step-IsTidy_example = officer_step-IsTidy ascii_lower ascii_space no_faults 1 5 good db tt

abbrev world : OfficerWorld
world = record { officers = db; db = record { rows = []; events = []; identities = [] } }

abbrev no_refusals : Faults
no_refusals = record { find = false; target = false; grant = false; revoke = false; audit = false }

-- the batch of `good` as a request
abbrev request : OfficerRequest
request =
    complete_request 50
      (some (record { characters = pos 7 ∷ pos 8 ∷ []; runs = pos 3 ∷ []; confirm = true }))

replied :
    (handle_officer ascii_lower ascii_space no_faults no_refusals
      (user 5 "member")
      (membership 5 "officer")
      request
      world).0
    ≡ accepted 3
unfolding handle_officer officer_complete officer_completion_ids officer_ids fresh_ids officer_step
    officer_work complete_reviews valid_completion valid_officer_ids has_repeat validate_completion
    sort_ids owner_of each review_character review_run answer reply_audited audited
replied = refl

handle_officer-IsSettled_example :
    IsSettled (membership 5 "officer") (user 5 "member") (targets_of request) world (
      handle_officer ascii_lower ascii_space no_faults no_refusals
        (user 5 "member")
        (membership 5 "officer")
        request
        world)
handle_officer-IsSettled_example =
    handle_officer-IsSettled ascii_lower ascii_space no_faults no_refusals (user 5 "member")
      (membership 5 "officer") request world
