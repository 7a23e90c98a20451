-- ===== src/Sync/Engine/Mythic.antt =====
-- engine.go: the mythic+ part of syncCharacter.
pub mod Order
pub mod Writes
use apekeeper.Common.{
  ℕ, String, Bool, true, false, not, if◌then◌else◌, Option, none, some, List, [], ◌∷◌, map, ℤ, pos,
  ltz, eqz, is_pos, Result, ok, err,
}
use apekeeper.Domain.{Character}
use apekeeper.Upstream.{
  Client, UpstreamError, is_not_found, Answer, MythicRunEntry, SeasonProfile, RosterMember,
}
use apekeeper.Sync.Engine.{
  MythicRun, MythicRow, Stores, SyncError, upstream, store_error, first_error, last_error,
}
use apekeeper.Sync.Engine.Anchor.{TierAnchor, season_display_name}

unfoldable pub mythic_run : MythicRunEntry → MythicRun
mythic_run r = record {
  dungeon = r.dungeon;
  level = r.keystone_level;
  score = r.rating;
  timed = r.completed;
  completed_at = r.completed_timestamp;
}

-- the two orders given to sort.Slice
unfoldable pub better : MythicRun → MythicRun → Bool
better a b = if not (eqz a.score b.score) then ltz b.score a.score else ltz b.level a.level

unfoldable pub newer : MythicRun → MythicRun → Bool
newer a b =
    if not (eqz a.completed_at b.completed_at)
    then ltz b.completed_at a.completed_at
    else ltz b.level a.level

-- sort.Slice, as an insertion sort: which order it gives to runs that tie is not specified.
unfoldable pub insert_run :
    (MythicRun → MythicRun → Bool) → MythicRun → List MythicRun → List MythicRun
insert_run less x [] = x ∷ []
insert_run less x (y ∷ ys) =
    let rest = insert_run less x ys in if less y x then y ∷ rest else x ∷ y ∷ ys

unfoldable pub sort_runs : (MythicRun → MythicRun → Bool) → List MythicRun → List MythicRun
unfolding insert_run
sort_runs less [] = []
sort_runs less (x ∷ xs) = insert_run less x (sort_runs less xs)

-- `best` and `bestScore`, from the values that they start with
unfoldable pub best_level : ℤ → List MythicRunEntry → ℤ
best_level b [] = b
best_level b (r ∷ rs) = best_level (if ltz b r.keystone_level then r.keystone_level else b) rs

unfoldable pub best_score : ℤ → List MythicRunEntry → ℤ
best_score b [] = b
best_score b (r ∷ rs) = best_score (if ltz b r.rating then r.rating else b) rs

-- the three ways in which the season's request ends
pub data SeasonFetch : Type 0 where
  found : SeasonProfile → SeasonFetch
  missing : SeasonFetch
  broken : SyncError → SeasonFetch

unfoldable pub season_fetch : Answer SeasonProfile → SeasonFetch
season_fetch (ok p) = found p
season_fetch (err e) = if is_not_found e then missing else broken (upstream e)

abbrev pub season_error : SeasonFetch → Option SyncError
season_error (found p) = none
season_error missing = none
season_error (broken e) = some e

-- the current period's runs, and the error of the index's request unless it is a 404
unfoldable pub recent_runs : Answer (List MythicRunEntry) → List MythicRun
unfolding mythic_run sort_runs newer
recent_runs (ok rs) = sort_runs newer (map mythic_run rs)
recent_runs (err e) = []

unfoldable pub index_error {ℓ} : {A : Type ℓ} → Result UpstreamError A → Option SyncError
index_error (ok rs) = none
index_error (err e) = if is_not_found e then none else some (upstream e)

-- `&domain.MythicRuns{…}`, nil where both lists are empty
abbrev some_runs : List MythicRun → List MythicRun → Option (List MythicRun × List MythicRun)
some_runs [] [] = none
some_runs best recent = some (best, recent)

-- What the rest of syncCharacter needs of this part.
pub record MythicResult : Type 0 where
  pub rating : ℤ
  pub best : ℤ
  pub problem : Option SyncError

abbrev unrated : Option SyncError → MythicResult
unrated problem = record { rating = pos 0; best = pos 0; problem = problem }

-- a write that a dry run leaves out
abbrev pub unless_dry : {S : Type 0} → Bool → (S → Option String × S) → S → Option String × S
unless_dry true write s = (none, s)
unless_dry false write s = write s

module _ (c : Character) (anchor : TierAnchor) (now : ℕ) where
  unfoldable pub found_row : SeasonProfile → List MythicRun → MythicRow
  unfolding mythic_run sort_runs better best_level best_score
  found_row p recent = record {
    character_id = c.id;
    season = season_display_name anchor.season_name;
    season_slug = anchor.season_id;
    overall_rating = p.rating;
    best_run_score = best_score (pos 0) p.best_runs;
    best_key_level = best_level (pos 0) p.best_runs;
    runs = some_runs (sort_runs better (map mythic_run p.best_runs)) recent;
    synced_at = now;
  }

  unfoldable pub missing_row : List MythicRun → MythicRow
  missing_row recent = record {
    character_id = c.id;
    season = season_display_name anchor.season_name;
    season_slug = anchor.season_id;
    overall_rating = pos 0;
    best_run_score = pos 0;
    best_key_level = pos 0;
    runs = some_runs [] recent;
    synced_at = now;
  }

module _ {S : Type 0} (stores : Stores S) (c : Character) (anchor : TierAnchor) (now : ℕ)
    (dry : Bool) where
  -- the last lines of the part: which row is written, and the error of the statement
  unfoldable pub write_mythic :
      SeasonFetch → List MythicRun → Option SyncError → S → MythicResult × S
  write_mythic (found p) recent problem s =
      let (e, t) = unless_dry dry (stores.upsert_mythic_plus (found_row c anchor now p recent)) s in
      (
        record {
          rating = p.rating;
          best = best_level (pos 0) p.best_runs;
          problem = last_error problem (store_error e);
        },
        t,
      )
  write_mythic missing [] problem s = (unrated problem, s)
  write_mythic missing (r ∷ rs) problem s =
      let (e, t) =
        unless_dry dry (stores.upsert_mythic_plus_runs (missing_row c anchor now (r ∷ rs))) s in
      (unrated (last_error problem (store_error e)), t)
  write_mythic (broken b) recent problem s = (unrated problem, s)

  unfoldable pub sync_mythic : Client → RosterMember → S → MythicResult × S
  unfolding write_mythic season_fetch recent_runs index_error
  sync_mythic client m s =
      if not (is_pos anchor.season_id)
      then (unrated none, s)
      else (let season = season_fetch (client.seasonal m.realm.slug m.name anchor.season_id) in
          let index = client.profile_index m.realm.slug m.name in
          write_mythic season (recent_runs index)
            (first_error (season_error season) (index_error index)) s)
