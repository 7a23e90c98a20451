-- ===== src/Scenarios/Tables.antt =====
-- The tables of a sync on a concrete server, whose jsonb puts a space after a colon.
use Prim.Native.Nat.{min}
use apekeeper.Common.{
  ◌≢◌, tally, Bool, ◌+◌, ℕ, ◌≡◌, ◌⊎◌, refl, String, true, false, not, ◌==◌, if◌then◌else◌, str_eq,
  none, some, [], ◌∷◌, ◌++◌, map, keep, drop, length, All, IsSorted, pos, ok,
}
use apekeeper.Domain.{Snapshot}
use apekeeper.Upstream.{is_not_found}
use apekeeper.Sync.Engine.{MythicRow, RaidRow, capture, store_error}
use apekeeper.Sync.Engine.Member.{sync_character}
use apekeeper.Storage.{database_stores, replace_raids, insert_snapshot}
use apekeeper.Storage.Tables.{Database, Server, character_row, raid_row, snapshot_row, newer, older}
use apekeeper.Storage.Swap.{replace_raids_atomic}
use apekeeper.Storage.Capture.{last_of, is_stable, capture_again}
use apekeeper.Storage.Series.{matching, history, in_history, in_range, history-IsWindow}
use apekeeper.Scenarios.{apes}
use apekeeper.Access.Members.{path_id}
use apekeeper.Access.History.{
  parse_history_query, parse_date, is_bad_range, parse_selection, parse_limit, parse_id,
  is_bad_pair,
}
use apekeeper.Storage.Broken.{sync_character_broken}
use apekeeper.Storage.Comparison.{
  HistoryView, character_history, compare_snapshots, last_with, last_two,
}
use apekeeper.Storage.Comparison.Compared.{IsAnswered, character_history-IsCompared}
use apekeeper.Scenarios.Rosters.{down, ann, client, anchor, character, profile}

abbrev compact : String
compact = "{\"expansions\":[]}"

abbrev spaced : String
spaced = "{\"expansions\": []}"

abbrev jsonb : String → String
jsonb s = if str_eq s compact then spaced else s

abbrev server : Server
server = record { refuses = λ q t. none; numeric_6_2 = λ v. v; numeric_8_2 = λ v. v; jsonb = jsonb }

abbrev pub snapshot_at : ℕ → Snapshot
snapshot_at now = record {
  id = 0;
  character_id = 7;
  captured_at = now;
  item_level = pos 620;
  mythic_rating = pos 2400;
  best_key_level = pos 12;
  raid_progress = compact;
}

abbrev rated : MythicRow
rated = record {
  character_id = 7;
  season = "Season 2";
  season_slug = pos 14;
  overall_rating = pos 2400;
  best_run_score = pos 300;
  best_key_level = pos 12;
  runs = none;
  synced_at = 10;
}

abbrev pub raid : RaidRow
raid = record {
  character_id = 7;
  raid_slug = "palace";
  raid_name = "Palace";
  difficulty = "HEROIC";
  progress = pos 8;
  total_bosses = pos 8;
  summary = compact;
  synced_at = 10;
}

abbrev tables : Database
tables = record {
  characters = character_row server 7 (record character { guild_id = 1 }) profile ∷ [];
  mythic_plus = rated ∷ [];
  raids = raid ∷ [];
  snapshots = snapshot_row server 3 (snapshot_at 20) ∷ [];
  next_character = 8;
  next_snapshot = 4;
}

sync_character_broken_example :
    let ((c, problem), after) =
      sync_character
        (database_stores server)
        (λ x. compact)
        (client down)
        ann
        anchor
        50
        false
        (λ n. n)
        apes
        tables in
    (after.mythic_plus ≡ tables.mythic_plus) × (problem ≢ none)
unfolding is_not_found
sync_character_broken_example =
    sync_character_broken server (λ x. compact) (client down) ann anchor 50 false (λ n. n) apes
      tables down refl refl refl

replace_raids_atomic_example :
    ((e : String) × (replace_raids server 7 (raid ∷ raid ∷ []) tables ≡ (some e, tables)))
    ⊎ (replace_raids server 7 (raid ∷ raid ∷ []) tables ≡ (
      none,
      record tables {
        raids =
            keep (λ r. not (r.character_id == 7)) (raid ∷ [])
            ++ map (raid_row server) (raid ∷ raid ∷ []);
      },
    ))
replace_raids_atomic_example = replace_raids_atomic server 7 (raid ∷ raid ∷ []) tables

-- the same values an hour later: the text of the jsonb value differs
capture_again_example : capture (database_stores server) (snapshot_at 30) tables ≡ (
    if is_stable server (snapshot_at 30) then (none, tables) else (
      store_error (insert_snapshot server (snapshot_at 30) tables).0,
      (insert_snapshot server (snapshot_at 30) tables).1,
    ))
unfolding last_of snapshot_row
capture_again_example = capture_again server (snapshot_at 30) 3 20 tables refl refl

unstable_test : is_stable server (snapshot_at 30) ≡ false
unfolding is_stable
unstable_test = refl

history-IsWindow_example :
    let h = history 1 7 0 90 5 tables in
    let left_out = drop 5 (in_history 1 7 0 90 tables) in
    IsSorted older h
    × (length h ≡ min 5 (length (matching 1 7 0 90 tables)))
    × All (λ x. in_range 1 7 0 90 tables.characters x ≡ true) h
    × All (λ d. All (λ k. newer d k ≡ false) h) left_out
    × ((q : Snapshot → Bool) → tally q h + tally q left_out ≡ tally q (matching 1 7 0 90 tables))
history-IsWindow_example = history-IsWindow 1 7 0 90 5 tables

abbrev twice : Database
twice = record tables { snapshots = snapshot_row server 4 (snapshot_at 30) ∷ tables.snapshots }

-- a request without parameters
abbrev view : HistoryView
view = record {
  query = record { from = 0; to = 100; limit = 200; left = 0; right = 0 };
  retention_days = 90;
  snapshots = snapshot_row server 3 (snapshot_at 20) ∷ snapshot_row server 4 (snapshot_at 30) ∷ [];
  comparison =
      some (snapshot_row server 3 (snapshot_at 20), snapshot_row server 4 (snapshot_at 30));
}

viewed :
    character_history
      (λ e. "invalid")
      false
      0
      1
      (some (pos 7))
      (parse_history_query (λ v. none) (λ v. none) (λ k. "") 100)
      twice
    ≡ ok view
unfolding character_history parse_history_query parse_date is_bad_range parse_selection parse_limit
    parse_id is_bad_pair history compare_snapshots last_with last_two snapshot_row path_id
    character_row
viewed = refl

character_history-IsCompared_example :
    IsAnswered (λ v. none) (λ v. none) (λ k. "") 100 1 (some (pos 7)) twice view
character_history-IsCompared_example =
    character_history-IsCompared (λ e. "invalid") false 0 1 (some (pos 7)) (λ v. none) (λ v. none)
      (λ k. "") 100 twice view viewed
