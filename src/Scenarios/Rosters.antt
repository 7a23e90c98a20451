-- ===== src/Scenarios/Rosters.antt =====
-- The sync of a roster with a concrete client and concrete stores.
use apekeeper.Common.{
  tally, length, Bool, ℕ, ◌≡◌, ◌⊎◌, refl, String, true, false, none, some, List, [], ◌∷◌, ok, err,
  pos, ◌+◌, ◌≤◌, ◌<◌,
}
use apekeeper.Domain.{outcome, partial, Character}
use apekeeper.Upstream.{
  Client, UpstreamError, not_found, failure, RosterMember, ProfileSummary, NameRef, Tier,
  MythicRunEntry, SeasonIndex,
}
use apekeeper.Sync.Ledger.{SyncRun, new_row}
use apekeeper.Sync.Engine.{Stores}
use apekeeper.Sync.Engine.Anchor.{TierAnchor}
use apekeeper.Sync.Engine.Member.{sync_character, zero_character}
use apekeeper.Sync.Engine.Member.DryRun.{sync_character-dry}
use apekeeper.Sync.Engine.Run.{
  PoolEvent, sends, breaks_off, ends, cancels, open_pool, pool_run, run_guild_sync, is_drained,
  select_members, pool_step, worker_count, send, take_at, count_end, put_detail, settle_run,
}
use apekeeper.Sync.Engine.Run.Counts.{IsSound, left_by, open_pool-IsExact}
use apekeeper.Sync.Engine.Run.Verdict.{IsComplete, run_guild_sync-IsComplete}
use apekeeper.Sync.Engine.Run.Ends.{remaining, advances, open_pool-ends}
use apekeeper.Scenarios.{apes, empty_ledger}

abbrev realm : NameRef
realm = record { name = "Area 52"; slug = "area-52" }

abbrev member_named : String → RosterMember
member_named name = record { name = name; realm = realm; rank = pos 2 }

abbrev pub ann : RosterMember
ann = member_named "Ann"

abbrev pub bob : RosterMember
bob = member_named "Bob"

abbrev pub profile : ProfileSummary
profile = record {
  name = "Ann";
  realm = realm;
  level = pos 80;
  spec_id = pos 64;
  spec_name = "Frost";
  class_id = pos 8;
  class_name = "Mage";
  race_name = "Gnome";
  gender_name = "Female";
  equipped_item_level = pos 620;
}

abbrev key_run : MythicRunEntry
key_run = record {
  completed_timestamp = pos 1700;
  keystone_level = pos 12;
  dungeon = "Ara-Kara";
  rating = pos 300;
  completed = true;
}

abbrev tiers : List Tier
tiers =
    record { id = pos 505; name = "Dragonflight" }
    ∷ record { id = pos 514; name = "The War Within" }
    ∷ record { id = pos 600; name = "Current Season" }
    ∷ []

abbrev seasons : SeasonIndex
seasons = record { current_id = pos 14; current_name = "Season 2"; seasons = pos 13 ∷ pos 14 ∷ [] }

-- A client of which the season's request ends with the given error.
abbrev pub client : UpstreamError → Client
client e = record {
  guild_roster = λ r g. ok (ann ∷ bob ∷ []);
  profile = λ r n. ok profile;
  seasonal = λ r n s. err e;
  profile_index = λ r n. ok (key_run ∷ []);
  raids = λ r n. ok [];
  media = λ r n. err (not_found "media");
  season_index = ok seasons;
  expansion_index = ok tiers;
}

-- The database as the names of the statements that were executed.
abbrev stores : Stores (List String)
stores = record {
  upsert_character = λ c p s. (ok (record c { id = 7 }), "character" ∷ s);
  update_avatar = λ id url s. (none, "avatar" ∷ s);
  upsert_mythic_plus = λ row s. (none, "mythic" ∷ s);
  upsert_mythic_plus_runs = λ row s. (none, "runs" ∷ s);
  replace_raids = λ id rows s. (none, "raids" ∷ s);
  last_snapshot = λ id s. ok none;
  insert_snapshot = λ x s. (none, "snapshot" ∷ s);
}

abbrev pub anchor : TierAnchor
anchor = record { season_id = pos 14; season_name = "Season 2"; expansion_id = pos 514 }

abbrev pub character : Character
character = record zero_character { id = 7; name = "Ann" }

abbrev pub gone : UpstreamError
gone = not_found "season"

abbrev pub down : UpstreamError
down = failure "Blizzard HTTP 500"

sync_character-dry_example :
    (sync_character stores (λ x. "{}") (client gone) ann anchor 50 true (λ n. n) apes []).1 ≡ []
sync_character-dry_example =
    sync_character-dry stores (λ x. "{}") (client gone) ann anchor 50 (λ n. n) apes []

-- Ann is updated and Bob fails.
abbrev pool_events : List PoolEvent
pool_events = sends ∷ sends ∷ ends 1 none ∷ ends 0 (some "Blizzard HTTP 500") ∷ []

abbrev summary : ℕ → ℕ → String
summary failures total = "some members failed"

abbrev message : UpstreamError → String
message e = "roster failed"

abbrev run : SyncRun
run = new_row 1 "manual" 100 empty_ledger

abbrev ended : SyncRun
ended = record run {
  status = partial;
  total = 2;
  updated = 1;
  failures = 1;
  error_summary = "some members failed";
  detail = ("Bob", "Blizzard HTTP 500") ∷ [];
}

run_ended :
    run_guild_sync (λ n. n) summary message (client gone) apes 2 run [] false pool_events
    ≡ some ended
unfolding run_guild_sync pool_run pool_step open_pool worker_count send take_at count_end put_detail
    select_members settle_run outcome
run_ended = refl

run_guild_sync-IsComplete_example :
    IsComplete (length (select_members (λ n. n) [] (ann ∷ bob ∷ []))) ended
unfolding pool_run pool_step open_pool worker_count send take_at count_end put_detail select_members
run_guild_sync-IsComplete_example =
    run_guild_sync-IsComplete (λ n. n) summary message (client gone) apes 2 run [] false pool_events
      ended (ann ∷ bob ∷ []) refl refl run_ended

open_pool-IsExact_example :
    let opened = open_pool 2 (ann ∷ bob ∷ []) false in
    let es = sends ∷ cancels ∷ breaks_off ∷ [] in
    let p = pool_run opened es in
    IsSound 2 p
    × (length (left_by opened es) ≡ p.skipped + p.updated + p.failures)
    × ((q : RosterMember → Bool)
        → tally q p.waiting + tally q p.working + tally q (left_by opened es)
          ≡ tally q (ann ∷ bob ∷ []))
open_pool-IsExact_example =
    open_pool-IsExact 2 (ann ∷ bob ∷ []) false (sends ∷ cancels ∷ breaks_off ∷ [])

open_pool-ends_example :
    let p = open_pool 2 (ann ∷ bob ∷ []) false in
    let es = sends ∷ cancels ∷ breaks_off ∷ [] in
    (remaining (pool_run p es) + advances p es ≤ 4)
    × ((is_drained (pool_run p es) ≡ true)
        ⊎ ((e : PoolEvent) × (remaining (pool_step (pool_run p es) e) < remaining (pool_run p es))))
open_pool-ends_example = open_pool-ends 2 (ann ∷ bob ∷ []) false (sends ∷ cancels ∷ breaks_off ∷ [])
