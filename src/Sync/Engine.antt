-- ===== src/Sync/Engine.antt =====
-- backend/internal/sync/engine.go and snapshots.go: what one character's sync fetches and writes.
-- The client and the stores are interfaces; `S` is the state of the database behind the stores.
pub mod Anchor
pub mod Mythic
pub mod Member
pub mod Run
use apekeeper.Common.{ℕ, String, Bool, true, false, Option, none, some, List, ℤ, Result, ok, err}
use apekeeper.Domain.{Character, Snapshot, snapshot_changed}
use apekeeper.Upstream.{UpstreamError, ProfileSummary}

-- mythicplus.go: MythicRun
pub record MythicRun : Type 0 where
  pub dungeon : String
  pub level : ℤ
  pub score : ℤ
  pub timed : Bool
  pub completed_at : ℤ

-- mythicplus.go: MythicPlus. `season_slug` is the season's number; `runs` is none where the code
-- leaves the pointer nil.
pub record MythicRow : Type 0 where
  pub character_id : ℕ
  pub season : String
  pub season_slug : ℤ
  pub overall_rating : ℤ
  pub best_run_score : ℤ
  pub best_key_level : ℤ
  pub runs : Option (List MythicRun × List MythicRun)
  pub synced_at : ℕ

-- raid.go: RaidProgression
pub record RaidRow : Type 0 where
  pub character_id : ℕ
  pub raid_slug : String
  pub raid_name : String
  pub difficulty : String
  pub progress : ℤ
  pub total_bosses : ℤ
  pub summary : String
  pub synced_at : ℕ

pub data SyncError : Type 0 where
  upstream : UpstreamError → SyncError
  stored : String → SyncError

-- The statements of store/characters.go and store/progression.go that a sync executes: each returns
-- its error, if any, and the database after it.
pub record Stores (S : Type 0) : Type 0 where
  pub upsert_character : Character → ProfileSummary → S → Result String Character × S
  pub update_avatar : ℕ → String → S → Option String × S
  pub upsert_mythic_plus : MythicRow → S → Option String × S
  pub upsert_mythic_plus_runs : MythicRow → S → Option String × S
  pub replace_raids : ℕ → List RaidRow → S → Option String × S
  -- the last snapshot, or none for pgx.ErrNoRows
  pub last_snapshot : ℕ → S → Result String (Option Snapshot)
  pub insert_snapshot : Snapshot → S → Option String × S

abbrev pub store_error : Option String → Option SyncError
store_error none = none
store_error (some e) = some (stored e)

-- `if progressionErr == nil { progressionErr = err }`
abbrev pub first_error : Option SyncError → Option SyncError → Option SyncError
first_error none e = e
first_error (some e) later = some e

-- `if err != nil { progressionErr = err }`
abbrev pub last_error : Option SyncError → Option SyncError → Option SyncError
last_error e none = e
last_error e (some later) = some later

module _ {S : Type 0} (stores : Stores S) where
  -- snapshots.go: capture
  unfoldable pub capture : Snapshot → S → Option SyncError × S
  capture next s = elim (stores.last_snapshot next.character_id s) [
    | err e ↦ (some (stored e), s)
    | ok none ↦ (store_error (stores.insert_snapshot next s).0, (stores.insert_snapshot next s).1)
    | ok (some prev) ↦ elim (snapshot_changed prev next) [
      | true ↦ (store_error (stores.insert_snapshot next s).0, (stores.insert_snapshot next s).1)
      | false ↦ (none, s)
    ]
  ]
