-- ===== src/Storage.antt =====
-- backend/internal/store/progression.go and the writes of store/characters.go: the tables that a
-- sync writes, as the statements change them. It fills the interface Stores of the engine.
-- Whether the database server a statement, and with which error, is a function of the statement
-- and of the tables. The unique keys of migrations/0001_init.up.sql are checked by the inserts.
pub mod Rows
pub mod Tables
pub mod Keys
pub mod Swap
pub mod Capture
pub mod Series
pub mod Comparison
pub mod Ratings
pub mod Broken
use apekeeper.Common.{
  ℕ, ◌+◌, String, not, ◌==◌, if◌then◌else◌, Option, none, some, List, [], ◌∷◌, ◌++◌, map, keep, any,
  sort_by, Result, ok, err,
}
use apekeeper.Domain.{Character, Snapshot}
use apekeeper.Upstream.{ProfileSummary}
use apekeeper.Sync.Engine.{Stores, MythicRow, RaidRow}
use apekeeper.Storage.Rows.{put_by}
use apekeeper.Storage.Tables.{
  Database, begins, character_row, commits, deletes_raids, duplicate_key, head, inserts_raid,
  inserts_snapshot, newer, reads_last, refresh_character, refresh_mythic, refresh_runs, returned_id,
  same_capture, same_identity, same_raid, same_season, set_avatar, updates_avatar,
  upserts_character, upserts_mythic, upserts_runs, Server, mythic_row, raid_row, snapshot_row,
}

-- a statement that either is refused or changes the tables
unfoldable pub exec : Option String → Database → Database → Option String × Database
exec (some e) before after = (some e, before)
exec none before after = (none, after)

module _ (server : Server) where
  -- characters.go: UpsertByGuildIdentity; a conflict uses up a value of the sequence, too
  unfoldable pub upsert_by_guild_identity :
      Character → ProfileSummary → Database → Result String Character × Database
  unfolding character_row refresh_character returned_id
  upsert_by_guild_identity c p t =
      let row = character_row server t.next_character c p in
      elim (server.refuses (upserts_character c) t) [
        | some e ↦ (err e, t)
        | none ↦ (
          ok (record c { id = returned_id row t.characters }),
          record t {
            characters = put_by same_identity (refresh_character row) row t.characters;
            next_character = t.next_character + 1;
          },
        )
      ]

  -- characters.go: UpdateAvatar
  unfoldable pub update_avatar : ℕ → String → Database → Option String × Database
  unfolding exec
  update_avatar id url t =
      exec (server.refuses (updates_avatar id) t) t
        (record t { characters = map (set_avatar id url) t.characters })

  -- progression.go: UpsertMythicPlus
  unfoldable pub upsert_mythic_plus : MythicRow → Database → Option String × Database
  unfolding exec refresh_mythic mythic_row
  upsert_mythic_plus m t = exec (server.refuses (upserts_mythic m) t) t (record t {
    mythic_plus =
        put_by same_season (refresh_mythic (mythic_row server m)) (mythic_row server m)
          t.mythic_plus;
  })

  -- progression.go: UpsertMythicPlusRuns
  unfoldable pub upsert_mythic_plus_runs : MythicRow → Database → Option String × Database
  unfolding exec refresh_runs mythic_row
  upsert_mythic_plus_runs m t = exec (server.refuses (upserts_runs m) t) t (record t {
    mythic_plus =
        put_by same_season (refresh_runs (mythic_row server m)) (mythic_row server m) t.mythic_plus;
  })

  -- the loop of inserts inside the transaction
  unfoldable pub insert_raids : List RaidRow → Database → Result String Database
  unfolding raid_row
  insert_raids [] t = ok t
  insert_raids (r ∷ rs) t = elim (server.refuses (inserts_raid r) t) [
    | some e ↦ err e
    | none ↦
        if any (λ old. same_raid old r) t.raids
        then err duplicate_key
        else insert_raids rs (record t { raids = t.raids ++ raid_row server r ∷ [] })
  ]

  unfoldable pub swap_raids : ℕ → List RaidRow → Database → Result String Database
  unfolding insert_raids
  swap_raids id raids t = elim (server.refuses (deletes_raids id) t) [
    | some e ↦ err e
    | none ↦
        insert_raids raids (record t { raids = keep (λ r. not (r.character_id == id)) t.raids })
  ]

  -- the deferred Rollback gives back the tables from before the transaction
  unfoldable pub commit : Database → Result String Database → Option String × Database
  commit before (err e) = (some e, before)
  commit before (ok t) = elim (server.refuses commits t) [
    | some e ↦ (some e, before)
    | none ↦ (none, t)
  ]

  -- progression.go: ReplaceRaids
  unfoldable pub replace_raids : ℕ → List RaidRow → Database → Option String × Database
  unfolding swap_raids commit
  replace_raids id raids t = elim (server.refuses begins t) [
    | some e ↦ (some e, t)
    | none ↦ commit t (swap_raids id raids t)
  ]

  -- progression.go: LastSnapshot, with `ok none` for pgx.ErrNoRows
  unfoldable pub last_snapshot : ℕ → Database → Result String (Option Snapshot)
  last_snapshot id t = elim (server.refuses (reads_last id) t) [
    | some e ↦ err e
    | none ↦ ok (head (sort_by newer (keep (λ x. x.character_id == id) t.snapshots)))
  ]

  -- progression.go: InsertSnapshot
  unfoldable pub insert_snapshot : Snapshot → Database → Option String × Database
  unfolding snapshot_row
  insert_snapshot x t = elim (server.refuses (inserts_snapshot x) t) [
    | some e ↦ (some e, t)
    | none ↦
        if any (λ old. same_capture old x) t.snapshots
        then (some duplicate_key, record t { next_snapshot = t.next_snapshot + 1 })
        else (
          none,
          record t {
            snapshots = t.snapshots ++ snapshot_row server t.next_snapshot x ∷ [];
            next_snapshot = t.next_snapshot + 1;
          },
        )
  ]

  abbrev pub database_stores : Stores Database
  database_stores = record {
    upsert_character = upsert_by_guild_identity;
    update_avatar = update_avatar;
    upsert_mythic_plus = upsert_mythic_plus;
    upsert_mythic_plus_runs = upsert_mythic_plus_runs;
    replace_raids = replace_raids;
    last_snapshot = last_snapshot;
    insert_snapshot = insert_snapshot;
  }
