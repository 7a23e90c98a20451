-- ===== src/Storage/Keys.antt =====
-- The unique keys of the tables hold after every statement, and so after every sync of a member.
use apekeeper.Storage.{
  upsert_by_guild_identity, database_stores, exec, insert_raids, insert_snapshot, replace_raids,
  update_avatar, upsert_mythic_plus, upsert_mythic_plus_runs, swap_raids, commit,
}
use apekeeper.Storage.Tables.{
  Database, same_identity, refresh_character, same_season, same_raid, upserts_character,
  character_row, same_capture, set_avatar, inserts_snapshot, refresh_mythic, refresh_runs,
  inserts_raid, updates_avatar, Server, mythic_row, raid_row, snapshot_row,
}
use apekeeper.Common.{
  ℕ, ◌≡◌, refl, ◌==◌, any, String, Bool, Option, none, some, List, ◌∷◌, [], ◌++◌, Bool-cases, inl,
  inr, arith, ok, err, Result, Option-cases, subst,
}
use apekeeper.Domain.{Character, Guild, Snapshot}
use apekeeper.Upstream.{ProfileSummary, Client, RosterMember, Expansion}
use apekeeper.Sync.Engine.{MythicRow, RaidRow}
use apekeeper.Sync.Engine.Anchor.{TierAnchor}
use apekeeper.Sync.Engine.Member.{sync_character}
use apekeeper.Sync.Engine.Member.Keeps.{Keeps, sync_character-Keeps}
use apekeeper.Storage.{Database}
use apekeeper.Storage.Swap.{replace_raids-cases, without_raids}
use apekeeper.Storage.Rows.{
  Distinct, KeepsKey, put_by, Distinct-put_by, Distinct-map, Distinct-keep, Distinct-add,
}

-- Each table has at most one row for a key.
pub record IsKeyed (t : Database) : Type 0 where
  pub identities : Distinct same_identity t.characters
  pub seasons : Distinct same_season t.mythic_plus
  pub raid_keys : Distinct same_raid t.raids
  pub captures : Distinct same_capture t.snapshots

module _ (server : Server) where
  upsert-IsKeyed :
      (c : Character) (p : ProfileSummary) (t : Database)
      → IsKeyed t
      → IsKeyed (upsert_by_guild_identity server c p t).1
  unfolding upsert_by_guild_identity refresh_character
  upsert-IsKeyed c p t h = elim (Option-cases (server.refuses (upserts_character c) t)) [
    | inr (e, q) ↦ rw (q, upsert_by_guild_identity) h
    | inl q ↦
        let row = character_row server t.next_character c p in
        rw (q, upsert_by_guild_identity)
          (record {
            identities =
                Distinct-put_by same_identity (refresh_character row) row t.characters
                  (λ x y. (refl, refl)) h.identities;
            seasons = h.seasons;
            raid_keys = h.raid_keys;
            captures = h.captures;
          })
  ]

  exec-IsKeyed :
      (r : Option String) (t u : Database) → IsKeyed t → IsKeyed u → IsKeyed (exec r t u).1
  unfolding exec
  exec-IsKeyed (some e) t u h k = h
  exec-IsKeyed none t u h k = k

  avatar-KeepsKey : (id : ℕ) (url : String) → KeepsKey same_identity (set_avatar id url)
  avatar-KeepsKey id url x y = elim (Bool-cases (x.character.id == id)) [
    | inl e ↦ rw e (refl, refl)
    | inr e ↦ rw e (refl, refl)
  ]

  update_avatar-IsKeyed :
      (id : ℕ) (url : String) (t : Database) → IsKeyed t → IsKeyed (update_avatar server id url t).1
  unfolding update_avatar
  update_avatar-IsKeyed id url t h =
      exec-IsKeyed (server.refuses (updates_avatar id) t) t _ h (record {
        identities =
            Distinct-map same_identity (set_avatar id url) t.characters (avatar-KeepsKey id url)
              h.identities;
        seasons = h.seasons;
        raid_keys = h.raid_keys;
        captures = h.captures;
      })

  put_mythic-IsKeyed :
      (f : MythicRow → MythicRow) (m : MythicRow) (t : Database)
      → KeepsKey same_season f
      → IsKeyed t
      → IsKeyed (record t { mythic_plus = put_by same_season f m t.mythic_plus })
  put_mythic-IsKeyed f m t k h = record {
    identities = h.identities;
    seasons = Distinct-put_by same_season f m t.mythic_plus k h.seasons;
    raid_keys = h.raid_keys;
    captures = h.captures;
  }

  upsert_mythic-IsKeyed :
      (m : MythicRow) (t : Database) → IsKeyed t → IsKeyed (upsert_mythic_plus server m t).1
  unfolding upsert_mythic_plus refresh_mythic mythic_row
  upsert_mythic-IsKeyed m t h = exec-IsKeyed _ t _ h (
      put_mythic-IsKeyed (refresh_mythic (mythic_row server m)) (mythic_row server m) t
        (λ x y. (refl, refl)) h)

  upsert_runs-IsKeyed :
      (m : MythicRow) (t : Database) → IsKeyed t → IsKeyed (upsert_mythic_plus_runs server m t).1
  unfolding upsert_mythic_plus_runs refresh_runs mythic_row
  upsert_runs-IsKeyed m t h = exec-IsKeyed _ t _ h (
      put_mythic-IsKeyed (refresh_runs (mythic_row server m)) (mythic_row server m) t
        (λ x y. (refl, refl)) h)

  with_raids :
      (t : Database) (rs : List RaidRow)
      → IsKeyed t
      → Distinct same_raid rs
      → IsKeyed (record t { raids = rs })
  with_raids t rs h k = record {
    identities = h.identities;
    seasons = h.seasons;
    raid_keys = k;
    captures = h.captures;
  }

  insert_raids-IsKeyed :
      (rs : List RaidRow) (t u : Database) → IsKeyed t → insert_raids server rs t ≡ ok u → IsKeyed u
  unfolding insert_raids raid_row
  insert_raids-IsKeyed [] t u h q = subst (λ r. IsKeyed (keyed_or t r)) q h
    where
      keyed_or : Database → Result String Database → Database
      keyed_or t (ok v) = v
      keyed_or t (err e) = t
  insert_raids-IsKeyed (r ∷ rs) t u h q = elim (Option-cases (server.refuses (inserts_raid r) t)) [
    | inr (e, k) ↦ absurd (ground arith)
    | inl k ↦ elim (Bool-cases (any (λ old. same_raid old r) t.raids)) [
      | inl d ↦ absurd (ground arith)
      | inr d ↦
          insert_raids-IsKeyed rs (record t { raids = t.raids ++ raid_row server r ∷ [] }) u
            (with_raids t (t.raids ++ raid_row server r ∷ []) h
              (Distinct-add same_raid t.raids (raid_row server r) h.raid_keys d))
            (ground arith)
    ]
  ]

  replace_raids-IsKeyed :
      (id : ℕ) (rs : List RaidRow) (t : Database)
      → IsKeyed t
      → IsKeyed (replace_raids server id rs t).1
  unfolding replace_raids swap_raids commit
  replace_raids-IsKeyed id rs t h = elim (replace_raids-cases server id rs t) [
    | inl (e, q) ↦ rw q h
    | inr (u, q, r) ↦ rw q (
        insert_raids-IsKeyed rs (without_raids id t) u
          (with_raids t _ h (Distinct-keep same_raid _ t.raids h.raid_keys)) r)
  ]

  insert_snapshot-IsKeyed :
      (x : Snapshot) (t : Database) → IsKeyed t → IsKeyed (insert_snapshot server x t).1
  unfolding insert_snapshot snapshot_row
  insert_snapshot-IsKeyed x t h = elim (Option-cases (server.refuses (inserts_snapshot x) t)) [
    | inr (e, q) ↦ rw (q, insert_snapshot) h
    | inl q ↦ elim (Bool-cases (any (λ old. same_capture old x) t.snapshots)) [
      | inl d ↦
          rw (q, insert_snapshot, d)
            (record {
              identities = h.identities;
              seasons = h.seasons;
              raid_keys = h.raid_keys;
              captures = h.captures;
            })
      | inr d ↦
          rw (q, insert_snapshot, d)
            (record {
              identities = h.identities;
              seasons = h.seasons;
              raid_keys = h.raid_keys;
              captures =
                  Distinct-add same_capture t.snapshots (snapshot_row server t.next_snapshot x)
                    h.captures d;
            })
    ]
  ]

  database_stores-Keeps : Keeps (database_stores server) IsKeyed
  database_stores-Keeps = record {
    others = record {
      character = upsert-IsKeyed;
      portrait = update_avatar-IsKeyed;
      raids = replace_raids-IsKeyed;
      snapshot = insert_snapshot-IsKeyed;
    };
    mythic = upsert_mythic-IsKeyed;
    runs = upsert_runs-IsKeyed;
  }

  -- Whatever the API answers and whichever statements the database server, the sync of a member
  -- leaves at most one character for a guild, region, realm and name, one mythic+ row for a
  -- character and season, one raid row for a character, raid and difficulty, and one snapshot for a
  -- character and instant, if that held before.
  pub sync_character-IsKeyed :
      (encode : List Expansion → String) (client : Client) (m : RosterMember) (anchor : TierAnchor)
      (now : ℕ) (dry : Bool) (normalize : String → String) (g : Guild) (t : Database)
      → IsKeyed t
      → IsKeyed
          (sync_character (database_stores server) encode client m anchor now dry normalize g t).1
  sync_character-IsKeyed encode client m anchor now dry normalize g t h =
      sync_character-Keeps (database_stores server) IsKeyed database_stores-Keeps encode client m
        anchor now dry normalize g t h
