-- ===== src/Storage/Tables.antt =====
-- The tables of migrations/0001_init.up.sql that a sync writes, their unique keys, and what the
-- clauses ON CONFLICT DO UPDATE of store/characters.go and store/progression.go set.
use apekeeper.Common.{
  ℕ, String, Bool, ◌&&◌, ◌||◌, ltb, ◌==◌, if◌then◌else◌, str_eq, Option, none, some, List, [], ◌∷◌,
  pos, eqz, ℤ,
}
use apekeeper.Domain.{Character, Snapshot}
use apekeeper.Upstream.{ProfileSummary}
use apekeeper.Sync.Engine.{MythicRow, RaidRow}

-- a row of `characters`; the fields of Character that are no columns are zero
pub record CharacterRow : Type 0 where
  pub character : Character
  pub profile : ProfileSummary
  pub avatar_url : String

pub record Database : Type 0 where
  pub characters : List CharacterRow
  pub mythic_plus : List MythicRow
  pub raids : List RaidRow
  pub snapshots : List Snapshot
  -- the next values of the two sequences
  pub next_character : ℕ
  pub next_snapshot : ℕ

pub data Statement : Type 0 where
  upserts_character : Character → Statement
  updates_avatar : ℕ → Statement
  upserts_mythic upserts_runs : MythicRow → Statement
  begins commits : Statement
  deletes_raids : ℕ → Statement
  inserts_raid : RaidRow → Statement
  reads_last : ℕ → Statement
  inserts_snapshot : Snapshot → Statement

-- PostgreSQL: the error of a statement that it refuses, and what the columns keep of a value. A
-- number is rounded to its column's digits, and the text of a jsonb value is the server's own.
pub record Server : Type 0 where
  pub refuses : Statement → Database → Option String
  pub numeric_6_2 : ℤ → ℤ
  pub numeric_8_2 : ℤ → ℤ
  pub jsonb : String → String

abbrev pub duplicate_key : String
duplicate_key = "duplicate key value violates unique constraint"

-- UNIQUE(guild_id,region,realm_slug,normalized_name)
abbrev pub same_identity : CharacterRow → CharacterRow → Bool
same_identity r s =
    r.character.guild_id == s.character.guild_id
    && str_eq r.character.region s.character.region
    && str_eq r.character.realm_slug s.character.realm_slug
    && str_eq r.character.normalized_name s.character.normalized_name

-- UNIQUE(character_id,season_slug)
abbrev pub same_season : MythicRow → MythicRow → Bool
same_season r s = r.character_id == s.character_id && eqz r.season_slug s.season_slug

-- UNIQUE(character_id,raid_slug,difficulty)
abbrev pub same_raid : RaidRow → RaidRow → Bool
same_raid r s =
    r.character_id == s.character_id
    && str_eq r.raid_slug s.raid_slug
    && str_eq r.difficulty s.difficulty

-- UNIQUE(character_id,captured_at)
abbrev pub same_capture : Snapshot → Snapshot → Bool
same_capture r s = r.character_id == s.character_id && r.captured_at == s.captured_at

-- the row of VALUES. raceGenderFromProfile reads the names again from the text of the same answer.
unfoldable pub character_row : Server → ℕ → Character → ProfileSummary → CharacterRow
character_row server id c p = record {
  character = record c {
    id = id;
    item_level = server.numeric_6_2 c.item_level;
    race_name = p.race_name;
    gender = p.gender_name;
    role = "";
    mythic_rating = pos 0;
    best_key_level = pos 0;
  };
  profile = p;
  avatar_url = "";
}

-- ON CONFLICT DO UPDATE SET: the name, the realm and the avatar of the old row stay
unfoldable pub refresh_character : CharacterRow → CharacterRow → CharacterRow
refresh_character new old = record {
  character = record new.character {
    id = old.character.id;
    guild_id = old.character.guild_id;
    name = old.character.name;
    normalized_name = old.character.normalized_name;
    realm = old.character.realm;
    realm_slug = old.character.realm_slug;
    region = old.character.region;
  };
  profile = new.profile;
  avatar_url = old.avatar_url;
}

-- RETURNING id
unfoldable pub returned_id : CharacterRow → List CharacterRow → ℕ
returned_id new [] = new.character.id
returned_id new (r ∷ rs) =
    let rest = returned_id new rs in if same_identity r new then r.character.id else rest

-- the rows of VALUES of the other tables
unfoldable pub mythic_row : Server → MythicRow → MythicRow
mythic_row server m = record m {
  overall_rating = server.numeric_8_2 m.overall_rating;
  best_run_score = server.numeric_8_2 m.best_run_score;
}

unfoldable pub raid_row : Server → RaidRow → RaidRow
raid_row server r = record r { summary = server.jsonb r.summary }

unfoldable pub snapshot_row : Server → ℕ → Snapshot → Snapshot
snapshot_row server id x = record x {
  id = id;
  item_level = server.numeric_6_2 x.item_level;
  mythic_rating = server.numeric_8_2 x.mythic_rating;
  raid_progress = server.jsonb x.raid_progress;
}

-- UpsertMythicPlus: the season's name stays
unfoldable pub refresh_mythic : MythicRow → MythicRow → MythicRow
refresh_mythic new old = record new {
  character_id = old.character_id;
  season = old.season;
  season_slug = old.season_slug;
}

-- UpsertMythicPlusRuns: the rating summary stays
unfoldable pub refresh_runs : MythicRow → MythicRow → MythicRow
refresh_runs new old = record old {
  season = new.season;
  runs = new.runs;
  synced_at = new.synced_at;
}

abbrev pub set_avatar : ℕ → String → CharacterRow → CharacterRow
set_avatar id url r = if r.character.id == id then record r { avatar_url = url } else r

-- ORDER BY captured_at DESC,id DESC
abbrev pub newer : Snapshot → Snapshot → Bool
newer a b = ltb b.captured_at a.captured_at || a.captured_at == b.captured_at && ltb b.id a.id

abbrev pub older : Snapshot → Snapshot → Bool
older a b = newer b a

abbrev pub head : {A : Type 0} → List A → Option A
head [] = none
head (x ∷ xs) = some x
