-- ===== src/Domain.antt =====
-- backend/internal/domain: the statuses and phases of a sync run, its live progress, and the
-- rules on characters and snapshots. The proofs are in the children.
-- A status or a phase is a Go string: `other` holds any text but the four or five constants, and
-- `other ""` is the zero value.
pub mod Outcomes
pub mod Text
use apekeeper.Common.{
  ℕ, ◌-◌, String, Bool, true, false, not, ◌&&◌, ◌||◌, ltb, ◌==◌, ℤ, ltz, eqz, str_eq, if◌then◌else◌,
}

pub data RunStatus : Type 0 where
  running success partial failed : RunStatus
  other : String → RunStatus

abbrev pub is_running : RunStatus → Bool
is_running running = true
is_running _ = false

abbrev is_final : RunStatus → Bool
is_final success = true
is_final partial = true
is_final failed = true
is_final _ = false

-- sync.go: Transition
unfoldable pub transition : RunStatus → RunStatus → Bool
transition from to = is_running from && is_final to

-- sync.go: Outcome
unfoldable pub outcome : ℕ → ℕ → RunStatus
outcome updated failures =
    if failures == 0 then success else if ltb 0 updated then partial else failed

-- sync.go: CanStart
unfoldable pub can_start : Bool → Bool
can_start in_progress = not in_progress

pub data Phase : Type 0 where
  queued roster tier_anchor characters finalizing : Phase
  other : String → Phase

-- sync.go: CoercePhase
unfoldable pub coerce_phase : Phase → Phase
coerce_phase roster = roster
coerce_phase tier_anchor = tier_anchor
coerce_phase characters = characters
coerce_phase finalizing = finalizing
coerce_phase _ = queued

-- sync.go: Progress; times are instants in nanoseconds, 0 for the zero time.
pub record Progress : Type 0 where
  pub active : Bool
  pub run_id : ℕ
  pub status : RunStatus
  pub phase : Phase
  pub total : ℕ
  pub updated : ℕ
  pub failures : ℕ
  pub started_at : ℕ
  pub dry_run : Bool

abbrev pub zero_progress : Progress
zero_progress = record {
  active = false;
  run_id = 0;
  status = RunStatus.other "";
  phase = Phase.other "";
  total = 0;
  updated = 0;
  failures = 0;
  started_at = 0;
  dry_run = false;
}

abbrev pub current_max_level : ℕ
current_max_level = 70

-- character.go: Character, the fields that the sync writes and the lists read.
pub record Character : Type 0 where
  pub id : ℕ
  pub guild_id : ℕ
  pub name : String
  pub display_name : String
  pub normalized_name : String
  pub realm : String
  pub realm_slug : String
  pub region : String
  pub class_name : String
  pub spec_name : String
  pub class_id : ℤ
  pub spec_id : ℤ
  pub level : ℤ
  pub guild_rank : ℤ
  pub item_level : ℤ
  pub mythic_rating : ℤ
  pub best_key_level : ℤ
  pub race_name : String
  pub gender : String
  pub role : String
  pub synced_at : ℕ

-- character.go: IsStale. `asOf.Sub` is negative where the sync lies in the future, and then below
-- any positive age, as the truncated difference is.
unfoldable pub is_stale : Character → ℕ → ℕ → Bool
is_stale c as_of max_age = c.synced_at == 0 || ltb max_age (as_of - c.synced_at)

-- character.go: ActiveCharacter
unfoldable pub active_character : Character → ℕ → ℕ → Bool
active_character c as_of max_age =
    not (ltz c.level (ℤ.pos current_max_level)) && not (is_stale c as_of max_age)

-- snapshot.go: Snapshot; `raid_progress` is the text of the JSON.
pub record Snapshot : Type 0 where
  pub id : ℕ
  pub character_id : ℕ
  pub captured_at : ℕ
  pub item_level : ℤ
  pub mythic_rating : ℤ
  pub best_key_level : ℤ
  pub raid_progress : String

-- snapshot.go: SnapshotChanged
unfoldable pub snapshot_changed : Snapshot → Snapshot → Bool
snapshot_changed prev next =
    not (eqz prev.item_level next.item_level)
    || not (eqz prev.mythic_rating next.mythic_rating)
    || not (eqz prev.best_key_level next.best_key_level)
    || not (str_eq prev.raid_progress next.raid_progress)

-- guild.go: Guild and GuildMembership
pub record Guild : Type 0 where
  pub id : ℕ
  pub slug : String
  pub name : String
  pub realm : String
  pub region : String
  pub created_at : ℕ
  pub sync_schedule : String
  pub discord_webhook_url : String

abbrev pub zero_guild : Guild
zero_guild = record {
  id = 0;
  slug = "";
  name = "";
  realm = "";
  region = "";
  created_at = 0;
  sync_schedule = "";
  discord_webhook_url = "";
}

pub record GuildMembership : Type 0 where
  pub guild : Guild
  pub user_id : ℕ
  pub role : String

abbrev pub zero_membership : GuildMembership
zero_membership = record { guild = zero_guild; user_id = 0; role = "" }

-- user.go: User
pub record User : Type 0 where
  pub id : ℕ
  pub email : String
  pub display_name : String
  pub battle_tag : String
  pub role : String
