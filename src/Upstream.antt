-- ===== src/Upstream.antt =====
-- backend/internal/blizzard: the shapes of dto/dto.go that the sync reads, and the client's
-- interface. A client answers each request with a value or an error; what the network does is the
-- choice of the client.
pub mod Retry
pub mod Limiter
use apekeeper.Common.{String, Bool, true, false, List, Result, ℤ}

-- dto.go: Name
pub record NameRef : Type 0 where
  pub name : String
  pub slug : String

pub record RosterMember : Type 0 where
  pub name : String
  pub realm : NameRef
  pub rank : ℤ

pub record ProfileSummary : Type 0 where
  pub name : String
  pub realm : NameRef
  pub level : ℤ
  pub spec_id : ℤ
  pub spec_name : String
  pub class_id : ℤ
  pub class_name : String
  pub race_name : String
  pub gender_name : String
  pub equipped_item_level : ℤ

pub record MythicRunEntry : Type 0 where
  pub completed_timestamp : ℤ
  pub keystone_level : ℤ
  pub dungeon : String
  pub rating : ℤ
  pub completed : Bool

pub record SeasonProfile : Type 0 where
  pub rating : ℤ
  pub best_runs : List MythicRunEntry

pub record SeasonIndex : Type 0 where
  pub current_id : ℤ
  pub current_name : String
  pub seasons : List ℤ

pub record Tier : Type 0 where
  pub id : ℤ
  pub name : String

pub record Mode : Type 0 where
  pub difficulty : String
  pub completed_count : ℤ
  pub total_count : ℤ

pub record Instance : Type 0 where
  pub ref : NameRef
  pub modes : List Mode

pub record Expansion : Type 0 where
  pub id : ℤ
  pub instances : List Instance

pub record MediaAsset : Type 0 where
  pub key : String
  pub value : String

-- client.go: NotFoundError, and any other error by its message
pub data UpstreamError : Type 0 where
  not_found : String → UpstreamError
  failure : String → UpstreamError

-- engine.go: isNotFound
unfoldable pub is_not_found : UpstreamError → Bool
is_not_found (not_found url) = true
is_not_found (failure message) = false

abbrev pub Answer : Type 0 → Type 0
Answer A = Result UpstreamError A

-- client.go: BlizzardClient, the calls that the sync makes. A character is named by realm and name.
pub record Client : Type 0 where
  pub guild_roster : String → String → Answer (List RosterMember)
  pub profile : String → String → Answer ProfileSummary
  pub seasonal : String → String → ℤ → Answer SeasonProfile
  pub profile_index : String → String → Answer (List MythicRunEntry)
  pub raids : String → String → Answer (List Expansion)
  pub media : String → String → Answer (List MediaAsset)
  pub season_index : Answer SeasonIndex
  pub expansion_index : Answer (List Tier)
