-- ===== src/Scenarios.antt =====
-- Concrete data on which the theorems are tried: a guild, its users and its records.
mod Runs
mod Rosters
mod Guilds
mod SignIns
mod Requests
mod Batches
mod Tables
mod Lists
mod Daily
mod Operations
use apekeeper.Common.{
  str_eq, eq_iff, false, ◌≡◌, ◌≢◌, arith, ℕ, String, Bool, [], if◌then◌else◌, leb, ◌&&◌, ◌==◌, ◌+◌,
}
use apekeeper.Domain.{Guild, zero_guild, User, GuildMembership}
use apekeeper.Sync.Ledger.{Ledger}

abbrev pub apes : Guild
apes = record zero_guild { id = 1; slug = "apes"; name = "Apes"; realm = "area-52"; region = "us" }

abbrev pub empty_ledger : Ledger
empty_ledger = record { rows = []; next_id = 1 }

abbrev pub user : ℕ → String → User
user id role = record {
  id = id;
  email = "";
  display_name = "Ape";
  battle_tag = "Ape#1";
  role = role;
}

abbrev pub membership : ℕ → String → GuildMembership
membership id role = record { guild = apes; user_id = id; role = role }

-- strings.ToLower and unicode.IsSpace on ASCII
abbrev pub ascii_lower : ℕ → ℕ
ascii_lower c = if leb 65 c && leb c 90 then c + 32 else c

abbrev pub ascii_space : ℕ → Bool
ascii_space c = c == 32

pub apart : (a b : String) → str_eq a b ≡ false → a ≢ b
apart a b n e = ground (arith, (eq_iff a b).1 e)
