-- ===== src/Sync/Ledger.antt =====
-- backend/internal/store/syncruns.go: the table sync_runs. Statements that the database refuses are
-- Booleans of the caller; `next_id` is the next number
-- of the table's serial.
use apekeeper.Common.{
  ℕ, ◌+◌, String, Bool, true, false, ◌&&◌, ◌==◌, if◌then◌else◌, Option, none, some, List, [], ◌∷◌,
}
use apekeeper.Domain.{RunStatus, running}

-- SyncRun. `detail` is the JSON object from character to error, [] for a null or empty object.
pub record SyncRun : Type 0 where
  pub id : ℕ
  pub guild_id : ℕ
  pub started_at : ℕ
  pub finished_at : Option ℕ
  pub trigger : String
  pub status : RunStatus
  pub total : ℕ
  pub updated : ℕ
  pub failures : ℕ
  pub error_summary : String
  pub detail : List (String × String)
  pub notify_status : Option String

abbrev pub zero_run : SyncRun
zero_run = record {
  id = 0;
  guild_id = 0;
  started_at = 0;
  finished_at = none;
  trigger = "";
  status = RunStatus.other "";
  total = 0;
  updated = 0;
  failures = 0;
  error_summary = "";
  detail = [];
  notify_status = none;
}

-- the rows of one guild, and the serial that all guilds draw from
pub record Ledger : Type 0 where
  pub rows : List SyncRun
  pub next_id : ℕ

-- the row that an INSERT makes
abbrev pub new_row : ℕ → String → ℕ → Ledger → SyncRun
new_row guild_id trigger now l = record zero_run {
  id = l.next_id;
  guild_id = guild_id;
  started_at = now;
  trigger = trigger;
  status = running;
}

-- Create; the number that a refused INSERT may take from the serial is not given back, and is a draw
-- of its own
unfoldable pub create : Bool → ℕ → String → ℕ → Ledger → Option SyncRun × Ledger
create true guild_id trigger now l = (none, l)
create false guild_id trigger now l =
    let row = new_row guild_id trigger now l in
    (some row, record l { rows = row ∷ l.rows; next_id = l.next_id + 1 })

-- a WHERE id=$1 update
unfoldable pub update_row : ℕ → (SyncRun → SyncRun) → List SyncRun → List SyncRun
update_row id change [] = []
update_row id change (r ∷ rs) = (if r.id == id then change r else r) ∷ update_row id change rs

-- Finish, at the time `now`; true where the statement is refused
unfoldable pub finish : Bool → SyncRun → ℕ → Ledger → Bool × Ledger
finish true r now l = (true, l)
finish false r now l = (
  false,
  record l {
    rows =
        update_row r.id
          (λ row. record row {
            finished_at = some now;
            status = r.status;
            total = r.total;
            updated = r.updated;
            failures = r.failures;
            error_summary = r.error_summary;
            detail = r.detail;
          })
          l.rows;
  },
)

-- SetNotifyStatus
unfoldable pub set_notify_status : Bool → ℕ → String → Ledger → Ledger
set_notify_status true id status l = l
set_notify_status false id status l = record l {
  rows = update_row id (λ row. record row { notify_status = some status }) l.rows;
}

unfoldable pub find_row : ℕ → ℕ → List SyncRun → Option SyncRun
find_row guild_id id [] = none
find_row guild_id id (r ∷ rs) =
    if r.guild_id == guild_id && r.id == id then some r else find_row guild_id id rs

-- ByID; `none` is the error of a query without rows, too
unfoldable pub by_id : Bool → ℕ → ℕ → Ledger → Option SyncRun
by_id fails guild_id id l = if fails then none else find_row guild_id id l.rows
