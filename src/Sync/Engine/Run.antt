-- ===== src/Sync/Engine/Run.antt =====
-- engine.go: RunGuildSyncWithOptions, the sync of a whole roster by a pool of workers.
-- The dispatch loop, the workers and a cancellation from outside are the events of a state machine;
-- what a member's sync ends with is given with the event that ends it.
pub mod Counts
pub mod Verdict
pub mod Ends
use apekeeper.Common.{
  zero, suc, ℕ, ◌+◌, String, Bool, true, ◌&&◌, ◌==◌, ltb, if◌then◌else◌, Option, none, some, List,
  [], ◌∷◌, any, keep, length, str_eq, ok, err,
}
use apekeeper.Domain.{failed, outcome, Guild}
use apekeeper.Upstream.{RosterMember, Client, UpstreamError}
use apekeeper.Sync.Ledger.{SyncRun}

-- `opt.Names[strings.ToLower(m.Character.Name)]`, applied only where names are given
unfoldable pub select_members :
    (String → String) → List String → List RosterMember → List RosterMember
select_members lower [] members = members
select_members lower (n ∷ names) members =
    keep (λ m. any (λ x. str_eq x (lower m.name)) (n ∷ names)) members

-- `if workers <= 0 { workers = 8 }`, with 0 for a value that is not positive
unfoldable pub worker_count : ℕ → ℕ
worker_count zero = 8
worker_count (suc n) = suc n

-- the map `details`: a later error of the same name replaces an earlier one
unfoldable pub put_detail : String → String → List (String × String) → List (String × String)
put_detail name e [] = (name, e) ∷ []
put_detail name e ((n, f) ∷ rest) =
    if str_eq n name then (name, e) ∷ rest else (n, f) ∷ put_detail name e rest

-- The pool between two steps. `waiting` is what the dispatch loop has not sent, `working` what the
-- workers hold, `skipped` the members released by the loop after it broke off.
pub record Pool : Type 0 where
  pub workers : ℕ
  pub waiting : List RosterMember
  pub working : List RosterMember
  pub skipped : ℕ
  pub updated : ℕ
  pub failures : ℕ
  pub details : List (String × String)
  pub cancelled : Bool

unfoldable pub open_pool : ℕ → List RosterMember → Bool → Pool
unfolding worker_count
open_pool workers members cancelled = record {
  workers = worker_count workers;
  waiting = members;
  working = [];
  skipped = 0;
  updated = 0;
  failures = 0;
  details = [];
  cancelled = cancelled;
}

pub data PoolEvent : Type 0 where
  -- `jobs <- m`: a free worker takes the next member
  sends : PoolEvent
  -- `<-ctx.Done()`: the loop breaks off and releases what it has not sent
  breaks_off : PoolEvent
  -- the worker at a place in the list ends with an error, or without one
  ends : ℕ → Option String → PoolEvent
  -- the context is cancelled
  cancels : PoolEvent

unfoldable pub take_at : ℕ → List RosterMember → Option (RosterMember × List RosterMember)
take_at i [] = none
take_at zero (m ∷ ms) = some (m, ms)
take_at (suc i) (m ∷ ms) = elim (take_at i ms) [ none ↦ none | some (x, rest) ↦ some (x, m ∷ rest) ]

-- the critical section of a worker
unfoldable pub count_end : RosterMember → Option String → Pool → Pool
count_end m none p = record p { updated = p.updated + 1 }
count_end m (some e) p = record p {
  failures = p.failures + 1;
  details = put_detail m.name e p.details;
}

unfoldable pub send : List RosterMember → Pool → Pool
send [] p = p
send (m ∷ ms) p =
    if ltb (length p.working) p.workers
    then record p { waiting = ms; working = m ∷ p.working }
    else p

unfoldable pub pool_step : Pool → PoolEvent → Pool
unfolding send take_at count_end
pool_step p sends = send p.waiting p
pool_step p breaks_off =
    if p.cancelled then record p { waiting = []; skipped = p.skipped + length p.waiting } else p
pool_step p (ends i e) = elim (take_at i p.working) [
  | none ↦ p
  | some (m, rest) ↦ count_end m e (record p { working = rest })
]
pool_step p cancels = record p { cancelled = true }

unfoldable pub pool_run : Pool → List PoolEvent → Pool
pool_run p [] = p
pool_run p (e ∷ es) = pool_run (pool_step p e) es

-- the dispatch loop has ended, and wg.Wait returns
abbrev pub is_drained : Pool → Bool
is_drained p = length p.waiting == 0 && length p.working == 0

-- from the end of the pool to the record that is stored; `summary` is the text of Sprintf
unfoldable pub settle_run : (ℕ → ℕ → String) → SyncRun → ℕ → Pool → SyncRun
settle_run summary run total p =
    let counted = record run { total = total; updated = p.updated; failures = p.failures } in
    if p.cancelled
    then record counted { status = failed; error_summary = "sync cancelled" }
    else if ltb 0 p.failures
    then record counted {
      status = outcome p.updated p.failures;
      error_summary = summary p.failures total;
      detail = p.details;
    }
    else record counted { status = outcome p.updated p.failures }

-- the failure of the roster request; `message` is its text
unfoldable pub roster_failed : SyncRun → Bool → String → SyncRun
roster_failed run cancelled message = record run {
  status = failed;
  error_summary = if cancelled then "sync cancelled" else message;
}

-- RunGuildSyncWithOptions up to the write of the record (finish), with the events that happen while
-- the pool is open: none where these leave it open, so that the function has not returned.
unfoldable pub run_guild_sync :
    (String → String)
    → (ℕ → ℕ → String)
    → (UpstreamError → String)
    → Client
    → Guild
    → ℕ
    → SyncRun
    → List String
    → Bool
    → List PoolEvent
    → Option SyncRun
unfolding settle_run roster_failed open_pool select_members
run_guild_sync lower summary message client g workers run names cancelled events =
    elim (client.guild_roster g.realm g.name) [
      | err e ↦ some (roster_failed run cancelled (message e))
      | ok all ↦
          let members = select_members lower names all in
          let p = pool_run (open_pool workers members cancelled) events in
          if is_drained p then some (settle_run summary run (length members) p) else none
    ]
