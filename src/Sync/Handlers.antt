-- ===== src/Sync/Handlers.antt =====
-- The sync handlers of httpapi/api.go, triggerSync, dryRun, retrySync and cancelSync with
-- operationResult, over one service a guild, as ScopedTrigger and ScopedOperations of
-- cmd/apekeeper/main.go find it. Each service has the rows of sync_runs that are its guild's; the
-- serial of the table and the Metrics that main.go makes once are shared by all of them. The guild is
-- that of the membership that the middleware put into the request's context.
pub mod Laws
use apekeeper.Common.{
  ℕ, String, Bool, true, false, ◌==◌, if◌then◌else◌, Option, none, some, List, [], ◌∷◌, ℤ, Result,
  ok, err,
}
use apekeeper.Domain.{User, GuildMembership}
use apekeeper.Access.{Refusal}
use apekeeper.Access.Members.{Faults, Db, audited, path_id}
use apekeeper.Sync.Ledger.{SyncRun}
use apekeeper.Sync.Service.{
  Metrics, System, ServiceError, already_running, retry_unavailable, start, cancel, retry_names,
}

-- The end of a request: a status with the run that the answer names, if any, or a panic, after which
-- net/http drops the connection.
pub data Response : Type 0 where
  responds : ℕ → Option ℕ → Response
  panics : Response

-- what all services share: the counters, and the serial of sync_runs
pub record Shared : Type 0 where
  pub metrics : Metrics
  pub next_id : ℕ

abbrev pub shared_of : System → Shared
shared_of s = record { metrics = s.service.metrics; next_id = s.ledger.next_id }

-- a service with what is shared as it stands
abbrev pub load : Shared → System → System
load sh s = record s {
  service = record s.service { metrics = sh.metrics };
  ledger = record s.ledger { next_id = sh.next_id };
}

-- The services, without a meaning of the shared parts in them.
pub record World : Type 0 where
  pub services : List (ℕ × System)
  pub shared : Shared
  pub db : Db

-- the map `services`
unfoldable pub service_of : ℕ → List (ℕ × System) → Option System
service_of g [] = none
service_of g ((i, s) ∷ rest) = if i == g then some s else service_of g rest

unfoldable pub put_service : ℕ → System → List (ℕ × System) → List (ℕ × System)
put_service g t [] = []
put_service g t ((i, s) ∷ rest) =
    let others = put_service g t rest in if i == g then (i, t) ∷ rest else (i, s) ∷ others

abbrev pub loaded : Shared → Option System → Option System
loaded sh none = none
loaded sh (some s) = some (load sh s)

-- the service of a guild as it stands
unfoldable pub guild_service : ℕ → World → Option System
unfolding service_of
guild_service g w = loaded w.shared (service_of g w.services)

-- the world after an operation of a guild's service
abbrev pub put_back : ℕ → System → World → World
put_back g t w = record w { services = put_service g t w.services; shared = shared_of t }

-- The interface SyncOperations: nil, or with a dynamic type *Service whose pointer may be nil.
pub data Operations : Type 0 where
  nil_interface : Operations
  service_pointer : Option System → Operations

-- ScopedOperations: `return services[g.ID]` puts the pointer into the interface, nil or not
unfoldable pub scoped_operations : ℕ → World → Operations
unfolding guild_service
scoped_operations g w = service_pointer (guild_service g w)

-- what an error of a start is answered with
abbrev pub error_status : ServiceError → ℕ
error_status already_running = 409
error_status retry_unavailable = 409
error_status _ = 500

abbrev pub status_after : ℕ → Option ℕ → Result Refusal ℕ × Db → Response
status_after status run (ok n, t) = responds status run
status_after status run (err e, t) = responds e.status none

module _ (lower : String → String) (f : Faults) (u : User) (m : GuildMembership) (refused : Bool)
    (correlation : String) (now : ℕ) where
  -- the answer of a manual start: 202 is written before the audit, which can not change it any more
  unfoldable pub trigger_result : Result ServiceError SyncRun × System → World → Response × World
  unfolding audited
  trigger_result (err e, t) w =
      (responds (if is_running_error e then 409 else 500) none, put_back m.guild.id t w)
    where
      is_running_error : ServiceError → Bool
      is_running_error already_running = true
      is_running_error _ = false
  trigger_result (ok run, t) w = (
    responds 202 (some run.id),
    record (put_back m.guild.id t w) { db = (audited f u m "sync_trigger" 202 w.db).1 },
  )

  -- operationResult
  unfoldable pub operation_result :
      String → Result ServiceError SyncRun × System → World → Response × World
  unfolding audited
  operation_result event (err e, t) w = (responds (error_status e) none, put_back m.guild.id t w)
  operation_result event (ok run, t) w =
      let audit = audited f u m event 202 w.db in
      (status_after 202 (some run.id) audit, record (put_back m.guild.id t w) { db = audit.1 })

  -- triggerSync with ScopedTrigger
  unfoldable pub trigger_sync : World → Response × World
  unfolding trigger_result guild_service
  trigger_sync w = elim (guild_service m.guild.id w) [
    | none ↦ (responds 500 none, w)
    | some s ↦ trigger_result (start s refused "manual" false correlation now) w
  ]

  -- the test `operations == nil`, and a call of a method, which panics on a nil *Service
  abbrev pub call_operations :
      (System → World → Response × World) → World → Operations → Response × World
  call_operations method w nil_interface = (responds 503 none, w)
  call_operations method w (service_pointer none) = (panics, w)
  call_operations method w (service_pointer (some s)) = method s w

  -- dryRun with ScopedOperations
  unfoldable pub dry_run : World → Response × World
  unfolding operation_result scoped_operations
  dry_run w =
      call_operations
        (λ s. operation_result "sync_dry_run" (start s refused "dry-run" true correlation now)) w
        (scoped_operations m.guild.id w)

  -- StartRetry: the read of the source run, and the start
  unfoldable pub start_retry : ℕ → System → Result ServiceError SyncRun × System
  start_retry id s = elim (retry_names lower s refused id) [
    | err e ↦ (err e, s)
    | ok names ↦ start s refused "retry" false correlation now
  ]

  -- retrySync
  unfoldable pub retry_sync : Option ℤ → World → Response × World
  unfolding operation_result start_retry scoped_operations
  retry_sync path w = elim (scoped_operations m.guild.id w) [
    | nil_interface ↦ (responds 503 none, w)
    | service_pointer p ↦ elim (path_id path) [
      | none ↦ (responds 400 none, w)
      | some id ↦
          call_operations (λ s. operation_result "sync_retry" (start_retry id s)) w
            (service_pointer p)
    ]
  ]

  unfoldable pub cancel_result : Option ServiceError × System → World → Response × World
  unfolding audited
  cancel_result (some e, t) w = (responds 409 none, w)
  cancel_result (none, t) w =
      let audit = audited f u m "sync_cancel" 202 w.db in
      (status_after 202 none audit, record (put_back m.guild.id t w) { db = audit.1 })

  -- cancelSync
  unfoldable pub cancel_sync : World → Response × World
  unfolding cancel_result scoped_operations
  cancel_sync w = call_operations (λ s. cancel_result (cancel s)) w (scoped_operations m.guild.id w)

pub data SyncRequest : Type 0 where
  triggers dry_runs cancels_run : SyncRequest
  retries : Option ℤ → SyncRequest

-- the handler of a request
unfoldable pub handle_sync :
    (String → String)
    → Faults
    → User
    → GuildMembership
    → Bool
    → String
    → ℕ
    → SyncRequest
    → World
    → Response × World
unfolding trigger_sync dry_run cancel_sync retry_sync
handle_sync lower f u m refused correlation now triggers =
    trigger_sync lower f u m refused correlation now
handle_sync lower f u m refused correlation now dry_runs =
    dry_run lower f u m refused correlation now
handle_sync lower f u m refused correlation now cancels_run =
    cancel_sync lower f u m refused correlation now
handle_sync lower f u m refused correlation now (retries path) =
    retry_sync lower f u m refused correlation now path
