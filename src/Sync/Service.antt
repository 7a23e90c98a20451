-- ===== src/Sync/Service.antt =====
-- backend/internal/sync/service.go, as one state machine: the service behind its mutex, the ledger,
-- the runs that a goroutine is carrying out, the cancelled contexts and the closed channels.
-- Contexts and `done` channels are numbered as they are made. Each event is one critical section of
-- the mutex together with the atomic counter updates that follow it.
pub mod Reach
pub mod Slot
pub mod Counters
pub mod Laws
use apekeeper.Common.{
  zero, suc, ℕ, ◌+◌, ◌-◌, ◌%◌, ◌^◌, String, Bool, true, false, not, ◌&&◌, ◌||◌, ◌==◌, ltb,
  if◌then◌else◌, Option, none, some, List, [], ◌∷◌, ◌++◌, map, any, Result, ok, err, ◌≡◌,
}
use apekeeper.Domain.{
  RunStatus, running, failed, is_running, can_start, Phase, queued, finalizing, coerce_phase,
  Progress, zero_progress, Guild,
}
use apekeeper.Sync.Ledger.{SyncRun, Ledger, zero_run, create, set_notify_status, by_id}

-- metrics.go: Metrics, whose counters are uint64
pub record Metrics : Type 0 where
  pub started : ℕ
  pub completed : ℕ
  pub errors : ℕ
  pub duration_nanos : ℕ

abbrev pub u64 : ℕ → ℕ
u64 n = n % 2 ^ 64

-- Service. `cancel` is the context that the installed CancelFunc cancels.
pub record Service : Type 0 where
  pub guild : Guild
  pub has_notifier : Bool
  pub in_progress : Bool
  pub started : ℕ
  pub last : SyncRun
  pub progress : Progress
  pub cancel : Option ℕ
  pub done : Option ℕ
  pub notify_wg : ℕ
  pub stopping : Bool
  pub correlation_id : String
  pub metrics : Metrics

-- what the goroutine of an admitted run holds
pub record Flight : Type 0 where
  pub run : SyncRun
  pub context : ℕ
  pub channel : ℕ
  pub dry : Bool

pub record System : Type 0 where
  pub service : Service
  pub ledger : Ledger
  pub flights : List Flight
  pub cancelled : List ℕ
  pub closed : List ℕ
  pub fresh : ℕ

pub data ServiceError : Type 0 where
  already_running create_failed retry_unavailable not_running : ServiceError

abbrev queued_progress : SyncRun → ℕ → Progress
queued_progress r now = record zero_progress {
  active = true;
  run_id = r.id;
  status = running;
  phase = queued;
  started_at = now;
}

abbrev admitted : System → SyncRun → Ledger → String → ℕ → System
admitted s r ledger correlation now = record s {
  service = record s.service {
    in_progress = true;
    cancel = some s.fresh;
    done = some s.fresh;
    started = now;
    correlation_id = correlation;
    progress = queued_progress r now;
    metrics = record s.service.metrics { started = u64 (s.service.metrics.started + 1) };
  };
  ledger = ledger;
  fresh = s.fresh + 1;
}

-- begin; `refused` says that the INSERT fails. A run comes with its context.
unfoldable pub begin :
    System → Bool → String → String → ℕ → Result ServiceError (SyncRun × ℕ) × System
begin s refused trigger correlation now =
    if not (can_start s.service.in_progress)
    then (err already_running, s)
    else (let (made, ledger) = create refused s.service.guild.id trigger now s.ledger in
        elim made [
          | none ↦ (
            err create_failed,
            record s {
              service = record s.service { in_progress = false; progress = zero_progress };
            },
          )
          | some r ↦ (ok (r, s.fresh), admitted s r ledger correlation now)
        ])

-- The start of a run: begin, the DryRun flag of startAsync, and the goroutine that is launched.
-- Start, which runs the engine on the caller's goroutine, is the same with `dry` false.
unfoldable pub start :
    System → Bool → String → Bool → String → ℕ → Result ServiceError SyncRun × System
unfolding begin
start s refused trigger dry correlation now =
    let (r, t) = begin s refused trigger correlation now in
    elim r [
      | err e ↦ (err e, t)
      | ok (run, context) ↦ (
        ok run,
        record t {
          service = record t.service { progress = record t.service.progress { dry_run = dry } };
          flights =
              record { run = run; context = context; channel = context; dry = dry } ∷ t.flights;
        },
      )
    ]

-- ReportProgress
unfoldable pub report_progress : System → Phase → ℕ → ℕ → ℕ → System
report_progress s phase updated failures total = if not s.service.in_progress then s else record s {
  service = record s.service {
    progress = record s.service.progress {
      phase = coerce_phase phase;
      updated = updated;
      failures = failures;
      total = total;
    };
  };
}

abbrev option_to_list {ℓ} : {A : Type ℓ} → Option A → List A
option_to_list none = []
option_to_list (some a) = a ∷ []

abbrev is_failed : RunStatus → Bool
is_failed failed = true
is_failed _ = false

abbrev counts_as_error : SyncRun → Bool
counts_as_error r = ltb 0 r.failures || is_failed r.status

-- complete
unfoldable pub complete : System → SyncRun → ℕ → System
complete s r now = record s {
  service = record s.service {
    in_progress = false;
    cancel = none;
    done = none;
    last = r;
    notify_wg = if s.service.has_notifier then s.service.notify_wg + 1 else s.service.notify_wg;
    progress = record s.service.progress {
      active = false;
      status = r.status;
      phase = finalizing;
      updated = r.updated;
      failures = r.failures;
      total = r.total;
    };
    metrics = record s.service.metrics {
      completed = u64 (s.service.metrics.completed + 1);
      errors =
          if counts_as_error r
          then u64 (s.service.metrics.errors + 1)
          else s.service.metrics.errors;
      duration_nanos = u64 (s.service.metrics.duration_nanos + u64 (now - s.service.started));
    };
  };
  closed = option_to_list s.service.done ++ s.closed;
}

-- recordNotification: the outcome is written, best effort, and the wait group released
unfoldable pub record_notification : System → ℕ → String → Bool → System
record_notification s run_id status refused = record s {
  service = record s.service { notify_wg = s.service.notify_wg - 1 };
  ledger = set_notify_status refused run_id status s.ledger;
}

-- Cancel
unfoldable pub cancel : System → Option ServiceError × System
cancel s = elim s.service.cancel [
  | none ↦ (some not_running, s)
  | some context ↦
      if not s.service.in_progress
      then (some not_running, s)
      else (none, record s { cancelled = context ∷ s.cancelled })
]

-- Shutdown, up to the waits: it returns the channel that the first wait is on.
unfoldable pub shutdown : System → Option ℕ × System
shutdown s = (
  s.service.done,
  record s {
    service = record s.service { stopping = true };
    cancelled = option_to_list s.service.cancel ++ s.cancelled;
  },
)

-- Both waits of Shutdown are over: the channel is closed and the wait group at zero.
unfoldable pub is_drained : System → Option ℕ → Bool
is_drained s none = s.service.notify_wg == 0
is_drained s (some channel) = any (λ c. c == channel) s.closed && s.service.notify_wg == 0

-- The end of Shutdown, for a context that has expired or not: it returns nil after both waits, or the
-- context's error in either of them. Where both can be, its select takes any.
pub data ShutdownEnd (s : System) (channel : Option ℕ) (expired : Bool) : Bool → Type 0 where
  returns_nil : is_drained s channel ≡ true → ShutdownEnd s channel expired true
  returns_error : expired ≡ true → ShutdownEnd s channel expired false

-- NotificationHealthy
unfoldable pub notification_healthy : System → Bool
notification_healthy s = not s.service.stopping

-- StartRetry up to its call of startAsync: the lower-cased names of the characters that failed in
-- the source run. `lower` is strings.ToLower.
unfoldable pub retry_names :
    (String → String) → System → Bool → ℕ → Result ServiceError (List String)
retry_names lower s refused source_id = elim (by_id refused s.service.guild.id source_id s.ledger) [
  | none ↦ err retry_unavailable
  | some source ↦
      if is_running source.status || source.failures == 0
      then err retry_unavailable
      else elim source.detail [
        | [] ↦ err retry_unavailable
        | (n, e) ∷ rest ↦ ok (lower n ∷ map (λ p. lower p.0) rest)
      ]
]

-- One event of the system. A run settles with the record that the engine returns.
pub data Event : Type 0 where
  starts : Bool → String → Bool → String → ℕ → Event
  reports : Phase → ℕ → ℕ → ℕ → Event
  settles : ℕ → SyncRun → ℕ → Event
  cancels : Event
  shuts_down : Event
  notified : ℕ → String → Bool → Event
  -- another INSERT into sync_runs, of another guild or one that is refused, takes numbers of the
  -- serial
  draws : ℕ → Event

-- The goroutine of the flight at a place in the list ends: its run is completed.
unfoldable pub land : ℕ → List Flight → Option (List Flight)
land i [] = none
land zero (f ∷ fs) = some fs
land (suc i) (f ∷ fs) = elim (land i fs) [ none ↦ none | some rest ↦ some (f ∷ rest) ]

unfoldable pub step : System → Event → System
unfolding start report_progress complete cancel shutdown record_notification land
step s (starts refused trigger dry correlation now) =
    (start s refused trigger dry correlation now).1
step s (reports phase updated failures total) = report_progress s phase updated failures total
step s (settles i r now) = elim (land i s.flights) [
  | none ↦ s
  | some rest ↦ complete (record s { flights = rest }) r now
]
step s cancels = (cancel s).1
step s shuts_down = (shutdown s).1
step s (notified run_id status refused) = record_notification s run_id status refused
step s (draws n) = record s { ledger = record s.ledger { next_id = s.ledger.next_id + n } }

unfoldable pub run_events : System → List Event → System
run_events s [] = s
run_events s (e ∷ es) = run_events (step s e) es

-- the service as main.go makes it
abbrev pub init : Guild → Bool → Ledger → System
init guild has_notifier ledger = record {
  service = record {
    guild = guild;
    has_notifier = has_notifier;
    in_progress = false;
    started = 0;
    last = zero_run;
    progress = zero_progress;
    cancel = none;
    done = none;
    notify_wg = 0;
    stopping = false;
    correlation_id = "";
    metrics = record { started = 0; completed = 0; errors = 0; duration_nanos = 0 };
  };
  ledger = ledger;
  flights = [];
  cancelled = [];
  closed = [];
  fresh = 0;
}
