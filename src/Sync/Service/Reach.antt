-- ===== src/Sync/Service/Reach.antt =====
-- What holds of the sync service after any sequence of events.
use apekeeper.Common.{
  ℕ, zero, suc, ◌≡◌, refl, ◌⊎◌, inl, inr, String, Bool, true, false, none, some, List, [], ◌∷◌,
  arith,
}
use apekeeper.Domain.{Phase, Guild, can_start}
use apekeeper.Sync.Ledger.{SyncRun, Ledger, create, new_row}
use apekeeper.Sync.Service.{
  Flight, System, start, report_progress, Event, starts, reports, settles, cancels, shuts_down,
  notified, draws, step, run_events, init,
}

-- No run is in flight.
pub record IsIdle (s : System) : Type 0 where
  pub stopped : s.service.in_progress ≡ false
  pub grounded : s.flights ≡ []
  pub inactive : s.service.progress.active ≡ false
  pub uncancellable : s.service.cancel ≡ none
  pub settled : s.service.done ≡ none

-- Exactly one run is in flight: the service shows it, and holds its context and its channel.
pub record IsBusy (s : System) (f : Flight) : Type 0 where
  pub going : s.service.in_progress ≡ true
  pub flying : s.flights ≡ f ∷ []
  pub active : s.service.progress.active ≡ true
  pub shown : s.service.progress.run_id ≡ f.run.id
  pub cancellable : s.service.cancel ≡ some f.context
  pub awaited : s.service.done ≡ some f.channel

abbrev pub Inv : System → Type 0
Inv s = IsIdle s ⊎ ((f : Flight) × IsBusy s f)

pub init-Inv :
    (guild : Guild) (has_notifier : Bool) (ledger : Ledger) → Inv (init guild has_notifier ledger)
init-Inv guild has_notifier ledger = inl (record {
  stopped = refl;
  grounded = refl;
  inactive = refl;
  uncancellable = refl;
  settled = refl;
})

-- the flight that an admitted start launches
abbrev pub launched : System → String → Bool → ℕ → Flight
launched s trigger dry now = record {
  run = new_row s.service.guild.id trigger now s.ledger;
  context = s.fresh;
  channel = s.fresh;
  dry = dry;
}

start-Inv :
    (s : System) (refused : Bool) (trigger : String) (dry : Bool) (correlation : String) (now : ℕ)
    → Inv s
    → Inv (start s refused trigger dry correlation now).1
unfolding start create can_start
start-Inv s true trigger dry correlation now (inl i) = inl (ground arith)
start-Inv s false trigger dry correlation now (inl i) =
    inr (launched s trigger dry now, ground arith)
start-Inv s refused trigger dry correlation now (inr (f, b)) = inr (f, ground arith)

report_progress-Inv :
    (s : System) (phase : Phase) (updated failures total : ℕ)
    → Inv s
    → Inv (report_progress s phase updated failures total)
unfolding report_progress
report_progress-Inv s phase updated failures total (inl i) = inl (ground arith)
report_progress-Inv s phase updated failures total (inr (f, b)) = inr (f, ground arith)

-- Only the flight at place 0 of a busy service can land, and it leaves the service idle.
settles-Inv : (s : System) (i : ℕ) (r : SyncRun) (now : ℕ) → Inv s → Inv (step s (settles i r now))
unfolding step
settles-Inv s i r now (inl v) = rw (v.grounded, step) (inl v)
settles-Inv s zero r now (inr (f, b)) = inl (ground arith)
settles-Inv s (suc i) r now (inr (f, b)) = inr (f, ground arith)

-- Every event keeps it so.
pub step-Inv : (s : System) (e : Event) → Inv s → Inv (step s e)
unfolding step
step-Inv s (starts refused trigger dry correlation now) v =
    start-Inv s refused trigger dry correlation now v
step-Inv s (reports phase updated failures total) v =
    report_progress-Inv s phase updated failures total v
step-Inv s (settles i r now) v = settles-Inv s i r now v
step-Inv s cancels (inl v) = inl (ground arith)
step-Inv s cancels (inr (f, b)) = inr (f, ground arith)
step-Inv s shuts_down (inl v) = inl (ground arith)
step-Inv s shuts_down (inr (f, b)) = inr (f, ground arith)
step-Inv s (notified run_id status refused) (inl v) = inl (ground arith)
step-Inv s (notified run_id status refused) (inr (f, b)) = inr (f, ground arith)
step-Inv s (draws n) (inl v) = inl (ground arith)
step-Inv s (draws n) (inr (f, b)) = inr (f, ground arith)

run_events_keeps : (s : System) (es : List Event) → Inv s → Inv (run_events s es)
unfolding run_events
run_events_keeps s [] v = v
run_events_keeps s (e ∷ es) v = run_events_keeps (step s e) es (step-Inv s e v)

-- After any sequence of starts, reports, completions, cancellations, shutdowns, notifications and
-- draws of others from the serial of sync_runs, the service is idle with nothing in flight, or busy with exactly one run in flight, whose id its
-- progress shows as active and whose context and channel it holds.
pub run_events-Inv :
    (guild : Guild) (has_notifier : Bool) (ledger : Ledger) (es : List Event)
    → Inv (run_events (init guild has_notifier ledger) es)
run_events-Inv guild has_notifier ledger es =
    run_events_keeps _ es (init-Inv guild has_notifier ledger)
