-- ===== src/Scenarios/Runs.antt =====
-- Runs of the sync service.
use apekeeper.Common.{
  Bool, ◌<◌, ◌≡◌, refl, true, false, ◌==◌, any, none, List, [], ◌∷◌, length, ok, err, ◌⊎◌, inr,
}
use apekeeper.Domain.{can_start, success, characters}
use apekeeper.Sync.Ledger.{create, SyncRun, new_row}
use apekeeper.Sync.Service.{
  System, Flight, Event, starts, reports, settles, cancels, run_events, init, start, begin, step,
  complete, land, record_notification, shutdown, ShutdownEnd, draws, notified, already_running,
  create_failed,
}
use apekeeper.Sync.Service.Reach.{Inv, IsBusy, launched, run_events-Inv}
use apekeeper.Sync.Service.Slot.{view, slot_run, run_events-slot_run}
use apekeeper.Sync.Service.Laws.{start_admission, wound_up, shutdown_drains}
use apekeeper.Scenarios.{apes, empty_ledger}

abbrev finished : SyncRun
finished = record (new_row 1 "manual" 100 empty_ledger) { status = success; total = 3; updated = 3 }

-- a run that is reported on, refused a second time and cancelled
abbrev busy_events : List Event
busy_events =
    starts false "manual" false "c1" 100
    ∷ reports characters 1 0 3
    ∷ starts false "schedule" false "c2" 110
    ∷ draws 4
    ∷ cancels
    ∷ []

-- the run settles and its notification is recorded
abbrev idle_events : List Event
idle_events =
    starts false "manual" false "c1" 100 ∷ settles 0 finished 130 ∷ notified 1 "sent" false ∷ []

abbrev fresh : System
fresh = init apes true empty_ledger

abbrev busy : System
busy = (start fresh false "manual" false "c1" 100).1

abbrev flight : Flight
flight = launched fresh "manual" false 100

busy-IsBusy : IsBusy busy flight
unfolding start begin can_start create
busy-IsBusy = record {
  going = refl;
  flying = refl;
  active = refl;
  shown = refl;
  cancellable = refl;
  awaited = refl;
}

run_events-Inv_example : Inv (run_events (init apes true empty_ledger) busy_events)
run_events-Inv_example = run_events-Inv apes true empty_ledger busy_events

start_admission_example :
    let (r, t) = start busy false "schedule" false "c2" 110 in
    ((0 < length busy.flights) × (r ≡ err already_running) × (t ≡ busy))
    ⊎ ((busy.flights ≡ [])
        × (false ≡ true)
        × (r ≡ err create_failed)
        × (t.flights ≡ [])
        × (t.service.in_progress ≡ false)
        × (t.ledger ≡ busy.ledger))
    ⊎ ((busy.flights ≡ [])
        × (false ≡ false)
        × (r ≡ ok (launched busy "schedule" false 110).run)
        × (t.flights ≡ launched busy "schedule" false 110 ∷ [])
        × (t.service.progress.dry_run ≡ false))
start_admission_example =
    start_admission busy false "schedule" false "c2" 110 (inr (flight, busy-IsBusy))

shutdown_drains_example :
    let (channel, waiting) = shutdown busy in
    let last = wound_up waiting finished 130 1 "sent" false in
    (any (λ c. c == flight.context) waiting.cancelled ≡ true)
    × ((clean : Bool) → ShutdownEnd waiting channel false clean → ⊥)
    × (busy.service.has_notifier ≡ true
        → (clean : Bool) → ShutdownEnd (step waiting (settles 0 finished 130)) channel false clean
        → ⊥)
    × ((expired : Bool) → ShutdownEnd last channel expired true)
    × ((clean : Bool) → ShutdownEnd last channel false clean → clean ≡ true)
unfolding start begin can_start create
shutdown_drains_example =
    shutdown_drains busy flight finished 130 1 "sent" false busy-IsBusy refl refl

idle_flights : (run_events (init apes true empty_ledger) idle_events).flights ≡ []
unfolding run_events step start begin complete land record_notification can_start create
idle_flights = refl

run_events-slot_run_example :
    view (run_events (init apes true empty_ledger) busy_events)
    ≡ slot_run (record { holder = none; next = 1 }) busy_events
run_events-slot_run_example = run_events-slot_run apes true empty_ledger busy_events
