-- ===== src/Sync/Service/Slot.antt =====
-- What the sync service promises, whatever it keeps to do so: one slot that a run can hold, and the
-- serial that numbers the runs of all guilds. The service of service.go implements this slot.
use apekeeper.Common.{
  ℕ, zero, suc, ◌+◌, ◌≡◌, refl, ◌∙◌, String, Bool, true, false, if◌then◌else◌, Option, none, some,
  List, [], ◌∷◌, arith, inl, inr, ap,
}
use apekeeper.Domain.{Guild, can_start}
use apekeeper.Sync.Ledger.{SyncRun, Ledger, create, set_notify_status}
use apekeeper.Sync.Service.{
  System, start, report_progress, Event, starts, reports, settles, cancels, shuts_down, notified,
  draws, step, complete, land, cancel, shutdown, record_notification, run_events, init,
}
use apekeeper.Sync.Service.Reach.{Inv, step-Inv, init-Inv}

-- the run that holds the slot, if any, and the number of the next run
pub record Slot : Type 0 where
  pub holder : Option ℕ
  pub next : ℕ

-- A start takes a free slot if the ledger accepts the row, the end of the run frees it, and nothing
-- else touches it; the serial goes on with each row and with the draws of others.
unfoldable pub slot_step : Slot → Event → Slot
slot_step s (starts false trigger dry correlation now) = elim s.holder [
  | none ↦ record { holder = some s.next; next = s.next + 1 }
  | some id ↦ s
]
slot_step s (settles zero r now) = record s { holder = none }
slot_step s (draws n) = record s { next = s.next + n }
slot_step s e = s

unfoldable pub slot_run : Slot → List Event → Slot
slot_run s [] = s
slot_run s (e ∷ es) = slot_run (slot_step s e) es

-- how a system is seen as a slot
unfoldable pub view : System → Slot
view s = record {
  holder = if s.service.in_progress then some s.service.progress.run_id else none;
  next = s.ledger.next_id;
}

start-view :
    (s : System) (refused : Bool) (trigger : String) (dry : Bool) (correlation : String) (now : ℕ)
    → Inv s
    → view (step s (starts refused trigger dry correlation now))
      ≡ slot_step (view s) (starts refused trigger dry correlation now)
unfolding view slot_step step start create can_start
start-view s true trigger dry correlation now (inl i) = ground arith
start-view s true trigger dry correlation now (inr (f, b)) = ground arith
start-view s false trigger dry correlation now (inl i) = ground arith
start-view s false trigger dry correlation now (inr (f, b)) = ground arith

settles-view :
    (s : System) (i : ℕ) (r : SyncRun) (now : ℕ)
    → Inv s
    → view (step s (settles i r now)) ≡ slot_step (view s) (settles i r now)
unfolding view slot_step step complete land
settles-view s zero r now (inl v) = ground arith
settles-view s (suc i) r now (inl v) = ground arith
settles-view s zero r now (inr (f, b)) = ground arith
settles-view s (suc i) r now (inr (f, b)) = ground arith

step-view : (s : System) (e : Event) → Inv s → view (step s e) ≡ slot_step (view s) e
unfolding view slot_step step report_progress cancel shutdown record_notification set_notify_status
step-view s (starts refused trigger dry correlation now) v =
    start-view s refused trigger dry correlation now v
step-view s (settles i r now) v = settles-view s i r now v
step-view s (reports phase updated failures total) (inl v) = ground arith
step-view s (reports phase updated failures total) (inr (f, b)) = ground arith
step-view s cancels (inl v) = ground arith
step-view s cancels (inr (f, b)) = ground arith
step-view s (draws n) (inl v) = ground arith
step-view s (draws n) (inr (f, b)) = ground arith
step-view s shuts_down v = refl
step-view s (notified id status true) v = refl
step-view s (notified id status false) v = refl

run_events-slot_run_from :
    (s : System) (es : List Event) → Inv s → view (run_events s es) ≡ slot_run (view s) es
unfolding run_events slot_run
run_events-slot_run_from s [] v = refl
run_events-slot_run_from s (e ∷ es) v =
    run_events-slot_run_from (step s e) es (step-Inv s e v)
    ∙ ap (λ x. slot_run x es) (step-view s e v)

-- The service is a slot: after any sequence of events, the draws of others from the table's serial
-- among them, which run it shows in progress, if any, and which number the serial gives next are
-- what the slot alone says, whatever the ledger holds at first.
pub run_events-slot_run :
    (guild : Guild) (has_notifier : Bool) (ledger : Ledger) (es : List Event)
    → view (run_events (init guild has_notifier ledger) es)
      ≡ slot_run (record { holder = none; next = ledger.next_id }) es
unfolding view
run_events-slot_run guild has_notifier ledger es =
    run_events-slot_run_from (init guild has_notifier ledger) es
      (init-Inv guild has_notifier ledger)
