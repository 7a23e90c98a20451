-- ===== src/Sync/Service/Laws.antt =====
-- What callers of the service see: admission, cancellation, the last snapshot, shutdown.
use apekeeper.Common.{
  Option, refl, ◌∙◌, ap, ℕ, ◌<◌, ◌≡◌, ◌⊎◌, inl, inr, String, Bool, true, false, not, ◌==◌,
  if◌then◌else◌, none, some, List, [], ◌∷◌, any, arith, ok, err, length,
}
use apekeeper.Domain.{Phase, Guild, can_start, finalizing}
use apekeeper.Sync.Ledger.{SyncRun, Ledger, create}
use apekeeper.Sync.Service.{
  Flight, System, already_running, create_failed, start, cancel, shutdown, Event, reports, settles,
  notified, step, run_events, init, not_running, is_drained, ShutdownEnd, returns_nil,
  returns_error,
}
use apekeeper.Sync.Service.Reach.{Inv, IsBusy, launched, run_events-Inv}
use apekeeper.Sync.Service.Counters.{IsNumbered, not_below, run_events-IsNumbered}

-- In a state that keeps the invariant, a start is refused as already running, with nothing changed,
-- exactly when a run is in flight; it is otherwise refused only by the ledger, which leaves the slot
-- free again, and else puts the new run in flight.
pub start_admission :
    (s : System) (refused : Bool) (trigger : String) (dry : Bool) (correlation : String) (now : ℕ)
    → Inv s
    → let (r, t) = start s refused trigger dry correlation now in
      ((0 < length s.flights) × (r ≡ err already_running) × (t ≡ s))
      ⊎ ((s.flights ≡ [])
          × (refused ≡ true)
          × (r ≡ err create_failed)
          × (t.flights ≡ [])
          × (t.service.in_progress ≡ false)
          × (t.ledger ≡ s.ledger))
      ⊎ ((s.flights ≡ [])
          × (refused ≡ false)
          × (r ≡ ok (launched s trigger dry now).run)
          × (t.flights ≡ launched s trigger dry now ∷ [])
          × (t.service.progress.dry_run ≡ dry))
unfolding start create can_start
start_admission s refused trigger dry correlation now (inr (f, b)) =
    inl (ground arith, ground arith, ground arith)
start_admission s true trigger dry correlation now (inl i) = inr (inl (ground arith))
start_admission s false trigger dry correlation now (inl i) = inr (inr (ground arith))

-- Cancel reaches the context of the run in flight and nothing else, and is refused, with nothing
-- changed, exactly when no run is in flight.
pub cancel_in_flight :
    (s : System)
    → Inv s
    → ((s.flights ≡ []) × (cancel s ≡ (some not_running, s)))
      ⊎ ((f : Flight) × (s.flights ≡ f ∷ [])
          × (cancel s ≡ (none, record s { cancelled = f.context ∷ s.cancelled })))
unfolding cancel
cancel_in_flight s (inl i) = inl (ground arith)
cancel_in_flight s (inr (f, b)) = inr (f, ground arith, ground arith)

-- When the run in flight settles with a record, the snapshot keeps its id, shows the record's status
-- and counts as inactive and finalizing, the record is the service's last, and a report that comes
-- late changes nothing.
pub settle_snapshot :
    (s : System) (f : Flight) (r : SyncRun) (now : ℕ) (phase : Phase) (u n t : ℕ)
    → IsBusy s f
    → let after = step s (settles 0 r now) in
      (after.flights ≡ [])
      × (after.service.last ≡ r)
      × (after.service.progress ≡ record s.service.progress {
        active = false;
        run_id = f.run.id;
        status = r.status;
        phase = finalizing;
        updated = r.updated;
        failures = r.failures;
        total = r.total;
      })
      × (step after (reports phase u n t) ≡ after)
unfolding step
settle_snapshot s f r now phase u n t b = ground arith

-- without an expired context Shutdown does not return before both waits are over, and then nil
waiting_on :
    (s : System) (channel : Option ℕ) (clean : Bool)
    → is_drained s channel ≡ false
    → ShutdownEnd s channel false clean
    → ⊥
waiting_on s channel clean h (returns_nil d) = absurd (ground arith)
waiting_on s channel clean h (returns_error e) = absurd (ground arith)

unexpired :
    (s : System) (channel : Option ℕ) (clean : Bool)
    → ShutdownEnd s channel false clean
    → clean ≡ true
unexpired s channel clean (returns_nil d) = refl
unexpired s channel clean (returns_error e) = absurd (ground arith)

-- the run in flight settles, and its notification is recorded if the service has a notifier
abbrev pub wound_up : System → SyncRun → ℕ → ℕ → String → Bool → System
wound_up s r now id status refused =
    let settled = step s (settles 0 r now) in
    if s.service.has_notifier then step settled (notified id status refused) else settled

shutdown_drained :
    (s : System) (f : Flight) (r : SyncRun) (now id : ℕ) (status : String) (refused : Bool)
    → IsBusy s f
    → s.service.notify_wg ≡ 0
    → any (λ c. c == f.channel) s.closed ≡ false
    → let (channel, waiting) = shutdown s in
      (any (λ c. c == f.context) waiting.cancelled ≡ true)
      × (is_drained waiting channel ≡ false)
      × (is_drained (step waiting (settles 0 r now)) channel ≡ not s.service.has_notifier)
      × (is_drained (wound_up waiting r now id status refused) channel ≡ true)
unfolding step shutdown is_drained
shutdown_drained s f r now id status refused b w o = ground arith

-- A shutdown during a run, with no notification outstanding and the run's channel still open, cancels
-- the run's context. While its own context has not expired it does not return before the run has
-- settled, nor, with a notifier, before the notification is recorded; once that has happened it can
-- return nil, and without an expired context it returns nothing else.
pub shutdown_drains :
    (s : System) (f : Flight) (r : SyncRun) (now id : ℕ) (status : String) (refused : Bool)
    → IsBusy s f
    → s.service.notify_wg ≡ 0
    → any (λ c. c == f.channel) s.closed ≡ false
    → let (channel, waiting) = shutdown s in
      let last = wound_up waiting r now id status refused in
      (any (λ c. c == f.context) waiting.cancelled ≡ true)
      × ((clean : Bool) → ShutdownEnd waiting channel false clean → ⊥)
      × (s.service.has_notifier ≡ true
          → (clean : Bool) → ShutdownEnd (step waiting (settles 0 r now)) channel false clean
          → ⊥)
      × ((expired : Bool) → ShutdownEnd last channel expired true)
      × ((clean : Bool) → ShutdownEnd last channel false clean → clean ≡ true)
shutdown_drains s f r now id status refused b w o =
    let (c, going, settled, last) = shutdown_drained s f r now id status refused b w o in
    (
      c,
      λ clean e. waiting_on _ _ clean going e,
      λ h clean e. waiting_on _ _ clean (settled ∙ ap not h) e,
      λ expired. returns_nil last,
      λ clean e. unexpired _ _ clean e,
    )

start_unspoiled :
    (s : System) (trigger : String) (dry : Bool) (correlation : String) (now : ℕ)
    → Inv s
    → IsNumbered s
    → s.flights ≡ []
    → let t = (start s false trigger dry correlation now).1 in
      (t.service.cancel ≡ some s.fresh)
      × (t.service.done ≡ some s.fresh)
      × (any (λ c. c == s.fresh) t.cancelled ≡ false)
      × (any (λ c. c == s.fresh) t.closed ≡ false)
unfolding start create can_start
start_unspoiled s trigger dry correlation now (inr (f, b)) v e = absurd (ground arith)
start_unspoiled s trigger dry correlation now (inl i) v e = ground (
  arith,
  not_below s.fresh s.cancelled v.cancelled_below,
  not_below s.fresh s.closed v.closed_below,
)

-- Whatever happened before, cancellations and shutdowns included, a run that starts while none is in
-- flight gets a context that is not cancelled and a channel that is not closed.
pub start_after_events :
    (guild : Guild) (has_notifier : Bool) (ledger : Ledger) (es : List Event) (trigger : String)
    (dry : Bool) (correlation : String) (now : ℕ)
    → (run_events (init guild has_notifier ledger) es).flights ≡ []
    → let s = run_events (init guild has_notifier ledger) es in
      let t = (start s false trigger dry correlation now).1 in
      (t.service.cancel ≡ some s.fresh)
      × (t.service.done ≡ some s.fresh)
      × (any (λ c. c == s.fresh) t.cancelled ≡ false)
      × (any (λ c. c == s.fresh) t.closed ≡ false)
start_after_events guild has_notifier ledger es trigger dry correlation now =
    start_unspoiled _ trigger dry correlation now (run_events-Inv guild has_notifier ledger es)
      (run_events-IsNumbered guild has_notifier ledger es)
