-- ===== src/Sync/Service/Counters.antt =====
-- The counters of metrics.go, and the numbering of contexts and channels.
use apekeeper.Common.{
  ℕ, zero, suc, ◌+◌, ◌^◌, ◌<◌, ◌≡◌, refl, inl, inr, String, Bool, true, false, ◌==◌, Option, none,
  some, List, [], ◌∷◌, ◌++◌, any, arith, length, Bool-cases, Option-cases, All,
}
use apekeeper.Domain.{Guild, can_start}
use apekeeper.Sync.Ledger.{SyncRun, Ledger, create}
use apekeeper.Sync.Service.{
  u64, Flight, System, start, complete, cancel, Event, starts, reports, settles, cancels,
  shuts_down, notified, draws, land, step, run_events, init, option_to_list,
}

length-land :
    (i : ℕ) (fs rest : List Flight) → land i fs ≡ some rest → length fs ≡ suc (length rest)
unfolding land
length-land zero [] rest h = cc
length-land (suc i) [] rest h = cc
length-land zero (f ∷ fs) rest h = ground arith
length-land (suc i) (f ∷ fs) rest h = elim (Option-cases (land i fs)) [
  | inl e ↦ ground arith
  | inr (more, e) ↦ ground (arith, length-land i fs more e)
]

-- The started counter is the completed counter and the runs in flight, up to the wrap of uint64.
pub record IsCounted (s : System) : Type 0 where
  pub in_range : s.service.metrics.completed < 2 ^ 64
  pub balance : s.service.metrics.started ≡ u64 (s.service.metrics.completed + length s.flights)

settles-IsCounted :
    (s : System) (i : ℕ) (r : SyncRun) (now : ℕ)
    → IsCounted s
    → IsCounted (step s (settles i r now))
unfolding step
settles-IsCounted s i r now c = elim (Option-cases (land i s.flights)) [
  | inl e ↦ rw (e, step) c
  | inr (rest, e) ↦
      rw (e, step)
        (record {
          in_range = omega arith;
          balance = omega (arith, c.balance, c.in_range, length-land i s.flights rest e);
        })
]

start-IsCounted :
    (s : System) (refused : Bool) (trigger : String) (dry : Bool) (correlation : String) (now : ℕ)
    → IsCounted s
    → IsCounted (start s refused trigger dry correlation now).1
unfolding start create can_start
start-IsCounted s true trigger dry correlation now c = elim (Bool-cases s.service.in_progress) [
  | inl e ↦ simp (e, start) c
  | inr e ↦ simp (e, start) (record { in_range = c.in_range; balance = c.balance })
]
start-IsCounted s false trigger dry correlation now c = elim (Bool-cases s.service.in_progress) [
  | inl e ↦ simp (e, start) c
  | inr e ↦
      simp (e, start)
        (record { in_range = c.in_range; balance = omega (arith, c.balance, c.in_range) })
]

step-IsCounted : (s : System) (e : Event) → IsCounted s → IsCounted (step s e)
unfolding step
step-IsCounted s (starts refused trigger dry correlation now) c =
    start-IsCounted s refused trigger dry correlation now c
step-IsCounted s (reports phase updated failures total) c = record {
  in_range = ground arith;
  balance = ground arith;
}
step-IsCounted s (settles i r now) c = settles-IsCounted s i r now c
step-IsCounted s cancels c = record { in_range = ground arith; balance = ground arith }
step-IsCounted s (draws n) c = record { in_range = c.in_range; balance = c.balance }
step-IsCounted s shuts_down c = record { in_range = c.in_range; balance = c.balance }
step-IsCounted s (notified run_id status refused) c = record {
  in_range = c.in_range;
  balance = c.balance;
}

run_events_counts : (s : System) (es : List Event) → IsCounted s → IsCounted (run_events s es)
unfolding run_events
run_events_counts s [] c = c
run_events_counts s (e ∷ es) c = run_events_counts (step s e) es (step-IsCounted s e c)

-- Where the program has one guild, whose service has the metrics to itself: after any sequence of
-- events, the counter of started runs equals the counter of completed runs
-- plus the number of runs in flight, modulo 2 ^ 64.
pub run_events-IsCounted :
    (guild : Guild) (has_notifier : Bool) (ledger : Ledger) (es : List Event)
    → IsCounted (run_events (init guild has_notifier ledger) es)
run_events-IsCounted guild has_notifier ledger es =
    run_events_counts _ es (record { in_range = omega arith; balance = refl })

abbrev pub AllBelow : ℕ → List ℕ → Type 0
AllBelow n = All (λ c. c < n)

AllBelow-mono : (n : ℕ) (cs : List ℕ) → AllBelow n cs → AllBelow (n + 1) cs
AllBelow-mono n [] h = tt
AllBelow-mono n (c ∷ cs) h = (omega (arith, h.0), AllBelow-mono n cs h.1)

pub not_below : (n : ℕ) (cs : List ℕ) → AllBelow n cs → any (λ c. c == n) cs ≡ false
not_below n [] h = refl
not_below n (c ∷ cs) h = ground (arith, h.0, not_below n cs h.1)

-- Numbers of contexts and channels are used once.
pub record IsNumbered (s : System) : Type 0 where
  pub cancel_below : (c : ℕ) → s.service.cancel ≡ some c → c < s.fresh
  pub done_below : (c : ℕ) → s.service.done ≡ some c → c < s.fresh
  pub cancelled_below : AllBelow s.fresh s.cancelled
  pub closed_below : AllBelow s.fresh s.closed

option_below :
    (n : ℕ) (o : Option ℕ) (cs : List ℕ)
    → ((c : ℕ) → o ≡ some c → c < n)
    → AllBelow n cs
    → AllBelow n (option_to_list o ++ cs)
option_below n none cs h k = k
option_below n (some c) cs h k = (h c refl, k)

start-IsNumbered :
    (s : System) (refused : Bool) (trigger : String) (dry : Bool) (correlation : String) (now : ℕ)
    → IsNumbered s
    → IsNumbered (start s refused trigger dry correlation now).1
unfolding start create can_start
start-IsNumbered s true trigger dry correlation now v = elim (Bool-cases s.service.in_progress) [
  | inl e ↦ simp (e, start) v
  | inr e ↦
      simp (e, start)
        (record {
          cancel_below = v.cancel_below;
          done_below = v.done_below;
          cancelled_below = v.cancelled_below;
          closed_below = v.closed_below;
        })
]
start-IsNumbered s false trigger dry correlation now v = elim (Bool-cases s.service.in_progress) [
  | inl e ↦ simp (e, start) v
  | inr e ↦
      simp (e, start)
        (record {
          cancel_below = λ c. ground arith;
          done_below = λ c. ground arith;
          cancelled_below = AllBelow-mono s.fresh s.cancelled v.cancelled_below;
          closed_below = AllBelow-mono s.fresh s.closed v.closed_below;
        })
]

complete-IsNumbered :
    (s : System) (r : SyncRun) (now : ℕ) → IsNumbered s → IsNumbered (complete s r now)
unfolding complete
complete-IsNumbered s r now v = record {
  cancel_below = λ c h. cc;
  done_below = λ c h. cc;
  cancelled_below = v.cancelled_below;
  closed_below = option_below s.fresh s.service.done s.closed v.done_below v.closed_below;
}

cancels-IsNumbered :
    (s : System) → IsNumbered s → (o : Option ℕ) → s.service.cancel ≡ o → IsNumbered (cancel s).1
unfolding cancel
cancels-IsNumbered s v none e = rw (e, cancel) v
cancels-IsNumbered s v (some c) e = elim (Bool-cases s.service.in_progress) [
  | inr b ↦ simp (e, b, cancel) v
  | inl b ↦
      simp (e, b, cancel)
        (record {
          cancel_below = v.cancel_below;
          done_below = v.done_below;
          cancelled_below = (v.cancel_below c e, v.cancelled_below);
          closed_below = v.closed_below;
        })
]

step-IsNumbered : (s : System) (e : Event) → IsNumbered s → IsNumbered (step s e)
unfolding step
step-IsNumbered s (starts refused trigger dry correlation now) v =
    start-IsNumbered s refused trigger dry correlation now v
step-IsNumbered s (reports phase updated failures total) v =
    elim (Bool-cases s.service.in_progress) [
      | inl e ↦ simp e (record {
        cancel_below = v.cancel_below;
        done_below = v.done_below;
        cancelled_below = v.cancelled_below;
        closed_below = v.closed_below;
      })
      | inr e ↦ simp e v
    ]
step-IsNumbered s (settles i r now) v = elim (Option-cases (land i s.flights)) [
  | inl e ↦ rw (e, step) v
  | inr (rest, e) ↦
      rw (e, step)
        (complete-IsNumbered (record s { flights = rest }) r now
          (record {
            cancel_below = v.cancel_below;
            done_below = v.done_below;
            cancelled_below = v.cancelled_below;
            closed_below = v.closed_below;
          }))
]
step-IsNumbered s cancels v = cancels-IsNumbered s v s.service.cancel refl
step-IsNumbered s shuts_down v = record {
  cancel_below = v.cancel_below;
  done_below = v.done_below;
  cancelled_below =
      option_below s.fresh s.service.cancel s.cancelled v.cancel_below v.cancelled_below;
  closed_below = v.closed_below;
}
step-IsNumbered s (notified run_id status refused) v = record {
  cancel_below = v.cancel_below;
  done_below = v.done_below;
  cancelled_below = v.cancelled_below;
  closed_below = v.closed_below;
}
step-IsNumbered s (draws n) v = record {
  cancel_below = v.cancel_below;
  done_below = v.done_below;
  cancelled_below = v.cancelled_below;
  closed_below = v.closed_below;
}

run_events_numbers : (s : System) (es : List Event) → IsNumbered s → IsNumbered (run_events s es)
unfolding run_events
run_events_numbers s [] v = v
run_events_numbers s (e ∷ es) v = run_events_numbers (step s e) es (step-IsNumbered s e v)

pub run_events-IsNumbered :
    (guild : Guild) (has_notifier : Bool) (ledger : Ledger) (es : List Event)
    → IsNumbered (run_events (init guild has_notifier ledger) es)
run_events-IsNumbered guild has_notifier ledger es = run_events_numbers _ es (record {
  cancel_below = λ c h. cc;
  done_below = λ c h. cc;
  cancelled_below = tt;
  closed_below = tt;
})
