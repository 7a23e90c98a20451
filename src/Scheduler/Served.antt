-- ===== src/Scheduler/Served.antt =====
-- What the loop of the scheduler serves, whatever happens.
use apekeeper.Common.{
  ℕ, ◌+◌, ◌%◌, ◌<◌, ◌≤◌, ◌≡◌, ◌⊎◌, refl, ◌∙◌, ap, false, ◌&&◌, leb, none, some, List, [], ◌∷◌, All,
  All-map, Bool-cases, Option-cases, inl, inr, arith,
}
use apekeeper.Scheduler.{
  day, Clock, since_midnight, next, Loop, LoopEvent, triggers, takes, fires, cancels, due,
  is_waiting, start_loop, loop_step, loop_run,
}
use apekeeper.Scheduler.Daily.{IsTimeOfDay, next-IsNext}

-- The newest first, without repetition.
abbrev pub IsDecreasing : List ℕ → Type 0
IsDecreasing [] = Unit
IsDecreasing (x ∷ xs) = All (λ y. y < x) xs × IsDecreasing xs

-- The loop waits for the first deadline after its last call, or has returned; the deadlines that it
-- has served lie in the past, are at the schedule's time of a day, and none has been served twice.
pub record IsServed (c : Clock) (l : Loop) : Type 0 where
  pub ahead : (l.timer ≡ none) ⊎ (l.timer ≡ some (next c l.clock))
  pub past : All (λ d. d ≤ l.clock) l.served
  pub once : IsDecreasing l.served
  pub daily : All (λ d. d % day ≡ since_midnight c) l.served

module _ (c : Clock) (h : IsTimeOfDay c) where
  start-IsServed : (now : ℕ) → IsServed c (start_loop (some c) now)
  unfolding start_loop
  start-IsServed now = record { ahead = inr refl; past = tt; once = tt; daily = tt }

  later : (a b : ℕ) (ds : List ℕ) → a ≤ b → All (λ d. d ≤ a) ds → All (λ d. d ≤ b) ds
  later a b ds k = All-map (λ d p. omega arith) ds

  takes-IsServed :
      (l : Loop) (now back : ℕ)
      → IsServed c l
      → (l.clock ≤ now) × (now ≤ back)
      → IsServed c (record l {
        clock = back;
        timer = some (next c back);
        pending = false;
        manual = l.manual + 1;
      })
  takes-IsServed l now back s k = record {
    ahead = inr refl;
    past = later l.clock back l.served (omega arith) s.past;
    once = s.once;
    daily = s.daily;
  }

  fires-IsServed :
      (l : Loop) (now back deadline : ℕ)
      → IsServed c l
      → l.timer ≡ some deadline
      → deadline ≤ now
      → (l.clock ≤ now) × (now ≤ back)
      → IsServed c
          (record l { clock = back; timer = some (next c back); served = deadline ∷ l.served })
  fires-IsServed l now back deadline s t d k = elim s.ahead [
    | inl e ↦ absurd (ground arith)
    | inr e ↦
        let same : deadline ≡ next c l.clock = ground arith in
        let (after, within, offset, least) = next-IsNext c l.clock h in
        record {
          ahead = inr refl;
          past = (omega arith, later l.clock back l.served (omega arith) s.past);
          once = (All-map (λ x p. omega arith) l.served s.past, s.once);
          daily = (ap (λ n. n % day) same ∙ offset, s.daily);
        }
  ]

  step-IsServed : (l : Loop) (e : LoopEvent) → IsServed c l → IsServed c (loop_step c l e)
  unfolding loop_step
  step-IsServed l triggers s = record {
    ahead = s.ahead;
    past = s.past;
    once = s.once;
    daily = s.daily;
  }
  step-IsServed l cancels s = record {
    ahead = inl refl;
    past = s.past;
    once = s.once;
    daily = s.daily;
  }
  step-IsServed l (takes now back) s =
      elim (Bool-cases (l.pending && is_waiting l.timer && leb l.clock now && leb now back)) [
        | inr e ↦ rw e s
        | inl e ↦ rw e (takes-IsServed l now back s (ground arith, ground arith))
      ]
  step-IsServed l (fires now back) s = elim (Option-cases (due now l.timer)) [
    | inl e ↦ rw (e, loop_step) s
    | inr (d, e) ↦ elim (Bool-cases (leb l.clock now && leb now back)) [
      | inr k ↦ rw (e, loop_step, k) s
      | inl k ↦
          rw (e, loop_step, k)
            (fires-IsServed l now back d s (ground arith) (ground arith)
              (ground arith, ground arith))
    ]
  ]

  run-IsServed : (l : Loop) (es : List LoopEvent) → IsServed c l → IsServed c (loop_run c l es)
  unfolding loop_run
  run-IsServed l [] s = s
  run-IsServed l (e ∷ es) s = run-IsServed (loop_step c l e) es (step-IsServed l e s)

  -- Whatever the triggers, wakes and cancellations, the scheduler serves only deadlines at its time of
  -- a day, each at most once and in order, and waits for the first one after its last call.
  pub loop_run-IsServed :
      (now : ℕ) (es : List LoopEvent) → IsServed c (loop_run c (start_loop (some c) now) es)
  loop_run-IsServed now es = run-IsServed (start_loop (some c) now) es (start-IsServed now)
