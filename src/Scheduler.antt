-- ===== src/Scheduler.antt =====
-- backend/internal/sched/scheduler.go: the daily schedule and the loop that serves it. Instants are
-- in nanoseconds since a midnight of UTC, whose days all have the same length.
pub mod Daily
pub mod Served
use apekeeper.Common.{
  ℕ, ◌+◌, ◌-◌, ◌*◌, ◌%◌, Bool, true, false, ◌&&◌, ltb, leb, if◌then◌else◌, Option, none, some, List,
  [], ◌∷◌,
}

abbrev pub minute : ℕ
minute = 60000000000

abbrev pub day : ℕ
day = 86400000000000

-- a time of day, as time.Parse("15:04") gives it
pub record Clock : Type 0 where
  pub hour : ℕ
  pub minutes : ℕ

abbrev pub since_midnight : Clock → ℕ
since_midnight c = (c.hour * 60 + c.minutes) * minute

-- next, for a schedule that can be read: today's time, or tomorrow's if that is not after now
unfoldable pub next : Clock → ℕ → ℕ
next c now = let n = (now - now % day) + since_midnight c in if ltb now n then n else n + day

-- The loop of Run. `timer` is the deadline that the loop waits for, none once Run has returned;
-- `pending` is the element of TriggerNow. `served` lists the deadlines at which the timer made it
-- call the function, the newest first, and `manual` counts the calls made by TriggerNow.
pub record Loop : Type 0 where
  pub clock : ℕ
  pub timer : Option ℕ
  pub pending : Bool
  pub served : List ℕ
  pub manual : ℕ

pub data LoopEvent : Type 0 where
  -- Trigger, whose select drops what the buffer of one has no room for
  triggers : LoopEvent
  -- `<-s.TriggerNow` at an instant; the function returns at a later one
  takes : ℕ → ℕ → LoopEvent
  -- `<-timer.C`, likewise
  fires : ℕ → ℕ → LoopEvent
  -- `<-ctx.Done()`
  cancels : LoopEvent

-- Run: the first deadline; a schedule that can not be read ends it at once
unfoldable pub start_loop : Option Clock → ℕ → Loop
unfolding next
start_loop schedule now = record {
  clock = now;
  timer = elim schedule [ none ↦ none | some c ↦ some (next c now) ];
  pending = false;
  served = [];
  manual = 0;
}

abbrev pub is_waiting : Option ℕ → Bool
is_waiting none = false
is_waiting (some deadline) = true

-- a deadline that has come by an instant
abbrev pub due : ℕ → Option ℕ → Option ℕ
due now none = none
due now (some deadline) = if leb deadline now then some deadline else none

module _ (c : Clock) where
  -- an event that can not happen then leaves the loop as it is
  unfoldable pub loop_step : Loop → LoopEvent → Loop
  unfolding next
  loop_step l triggers = record l { pending = true }
  loop_step l (takes now back) =
      if l.pending && is_waiting l.timer && leb l.clock now && leb now back
      then record l {
        clock = back;
        timer = some (next c back);
        pending = false;
        manual = l.manual + 1;
      }
      else l
  loop_step l (fires now back) = elim (due now l.timer) [
    | none ↦ l
    | some deadline ↦
        if leb l.clock now && leb now back
        then record l { clock = back; timer = some (next c back); served = deadline ∷ l.served }
        else l
  ]
  loop_step l cancels = record l { timer = none }

  unfoldable pub loop_run : Loop → List LoopEvent → Loop
  unfolding loop_step
  loop_run l [] = l
  loop_run l (e ∷ es) = loop_run (loop_step l e) es
