-- ===== src/Upstream/Limiter.antt =====
-- backend/internal/blizzard/ratelimit.go: the token bucket before the requests, as the steps of its
-- goroutine and of its callers.
pub mod Pace
use apekeeper.Common.{
  ℕ, zero, suc, ◌+◌, ◌-◌, ◌/◌, ◌<◌, ◌≤◌, ◌≡◌, ◌==◌, Bool, true, false, if◌then◌else◌, Option, none,
  some, List, [], ◌∷◌,
}

abbrev pub default_requests_per_second : ℕ
default_requests_per_second = 100

abbrev pub default_burst : ℕ
default_burst = 50

-- The channel `tokens` with what is in it and its capacity, the interval of the ticker, `stop`, and
-- whether the goroutine is in its loop.
pub record Limiter : Type 0 where
  pub tokens : ℕ
  pub burst : ℕ
  pub period : ℕ
  pub stop_closed : Bool
  pub pumping : Bool

-- `if n <= 0 { n = d }`, with 0 for a value that is not positive
unfoldable pub or_default : ℕ → ℕ → ℕ
or_default d zero = d
or_default d (suc n) = suc n

-- NewLimiter, none where time.NewTicker panics on an interval of 0
unfoldable pub new_limiter : ℕ → ℕ → ℕ → Option Limiter
unfolding or_default
new_limiter rate burst interval =
    let size = or_default default_burst burst in
    let period = interval / or_default default_requests_per_second rate in
    if period == 0
    then none
    else some (record {
      tokens = size;
      burst = size;
      period = period;
      stop_closed = false;
      pumping = true;
    })

pub data LimiterEvent : Type 0 where
  -- the goroutine receives from the ticker
  ticks : LimiterEvent
  -- Wait returns without an error, or with the error of its context
  admits : LimiterEvent
  gives_up : LimiterEvent
  -- Close
  closes : LimiterEvent
  -- the goroutine receives from `stop` and returns
  stops : LimiterEvent

-- One step. A select with several cases that are ready takes any of them, so that a tick can come
-- after Close, and a Wait whose context is done can still be admitted.
pub data LimiterStep (l : Limiter) : LimiterEvent → Limiter → Type 0 where
  refill :
      l.pumping ≡ true
      → l.tokens < l.burst
      → LimiterStep l ticks (record l { tokens = l.tokens + 1 })
  spill : l.pumping ≡ true → l.burst ≤ l.tokens → LimiterStep l ticks l
  take : 0 < l.tokens → LimiterStep l admits (record l { tokens = l.tokens - 1 })
  give_up : LimiterStep l gives_up l
  close : LimiterStep l closes (record l { stop_closed = true })
  stop :
      l.pumping ≡ true → l.stop_closed ≡ true → LimiterStep l stops (record l { pumping = false })

pub data LimiterSteps : Limiter → List LimiterEvent → Limiter → Type 0 where
  rest : {l : Limiter} → LimiterSteps l [] l
  step :
      {e : LimiterEvent} {es : List LimiterEvent} {l m n : Limiter}
      → LimiterStep l e m
      → LimiterSteps m es n
      → LimiterSteps l (e ∷ es) n
