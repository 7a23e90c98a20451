-- ===== src/Upstream/Limiter/Pace.antt =====
-- How many requests the token bucket of ratelimit.go lets through.
use apekeeper.Common.{
  ℕ, zero, suc, ◌+◌, ◌<◌, ◌≤◌, ◌≡◌, refl, Bool, true, false, none, some, List, [], ◌∷◌, arith,
  Bool-cases, if◌then◌else◌, subst, ltb, inl, inr,
}
use apekeeper.Upstream.Limiter.{
  Limiter, LimiterEvent, ticks, admits, gives_up, closes, stops, LimiterStep, refill, spill, take,
  give_up, close, stop, LimiterSteps, rest, step, new_limiter, or_default, default_burst,
}

-- the requests that a sequence of events admits, and the ticks in it
unfoldable pub admissions : List LimiterEvent → ℕ
admissions [] = 0
admissions (admits ∷ es) = admissions es + 1
admissions (ticks ∷ es) = admissions es
admissions (gives_up ∷ es) = admissions es
admissions (closes ∷ es) = admissions es
admissions (stops ∷ es) = admissions es

unfoldable pub tick_count : List LimiterEvent → ℕ
tick_count [] = 0
tick_count (ticks ∷ es) = tick_count es + 1
tick_count (admits ∷ es) = tick_count es
tick_count (gives_up ∷ es) = tick_count es
tick_count (closes ∷ es) = tick_count es
tick_count (stops ∷ es) = tick_count es

-- the channel holds no more than its capacity, which is not 0
pub record IsBucket (size : ℕ) (l : Limiter) : Type 0 where
  pub sized : l.burst ≡ size
  pub within : l.tokens ≤ l.burst
  pub roomy : 0 < size

step-IsBucket :
    {size : ℕ} {l m : Limiter} {e : LimiterEvent}
    → LimiterStep l e m
    → IsBucket size l
    → IsBucket size m
step-IsBucket (refill p h) b = record { sized = b.sized; within = omega arith; roomy = b.roomy }
step-IsBucket (spill p h) b = b
step-IsBucket (take h) b = record {
  sized = b.sized;
  within = let w = b.within in omega arith;
  roomy = b.roomy;
}
step-IsBucket give_up b = b
step-IsBucket close b = record { sized = b.sized; within = b.within; roomy = b.roomy }
step-IsBucket (stop p q) b = record { sized = b.sized; within = b.within; roomy = b.roomy }

steps-IsBucket :
    {size : ℕ} {l m : Limiter} {es : List LimiterEvent}
    → LimiterSteps l es m
    → IsBucket size l
    → IsBucket size m
steps-IsBucket rest b = b
steps-IsBucket (step s more) b = steps-IsBucket more (step-IsBucket s b)

-- what is admitted was in the bucket or came with a tick
steps-le :
    {l m : Limiter} {es : List LimiterEvent}
    → LimiterSteps l es m
    → m.tokens + admissions es ≤ l.tokens + tick_count es
unfolding admissions tick_count
steps-le rest = omega arith
steps-le (step (refill p h) more) = let r = steps-le more in omega arith
steps-le (step (spill p h) more) = let r = steps-le more in omega arith
steps-le (step (take h) more) = let r = steps-le more in omega arith
steps-le (step give_up more) = let r = steps-le more in omega arith
steps-le (step close more) = let r = steps-le more in omega arith
steps-le (step (stop p q) more) = let r = steps-le more in omega arith

-- while the goroutine is in its loop, a caller that waits is admitted after the next tick
next_tick :
    {size : ℕ} {l : Limiter}
    → IsBucket size l
    → l.pumping ≡ true
    → (m : Limiter) × LimiterStep l ticks m × (0 < m.tokens)
next_tick {l = l} b p = elim (Bool-cases (ltb l.tokens l.burst)) [
  | inl h ↦ (record l { tokens = l.tokens + 1 }, refill p (ground arith), omega arith)
  | inr h ↦ let r = b.roomy in let s = b.sized in (l, spill p (ground arith), ground arith)
]

or_default-positive : (n : ℕ) → 0 < or_default default_burst n
unfolding or_default
or_default-positive zero = omega arith
or_default-positive (suc n) = omega arith

new_cases : (c : Bool) (made l : Limiter) → (if c then none else some made) ≡ some l → made ≡ l
new_cases true made l h = grind arith
new_cases false made l h = grind arith

new-IsBucket :
    (rate burst interval : ℕ) (l : Limiter)
    → new_limiter rate burst interval ≡ some l
    → IsBucket (or_default default_burst burst) l
unfolding new_limiter
new-IsBucket rate burst interval l h =
    let size = or_default default_burst burst in
    subst (IsBucket size) (new_cases _ _ l h)
      (record { sized = refl; within = omega arith; roomy = or_default-positive burst })

-- what holds of the steps `es` from `m`
pub record IsPaced (size : ℕ) (m : Limiter) (es : List LimiterEvent) : Type 0 where
  pub bounded : admissions es ≤ size + tick_count es
  pub served : m.pumping ≡ true → (n : Limiter) × LimiterStep m ticks n × (0 < n.tokens)

-- The limiter of NewLimiter admits, in any stretch `es` of its steps after any earlier ones, at most
-- its burst and one request for each tick of the stretch; and while its goroutine is in the loop,
-- the next tick leaves a token for a caller.
pub new_limiter-IsPaced :
    (rate burst interval : ℕ) (l : Limiter) {m n : Limiter} {past es : List LimiterEvent}
    → new_limiter rate burst interval ≡ some l
    → LimiterSteps l past m
    → LimiterSteps m es n
    → IsPaced (or_default default_burst burst) m es
new_limiter-IsPaced rate burst interval l made before during =
    let b = steps-IsBucket before (new-IsBucket rate burst interval l made) in
    record {
      bounded = let r = steps-le during in let s = b.sized in let w = b.within in omega arith;
      served = next_tick b;
    }
