-- ===== src/Scheduler/Daily.antt =====
-- The next instant of a daily schedule.
use apekeeper.Common.{ℕ, ◌+◌, ◌%◌, ◌<◌, ◌≤◌, ◌≡◌, arith}
use apekeeper.Scheduler.{day, Clock, since_midnight, next}

-- A clock that time.Parse can give.
pub record IsTimeOfDay (c : Clock) : Type 0 where
  pub hours : c.hour < 24
  pub minutes : c.minutes < 60

clock-bound : (c : Clock) → IsTimeOfDay c → since_midnight c < day
clock-bound c h = let a = h.hours in let b = h.minutes in omega arith

-- the least instant of a class of instants a day apart
same_offset : (o t n : ℕ) → n % day ≡ o → t % day ≡ o → n < t + day → n ≤ t
same_offset o t n p q h = ground arith

module _ (c : Clock) (now : ℕ) (h : IsTimeOfDay c) where
  next-after : now < next c now
  unfolding next
  next-after = let b = clock-bound c h in ground arith

  next-within : next c now ≤ now + day
  unfolding next
  next-within = let b = clock-bound c h in ground arith

  next-offset : next c now % day ≡ since_midnight c
  unfolding next
  next-offset = let b = clock-bound c h in ground arith

  -- The next instant is after now and at most a day away, it stands at the schedule's time of its day,
  -- and no instant at that time of a day lies between now and it.
  pub next-IsNext :
      let n = next c now in
      (now < n)
      × (n ≤ now + day)
      × (n % day ≡ since_midnight c)
      × ((t : ℕ) → now < t → t % day ≡ since_midnight c → n ≤ t)
  next-IsNext = (
    next-after,
    next-within,
    next-offset,
    (λ t l o.
        same_offset (since_midnight c) t (next c now) next-offset o
          (let w = next-within in omega arith)),
  )
