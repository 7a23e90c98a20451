-- ===== src/Scenarios/Requests.antt =====
-- Requests that come in and requests that go out.
use apekeeper.Common.{
  zero, suc, ℕ, ◌≡◌, ◌≢◌, refl, String, true, false, none, some, List, [], ◌∷◌, Result, ok, arith,
  Bool,
}
use apekeeper.Domain.Text.{slug, api_slug}
use apekeeper.Domain.Text.Slugs.{api_slug-ne-slug}
use apekeeper.Access.Limits.{new_rate_limiter}
use apekeeper.Access.Limits.Window.{run_allow, run_log, run_allow-run_log}
use apekeeper.Upstream.Retry.{
  Attempt, Sent, responded, RequestError, request, request_from, attempt, judge, TokenCache,
}
use apekeeper.Upstream.Limiter.{
  Limiter, new_limiter, or_default, default_burst, LimiterSteps, rest, step, take, close, refill,
  ticks, admits, closes,
}
use apekeeper.Upstream.Limiter.Pace.{IsPaced, new_limiter-IsPaced}
use apekeeper.Notify.{Delivery, unsent, notify_sync_run}
use apekeeper.Notify.Secrecy.{notify_sync_run-alike}
use apekeeper.Scenarios.{apart, ascii_lower, ascii_space}

-- two requests of one host, one of another, and a third of the first in the same window
abbrev calls : List (String × ℕ)
calls = ("ape", 10) ∷ ("ape", 20) ∷ ("bee", 25) ∷ ("ape", 30) ∷ ("ape", 75) ∷ []

run_allow-run_log_example :
    run_allow "ape" calls (new_rate_limiter 2 60) [] ≡ run_log 2 60 "ape" calls []
run_allow-run_log_example =
    run_allow-run_log 2 60 "ape" calls
      (omega arith, (omega arith, (omega arith, (omega arith, (omega arith, tt)))))

-- a server that is overloaded twice and then answers
abbrev reply : ℕ → Sent String
reply i = elim i [
  | zero ↦ responded 503 0 none
  | (suc j) ↦ elim j [ zero ↦ responded 429 2 none | (suc k) ↦ responded 200 0 (some "roster") ]
]

abbrev world : ℕ → Attempt String
world i = record {
  admitted = none;
  built = none;
  token = none;
  sent = reply i;
  backoff = 50;
  waited = λ d. none;
}

tried_test : request true world ≡ (ok "roster", 3)
unfolding request request_from attempt judge
tried_test = refl

abbrev fetched : Result RequestError (String × ℕ)
fetched = ok ("new", 3600)

abbrev cache : TokenCache
cache = record { value = "old"; expires = 130 }

-- K, an apostrophe, T
abbrev name : List ℕ
name = 75 ∷ 39 ∷ 84 ∷ []

api_slug-ne-slug_example : api_slug ascii_lower ascii_space name ≢ slug ascii_lower ascii_space name
api_slug-ne-slug_example = api_slug-ne-slug ascii_lower ascii_space name refl refl refl

-- a transport that puts the URL into its errors
abbrev post : String → Delivery
post url = unsent false url

notify_sync_run-alike_example :
    notify_sync_run (λ n. "rejected") post true "https://a"
    ≡ notify_sync_run (λ n. "rejected") post true "https://b"
notify_sync_run-alike_example =
    notify_sync_run-alike (λ n. "rejected") post post true "https://a" "https://b"
      (apart "https://a" "" refl) (apart "https://b" "" refl) refl

abbrev bucket : ℕ → Bool → Limiter
bucket n closed = record {
  tokens = n;
  burst = 2;
  period = 100;
  stop_closed = closed;
  pumping = true;
}

made : new_limiter 10 2 1000 ≡ some (bucket 2 false)
unfolding new_limiter or_default
made = refl

-- two requests empty the bucket
emptied : LimiterSteps (bucket 2 false) (admits ∷ admits ∷ []) (bucket 0 false)
emptied = step (take (omega arith)) (step (take (omega arith)) rest)

-- a tick lets a third one through, also after Close
closing : LimiterSteps (bucket 0 false) (closes ∷ ticks ∷ admits ∷ []) (bucket 0 true)
closing = step close (step (refill refl (omega arith)) (step (take (omega arith)) rest))

new_limiter-IsPaced_example :
    IsPaced (or_default default_burst 2) (bucket 0 false) (closes ∷ ticks ∷ admits ∷ [])
new_limiter-IsPaced_example = new_limiter-IsPaced 10 2 1000 (bucket 2 false) made emptied closing
