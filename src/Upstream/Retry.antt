-- ===== src/Upstream/Retry.antt =====
-- backend/internal/blizzard/client.go: one request with its retries, and the cached token of
-- oauth.go. What the network, the limiter and the clock answer is given per attempt.
pub mod Laws
pub mod Tries
use apekeeper.Common.{
  ℕ, zero, suc, ◌+◌, ◌*◌, ◌/◌, ◌^◌, String, Bool, not, ◌&&◌, ◌||◌, ltb, leb, ◌==◌, str_eq,
  if◌then◌else◌, Option, none, some, Result, ok, err,
}

-- what http.Client.Do returns: an error, or a response with its status, the delay that RetryAfter
-- reads from it (0 for none) and the decoded body, none for one that does not decode
pub data Sent {ℓ} (A : Type ℓ) : Type ℓ where
  unsent : String → Sent A
  responded : ℕ → ℕ → Option A → Sent A

-- What one attempt meets: an error of Limiter.Wait, of NewRequestWithContext, of appToken and of
-- waitBackoff, and the reply.
pub record Attempt {ℓ} (A : Type ℓ) : Type ℓ where
  pub admitted : Option String
  pub built : Option String
  pub token : Option String
  pub sent : Sent A
  pub backoff : ℕ
  pub waited : ℕ → Option String

pub data RequestError : Type 0 where
  not_found : RequestError
  -- an error of the context, the transport, the token or the decoder
  failed_with : String → RequestError
  http_status : ℕ → RequestError
  retries_exhausted : RequestError

abbrev pub max_attempts : ℕ
max_attempts = 5

abbrev pub is_transient : ℕ → Bool
is_transient status = status == 429 || leb 500 status

-- What one attempt ends with: a result, or the delay before the next one.
pub data Verdict {ℓ} (A : Type ℓ) : Type ℓ where
  done : Result RequestError A → Verdict A
  retry : RequestError → ℕ → Verdict A

module _ {ℓ} {A : Type ℓ} where
  -- the part of the loop's body that reads the reply
  unfoldable pub judge : ℕ → Sent A → Verdict A
  judge backoff (unsent e) = retry (failed_with e) backoff
  judge backoff (responded status after body) =
      if status == 404
      then done (err not_found)
      else if is_transient status
      then retry (http_status status) (if after == 0 then backoff else after)
      else if not (status / 100 == 2)
      then done (err (http_status status))
      else done (elim body [ none ↦ err (failed_with "decode") | some a ↦ ok a ])

  -- the loop's body from Wait to the reply; a namespace asks for a token
  unfoldable pub attempt : Bool → Attempt A → Verdict A
  unfolding judge
  attempt namespaced w = elim w.admitted [
    | some e ↦ done (err (failed_with e))
    | none ↦ elim w.built [
      | some e ↦ done (err (failed_with e))
      | none ↦ elim (if namespaced then w.token else none) [
        | some e ↦ done (err (failed_with e))
        | none ↦ judge w.backoff w.sent
      ]
    ]
  ]

  -- the loop with `left` attempts to go of which the next is number `i`, and how many were made
  unfoldable pub request_from : Bool → (ℕ → Attempt A) → ℕ → ℕ → Result RequestError A × ℕ
  unfolding attempt
  request_from namespaced world i zero = (err retries_exhausted, i)
  request_from namespaced world i (suc left) =
      let rest = request_from namespaced world (i + 1) left in
      elim (attempt namespaced (world i)) [
        | done r ↦ (r, i + 1)
        | retry e delay ↦ if left == 0 then (err e, i + 1) else elim ((world i).waited delay) [
          | some f ↦ (err (failed_with f), i + 1)
          | none ↦ rest
        ]
      ]

  -- request
  unfoldable pub request : Bool → (ℕ → Attempt A) → Result RequestError A × ℕ
  unfolding request_from
  request namespaced world = request_from namespaced world 0 max_attempts

-- Backoff, in milliseconds, with the number that rand.Intn(25) gives
unfoldable pub backoff_ms : ℕ → ℕ → ℕ
backoff_ms attempt random = 2 ^ attempt * 50 + random

-- tokenCache, with its instant of expiry in seconds
pub record TokenCache : Type 0 where
  pub value : String
  pub expires : ℕ

-- appToken at the instant `now`: `fetched` is what the request for a token gives, the token and its
-- life, with the instant at which it is stored
unfoldable pub app_token :
    ℕ → Result RequestError (String × ℕ) → ℕ → TokenCache → Result RequestError String × TokenCache
app_token now fetched stored c =
    if not (str_eq c.value "") && ltb (now + 60) c.expires then (ok c.value, c) else elim fetched [
      | err e ↦ (err e, c)
      | ok (token, life) ↦ (ok token, record { value = token; expires = stored + life })
    ]
