-- ===== src/Upstream/Retry/Tries.antt =====
-- How often a request of blizzard/client.go is sent, said by the attempts alone.
use apekeeper.Common.{
  ℕ, ◌+◌, ◌-◌, ◌/◌, ◌≤◌, ◌<◌, ◌≡◌, ◌⊎◌, Bool, true, false, ◌&&◌, ◌||◌, leb, ◌==◌, if◌then◌else◌,
  Option, none, some, Result, ok, err,
}
use apekeeper.Upstream.Retry.{Sent, unsent, responded, Attempt, RequestError, Verdict, done, retry}

abbrev is_none {ℓ} : {A : Type ℓ} → Option A → Bool
is_none none = true
is_none (some a) = false

module _ {ℓ} {A : Type ℓ} where
  -- no reply, or one with status 429 or at least 500
  unfoldable pub is_busy : Sent A → Bool
  is_busy (unsent e) = true
  is_busy (responded status after body) = status == 429 || leb 500 status

  -- what the server asks to wait, or else the backoff
  unfoldable pub delay_of : ℕ → Sent A → ℕ
  delay_of backoff (unsent e) = backoff
  delay_of backoff (responded status after body) = if after == 0 then backoff else after

  -- An attempt is followed by another one: nothing failed before the reply, the reply is busy, and
  -- the wait was not cut short.
  unfoldable pub asks_again : Bool → Attempt A → Bool
  asks_again namespaced w =
      is_none w.admitted
      && is_none w.built
      && is_none (if namespaced then w.token else none)
      && is_busy w.sent
      && is_none (w.waited (delay_of w.backoff w.sent))

  -- the reply is a success with this body
  abbrev pub IsAnswer : Attempt A → A → Type ℓ
  IsAnswer w a =
      (status : ℕ) × (after : ℕ) × (w.sent ≡ responded status after (some a))
      × ((status / 100 == 2) ≡ true)

  -- what a verdict says of the attempt
  abbrev Fits : Bool → Attempt A → Verdict A → Type ℓ
  Fits namespaced w (done (ok a)) = (asks_again namespaced w ≡ false) × IsAnswer w a
  Fits namespaced w (done (err e)) = (asks_again namespaced w ≡ false) × Unit {ℓ}
  Fits namespaced w (retry e d) = (asks_again namespaced w ≡ is_none (w.waited d)) × Unit {ℓ}

  module _ (namespaced : Bool) (world : ℕ → Attempt A) where
    -- Of the attempts from number `i`, at most `left`, all but the last ask again, and the last does
    -- not unless there are no more; a result that is no error is the body of the last one's reply.
    pub record IsTried (i left : ℕ) (r : Result RequestError A × ℕ) : Type ℓ where
      pub sent : i < r.1
      pub bounded : r.1 ≤ i + left
      pub asked : (j : ℕ) → i ≤ j → j + 1 < r.1 → asks_again namespaced (world j) ≡ true
      pub ended : (r.1 ≡ i + left) ⊎ (asks_again namespaced (world (r.1 - 1)) ≡ false)
      pub answered : (a : A) → r.0 ≡ ok a → IsAnswer (world (r.1 - 1)) a
