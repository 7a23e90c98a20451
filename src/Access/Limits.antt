-- ===== src/Access/Limits.antt =====
-- backend/internal/httpapi/security.go: the sliding window that limits requests, the buckets that
-- requests fall into and the CSRF check. Instants are natural numbers on one clock.
pub mod Window
pub mod Buckets
use Prim.Native.String
use text.Mathlib.Text.{starts_with}
use apekeeper.Common.{
  ℕ, ◌+◌, String, Bool, true, false, not, ◌&&◌, ◌||◌, leb, str_eq, if◌then◌else◌, Option, none,
  some, List, [], ◌∷◌, ◌++◌, length, Result, ok, err, ◌==◌,
}
use apekeeper.Access.{Refusal, refusal}

pub record RateLimiter : Type 0 where
  -- the map `hits`: a key that was never used has no hits
  pub hits : String → List ℕ
  pub limit : ℕ
  pub window : ℕ

-- newRateLimiter
unfoldable pub new_rate_limiter : ℕ → ℕ → RateLimiter
new_rate_limiter limit window = record { hits = λ key. []; limit = limit; window = window }

-- `!old[i].After(now.Add(-l.window))`
abbrev pub is_past : ℕ → ℕ → ℕ → Bool
is_past window now hit = leb (hit + window) now

-- the loop that advances `i` and the slice after it
unfoldable pub drop_past : ℕ → ℕ → List ℕ → List ℕ
drop_past window now [] = []
drop_past window now (h ∷ hs) =
    let rest = drop_past window now hs in if is_past window now h then rest else h ∷ hs

abbrev pub put_hits : String → List ℕ → RateLimiter → RateLimiter
put_hits key hs l = record l { hits = λ k. if str_eq k key then hs else l.hits k }

-- allow
unfoldable pub allow : String → ℕ → RateLimiter → Bool × RateLimiter
unfolding drop_past
allow key now l =
    let old = drop_past l.window now (l.hits key) in
    if leb l.limit (length old)
    then (false, put_hits key old l)
    else (true, put_hits key (old ++ now ∷ []) l)

-- The parts of a request that SecurityLimits.category and limitRequestsByCategory read.
pub record Shape : Type 0 where
  pub method : String
  pub path : String

-- strings.HasSuffix
unfoldable pub has_suffix : String → String → Bool
has_suffix String.[] suffix = str_eq String.[] suffix
has_suffix (String.◌∷◌ c s) suffix =
    let rest = has_suffix s suffix in str_eq (String.◌∷◌ c s) suffix || rest

abbrev pub auth_path : Shape → Bool
auth_path r = starts_with r.path "/api/auth/"

abbrev pub sync_path : Shape → Bool
sync_path r = starts_with r.path "/api/sync/"

abbrev pub export_path : Shape → Bool
export_path r = has_suffix r.path "/export"

pub record SecurityLimits : Type 0 where
  pub auth : ℕ
  pub sync : ℕ
  pub export : ℕ
  pub mutation : ℕ
  pub auth_body : ℕ
  pub sync_body : ℕ
  pub export_body : ℕ
  pub mutation_body : ℕ

abbrev pub is_safe_method : String → Bool
is_safe_method method = str_eq method "GET" || str_eq method "HEAD" || str_eq method "OPTIONS"

-- SecurityLimits.category: the limit of requests and of the body, 0 for none
unfoldable pub category : SecurityLimits → Shape → ℕ × ℕ
category l r =
    if auth_path r
    then (l.auth, l.auth_body)
    else if sync_path r
    then (l.sync, l.sync_body)
    else if str_eq r.method "GET" && export_path r
    then (l.export, l.export_body)
    else if not (is_safe_method r.method)
    then (l.mutation, l.mutation_body)
    else (0, 0)

pub data Bucket : Type 0 where
  auth_bucket : Bucket
  sync_bucket : Bucket
  export_bucket : Bucket
  mutation_bucket : Bucket

-- the name of the limiter that limitRequestsByCategory asks
unfoldable pub bucket : Shape → Bucket
bucket r =
    if str_eq r.method "GET" && export_path r
    then export_bucket
    else if auth_path r
    then auth_bucket
    else if sync_path r
    then sync_bucket
    else mutation_bucket

-- the limit that the limiter of a bucket is made with
unfoldable pub bucket_limit : SecurityLimits → Bucket → ℕ
bucket_limit l auth_bucket = l.auth
bucket_limit l sync_bucket = l.sync
bucket_limit l export_bucket = l.export
bucket_limit l mutation_bucket = l.mutation

-- the limiters that limitRequestsByCategory makes
unfoldable pub open_limiters : SecurityLimits → ℕ → Bucket → RateLimiter
unfolding new_rate_limiter bucket_limit
open_limiters l window b = new_rate_limiter (bucket_limit l b) window

abbrev pub same_bucket : Bucket → Bucket → Bool
same_bucket auth_bucket auth_bucket = true
same_bucket sync_bucket sync_bucket = true
same_bucket export_bucket export_bucket = true
same_bucket mutation_bucket mutation_bucket = true
same_bucket _ _ = false

-- limitRequestsByCategory: a request of a category without a limit passes, any other asks the
-- limiter of its bucket, by the host that it comes from
unfoldable pub limit_requests_by_category :
    SecurityLimits
    → Shape
    → String
    → ℕ
    → (Bucket → RateLimiter)
    → Result Refusal (Unit {0}) × (Bucket → RateLimiter)
unfolding category bucket allow
limit_requests_by_category l r host now limiters =
    if (category l r).0 == 0
    then (ok tt, limiters)
    else let a = allow host now (limiters (bucket r)) in
      (
        if a.0 then ok tt else err (refusal 429 "rate limit exceeded"),
        λ b. if same_bucket b (bucket r) then a.1 else limiters b,
      )

-- csrf: the cookie's token and the header's, "" for a header that is missing
unfoldable pub csrf : String → Option String → String → Result Refusal (Unit {0})
csrf method cookie token = if is_safe_method method then ok tt else elim cookie [
  | none ↦ err (refusal 403 "csrf validation failed")
  | some value ↦
      if str_eq token "" || not (str_eq token value)
      then err (refusal 403 "csrf validation failed")
      else ok tt
]
