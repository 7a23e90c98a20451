-- ===== src/Access/Limits/Buckets.antt =====
-- The two classifications of a request in security.go, and what the CSRF check asks for.
use apekeeper.Common.{
  refl, ◌≡◌, ◌≢◌, String, false, ◌&&◌, ◌||◌, str_eq, Bool-cases, inl, inr, arith, Option, none,
  some, ok, eq_iff, ap, sym, ◌==◌,
}
use apekeeper.Access.Limits.{
  SecurityLimits, Shape, category, bucket, bucket_limit, csrf, is_safe_method, auth_path, sync_path,
  export_path, limit_requests_by_category, ℕ, Bucket, RateLimiter, same_bucket, true,
}

-- A request that is limited is counted in the bucket that has the limit of its category, unless it
-- is a GET of an export below the authentication or sync paths.
pub bucket_limit-category :
    (l : SecurityLimits) (r : Shape)
    → (str_eq r.method "GET" && export_path r && (auth_path r || sync_path r)) ≡ false
    → (category l r).0 ≢ 0
    → bucket_limit l (bucket r) ≡ (category l r).0
unfolding bucket_limit category bucket
bucket_limit-category l r h n = ground arith

same_bucket_sound : (b c : Bucket) → same_bucket b c ≡ true → b ≡ c
same_bucket_sound b c h = ground arith

-- A request leaves the limiters of all buckets but its own as they were.
pub limit_requests_by_category_other :
    (l : SecurityLimits) (r : Shape) (host : String) (now : ℕ) (limiters : Bucket → RateLimiter)
    (b : Bucket)
    → b ≢ bucket r
    → (limit_requests_by_category l r host now limiters).1 b ≡ limiters b
unfolding limit_requests_by_category
limit_requests_by_category_other l r host now limiters b n =
    elim (Bool-cases ((category l r).0 == 0)) [
      | inl e ↦ rw e refl
      | inr e ↦ elim (Bool-cases (same_bucket b (bucket r))) [
        | inl f ↦ absurd (n (same_bucket_sound b (bucket r) f))
        | inr f ↦ rw (e, f) refl
      ]
    ]

csrf_cookie :
    (method token value : String)
    → is_safe_method method ≡ false
    → csrf method (some value) token ≡ ok tt
    → (token ≡ value) × (token ≢ "")
unfolding csrf
csrf_cookie method token value u h = elim (Bool-cases (str_eq token "")) [
  | inl e ↦ absurd (ground arith)
  | inr e ↦ elim (Bool-cases (str_eq token value)) [
    | inl f ↦ ((eq_iff token value).0 f, λ z. ground (arith, (eq_iff token "").1 z))
    | inr f ↦ absurd (ground arith)
  ]
]

-- A request with an unsafe method passes the CSRF check only with a token that is not empty and
-- is the value of its cookie.
pub csrf_unsafe :
    (method token : String) (cookie : Option String)
    → is_safe_method method ≡ false
    → csrf method cookie token ≡ ok tt
    → (cookie ≡ some token) × (token ≢ "")
unfolding csrf
csrf_unsafe method token none u h = ground arith
csrf_unsafe method token (some value) u h =
    let c = csrf_cookie method token value u h in (ap some (sym c.0), c.1)
