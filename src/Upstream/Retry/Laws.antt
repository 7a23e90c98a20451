-- ===== src/Upstream/Retry/Laws.antt =====
-- How often a request is sent, and what ends it.
use apekeeper.Common.{
  ℕ, zero, suc, ◌+◌, ◌≤◌, ◌<◌, ◌≡◌, ◌≢◌, refl, String, Bool, true, false, ltb, ◌==◌, if◌then◌else◌,
  Option, none, some, Result, ok, err, arith, Bool-cases, Option-cases, inl, inr, ◌/◌, subst, ◌↔◌,
  ◌∙◌, ◌⊎◌, ap, not, str_eq, eq_iff, ◌&&◌, ltb→lt,
}
use apekeeper.Upstream.Retry.{
  Sent, unsent, responded, Attempt, RequestError, http_status, retries_exhausted, Verdict, done,
  retry, judge, attempt, request_from, request, TokenCache, app_token, max_attempts, is_transient,
}

module _ {ℓ} {A : Type ℓ} where
  -- a verdict that does not say that the attempts are used up
  abbrev IsOpen : Verdict A → Type 0
  IsOpen (done (ok a)) = Unit
  IsOpen (done (err e)) = e ≢ retries_exhausted
  IsOpen (retry e d) = e ≢ retries_exhausted

  judge-IsOpen : (backoff : ℕ) (s : Sent A) → IsOpen (judge backoff s)
  unfolding judge
  judge-IsOpen backoff (unsent e) = λ q. cc
  judge-IsOpen backoff (responded status after none) = elim (Bool-cases (status == 404)) [
    | inl e ↦ rw e (λ q. cc)
    | inr e ↦ elim (Bool-cases (is_transient status)) [
      | inl f ↦ rw (e, f) (λ q. cc)
      | inr f ↦ elim (Bool-cases (status / 100 == 2)) [
        | inl g ↦ rw (e, f, g) (λ q. cc)
        | inr g ↦ rw (e, f, g) (λ q. cc)
      ]
    ]
  ]
  judge-IsOpen backoff (responded status after (some a)) = elim (Bool-cases (status == 404)) [
    | inl e ↦ rw e (λ q. cc)
    | inr e ↦ elim (Bool-cases (is_transient status)) [
      | inl f ↦ rw (e, f) (λ q. cc)
      | inr f ↦ elim (Bool-cases (status / 100 == 2)) [
        | inl g ↦ rw (e, f, g) tt
        | inr g ↦ rw (e, f, g) (λ q. cc)
      ]
    ]
  ]

  judge_transient :
      (backoff status after : ℕ) (body : Option A)
      → is_transient status ≡ true
      → (d : ℕ) × (judge backoff (responded status after body) ≡ retry (http_status status) d)
  unfolding judge
  judge_transient backoff status after body f =
      let e : (status == 404) ≡ false = ground arith in rw (e, f) (_, refl)

  judge_final :
      (backoff status after : ℕ) (body : Option A)
      → is_transient status ≡ false
      → (r : Result RequestError A) × (judge backoff (responded status after body) ≡ done r)
  unfolding judge
  judge_final backoff status after body f = elim (Bool-cases (status == 404)) [
    | inl e ↦ rw e (_, refl)
    | inr e ↦ elim (Bool-cases (status / 100 == 2)) [
      | inl g ↦ rw (e, f, g) (_, refl)
      | inr g ↦ rw (e, f, g) (_, refl)
    ]
  ]

  module _ (namespaced : Bool) (world : ℕ → Attempt A) where
    -- Attempt `i` asks for another one, and its wait for the delay is not cut short.
    abbrev pub Continues : ℕ → Type ℓ
    Continues i =
        (e : RequestError) × (delay : ℕ) × (attempt namespaced (world i) ≡ retry e delay)
        × ((world i).waited delay ≡ none)

    attempt-IsOpen : (w : Attempt A) → IsOpen (attempt namespaced w)
    unfolding attempt
    attempt-IsOpen w = elim (Option-cases w.admitted) [
      | inr (e, q) ↦ simp (q, attempt) (λ z. cc)
      | inl q ↦ elim (Option-cases w.built) [
        | inr (e, b) ↦ simp (q, b, attempt) (λ z. cc)
        | inl b ↦ elim (Option-cases (if namespaced then w.token else none)) [
          | inr (e, f) ↦ simp (q, b, f, attempt) (λ z. cc)
          | inl f ↦ simp (q, b, f, attempt) (judge-IsOpen w.backoff w.sent)
        ]
      ]
    ]

    abbrev IsBounded : ℕ → ℕ → Result RequestError A × ℕ → Type ℓ
    IsBounded i left r = (r.0 ≢ err retries_exhausted) × (i < r.1) × (r.1 ≤ i + left)

    after_attempt :
        (i left : ℕ) (v : Verdict A)
        → attempt namespaced (world i) ≡ v
        → IsOpen v
        → (0 < left → IsBounded (i + 1) left (request_from namespaced world (i + 1) left))
        → IsBounded i (suc left) (request_from namespaced world i (suc left))
    unfolding request_from
    after_attempt i left (done (ok a)) q o rest =
        simp (q, request_from) ((λ z. cc), omega arith, omega arith)
    after_attempt i left (done (err e)) q o rest =
        simp (q, request_from) ((λ z. o cc), omega arith, omega arith)
    after_attempt i left (retry e d) q o rest = elim (Bool-cases (left == 0)) [
      | inl z ↦ simp (q, z, request_from) ((λ z. o cc), omega arith, omega arith)
      | inr z ↦ elim (Option-cases ((world i).waited d)) [
        | inr (f, w) ↦ simp (q, z, w, request_from) ((λ z. cc), omega arith, omega arith)
        | inl w ↦
            let r = rest (ground arith) in
            simp (q, z, w, request_from) (r.0, omega (arith, r.1), omega (arith, r.2))
      ]
    ]

    request_from-IsBounded :
        (i left : ℕ) → 0 < left → IsBounded i left (request_from namespaced world i left)
    request_from-IsBounded i zero h = absurd (omega arith)
    request_from-IsBounded i (suc left) h =
        after_attempt i left _ refl (attempt-IsOpen (world i)) (request_from-IsBounded (i + 1) left)

    request_from-at :
        (n i left : ℕ) (r : Result RequestError A)
        → ((j : ℕ) → j < n → Continues (i + j))
        → n < left
        → attempt namespaced (world (i + n)) ≡ done r
        → request_from namespaced world i left ≡ (r, i + n + 1)
    unfolding request_from
    request_from-at n i zero r h l q = absurd (omega arith)
    request_from-at zero i (suc left) r h l q =
        let q0 : attempt namespaced (world i) ≡ done r =
          subst (λ x. attempt namespaced (world x) ≡ done r) (omega arith) q in
        simp (q0, request_from) (ap (λ x. (r, x)) (omega arith))
    request_from-at (suc n) i (suc left) r h l q =
        let c : Continues i = subst Continues (omega arith) (h 0 (omega arith)) in
        let z : (left == 0) ≡ false = ground arith in
        simp (c.2, z, c.3, request_from)
          (subst (λ x. request_from namespaced world (i + 1) left ≡ (r, x + 1)) (omega arith)
            (request_from-at n (i + 1) left r
              (λ j k. subst Continues (omega arith) (h (suc j) (omega arith))) (omega arith)
              (subst (λ x. attempt namespaced (world x) ≡ done r) (omega arith) q)))

    -- A request is sent at least once and at most five times, and its last line, the error that
    -- says that the retries are exhausted, is never reached.
    pub request-IsBounded :
        ((request namespaced world).0 ≢ err retries_exhausted)
        × (0 < (request namespaced world).1)
        × ((request namespaced world).1 ≤ max_attempts)
    unfolding request
    request-IsBounded = request_from-IsBounded 0 5 (omega arith)

    -- If the attempts before number `n`, counted from 0, ask for another one, `n` is at most 4 and
    -- attempt `n` has a final result, then this is the request's result, after n + 1 attempts.
    pub request_at :
        (n : ℕ) (r : Result RequestError A)
        → n < max_attempts
        → ((j : ℕ) → j < n → Continues j)
        → attempt namespaced (world n) ≡ done r
        → request namespaced world ≡ (r, n + 1)
    unfolding request
    request_at n r l h q =
        request_from-at n 0 5 r (λ j k. subst Continues (omega arith) (h j k)) l
          (subst (λ x. attempt namespaced (world x) ≡ done r) (omega arith) q)
        ∙ ap (λ x. (r, x)) (omega arith)

    first_attempt :
        (status after : ℕ) (body : Option A)
        → (world 0).admitted ≡ none
        → (world 0).built ≡ none
        → (if namespaced then (world 0).token else none) ≡ none
        → (world 0).sent ≡ responded status after body
        → attempt namespaced (world 0) ≡ judge (world 0).backoff (responded status after body)
    unfolding attempt
    first_attempt status after body a b t s = simp (a, b, t, s, attempt) refl

    next_attempt :
        (e : RequestError) (d i left : ℕ)
        → attempt namespaced (world i) ≡ retry e d
        → (world i).waited d ≡ none
        → 0 < left
        → i + 1 < (request_from namespaced world i (suc left)).1
    unfolding request_from
    next_attempt e d i left q w h =
        let z : (left == 0) ≡ false = ground arith in
        simp (q, w, z, request_from) (request_from-IsBounded (i + 1) left h).1

    second_attempt :
        (e : RequestError) (d : ℕ)
        → attempt namespaced (world 0) ≡ retry e d
        → (world 0).waited d ≡ none
        → 1 < (request namespaced world).1
    unfolding request
    second_attempt e d q w = next_attempt e d 0 4 q w (omega arith)

    -- A reply is asked for again exactly if its status is 429 or at least 500: every other one, a
    -- 404 among them, ends the request at its first attempt. The limiter, the construction of the
    -- request and the token are assumed to give no error, and no wait to be cut short.
    pub request_first :
        (status after : ℕ) (body : Option A)
        → (world 0).admitted ≡ none
        → (world 0).built ≡ none
        → (if namespaced then (world 0).token else none) ≡ none
        → (world 0).sent ≡ responded status after body
        → ((d : ℕ) → (world 0).waited d ≡ none)
        → ((request namespaced world).1 ≡ 1) ↔ (is_transient status ≡ false)
    request_first status after body a b t s w =
        let first = first_attempt status after body a b t s in
        elim (Bool-cases (is_transient status)) [
          | inl f ↦
              let j = judge_transient (world 0).backoff status after body f in
              let more = second_attempt (http_status status) j.0 (first ∙ j.1) (w j.0) in
              ((λ one. absurd (omega arith)), (λ g. absurd (ground arith)))
          | inr f ↦
              let j = judge_final (world 0).backoff status after body f in
              (
                (λ one. f),
                (λ g.
                    ap (λ x. x.1)
                      (request_at 0 j.0 (omega arith) (λ k l. absurd (omega arith)) (first ∙ j.1))),
              )
        ]

module _ (now stored : ℕ) (c : TokenCache) where
  abbrev IsFresh : Result RequestError (String × ℕ) → Type 0
  IsFresh fetched =
      let r = app_token now fetched stored c in
      ((r ≡ (ok c.value, c)) × (c.value ≢ "") × (now + 60 < c.expires))
      ⊎ (((e : RequestError) × (fetched ≡ err e) × (r ≡ (err e, c)))
          ⊎ ((t : String) × (life : ℕ) × (fetched ≡ ok (t, life))
              × (r.0 ≡ ok r.1.value)
              × (r.1.value ≡ t)))

  fetched-IsFresh :
      (fetched : Result RequestError (String × ℕ))
      → (not (str_eq c.value "") && ltb (now + 60) c.expires) ≡ false
      → IsFresh fetched
  unfolding app_token
  fetched-IsFresh (err e) h = rw h (inr (inl (e, refl, refl)))
  fetched-IsFresh (ok (t, life)) h = rw h (inr (inr (t, life, refl, refl, refl)))

  cached-IsFresh :
      (fetched : Result RequestError (String × ℕ))
      → str_eq c.value "" ≡ false
      → ltb (now + 60) c.expires ≡ true
      → IsFresh fetched
  unfolding app_token
  cached-IsFresh fetched e f =
      rw (e, f)
        (inl (refl, (λ z. ground (arith, (eq_iff c.value "").1 z)), ltb→lt (now + 60) c.expires f))

-- A token that appToken gives from its cache is not empty and lives for more than a minute; any
-- other is a fetched one, which the cache then holds, and a failed fetch leaves the cache alone.
pub app_token-fresh :
    (now stored : ℕ) (fetched : Result RequestError (String × ℕ)) (c : TokenCache)
    → let r = app_token now fetched stored c in
      ((r ≡ (ok c.value, c)) × (c.value ≢ "") × (now + 60 < c.expires))
      ⊎ (((e : RequestError) × (fetched ≡ err e) × (r ≡ (err e, c)))
          ⊎ ((t : String) × (life : ℕ) × (fetched ≡ ok (t, life))
              × (r.0 ≡ ok r.1.value)
              × (r.1.value ≡ t)))
app_token-fresh now stored fetched c = elim (Bool-cases (str_eq c.value "")) [
  | inl e ↦ fetched-IsFresh now stored c fetched (ground arith)
  | inr e ↦ elim (Bool-cases (ltb (now + 60) c.expires)) [
    | inl f ↦ cached-IsFresh now stored c fetched e f
    | inr f ↦ fetched-IsFresh now stored c fetched (ground arith)
  ]
]
