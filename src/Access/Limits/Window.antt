-- ===== src/Access/Limits/Window.antt =====
-- The limiter of security.go against its reference: the log of all the instants it has admitted.
use apekeeper.Common.{
  ℕ, ◌≤◌, ◌≡◌, refl, ◌∙◌, sym, ap, String, true, false, leb, ltb, str_eq, if◌then◌else◌, Bool-cases,
  inl, inr, arith, List, [], ◌∷◌, ◌++◌, length, All, eq_iff, All-append, subst,
}
use apekeeper.Access.Limits.{RateLimiter, new_rate_limiter, allow, drop_past, is_past}

-- the instants of a log that are less than a window ago
unfoldable pub recent : ℕ → ℕ → List ℕ → List ℕ
recent window now [] = []
recent window now (h ∷ hs) =
    let rest = recent window now hs in if is_past window now h then rest else h ∷ rest

-- requests of any keys in their order, with the log of what the limiter admits at one of the keys
unfoldable pub run_allow : String → List (String × ℕ) → RateLimiter → List ℕ → List ℕ
run_allow key [] l log = log
run_allow key ((k, t) ∷ rs) l log =
    run_allow key rs (allow k t l).1
      (if str_eq key k then (if (allow k t l).0 then log ++ t ∷ [] else log) else log)

-- The reference: at one key, an instant is admitted if the log has fewer than `limit` recent ones.
unfoldable pub run_log : ℕ → ℕ → String → List (String × ℕ) → List ℕ → List ℕ
run_log limit window key [] log = log
run_log limit window key ((k, t) ∷ rs) log = run_log limit window key rs (
    if str_eq key k
    then (if ltb (length (recent window t log)) limit then log ++ t ∷ [] else log)
    else log)

abbrev IsAscending : List ℕ → Type 0
IsAscending [] = Unit
IsAscending (h ∷ hs) = All (λ x. h ≤ x) hs × IsAscending hs

-- instants that do not go back before `last`
abbrev pub IsClock : ℕ → List (String × ℕ) → Type 0
IsClock last [] = Unit
IsClock last ((k, t) ∷ rs) = (last ≤ t) × IsClock t rs

module _ (w : ℕ) where
  recent-append :
      (now : ℕ) (xs ys : List ℕ) → recent w now (xs ++ ys) ≡ recent w now xs ++ recent w now ys
  unfolding recent
  recent-append now [] ys = refl
  recent-append now (x ∷ xs) ys = elim (Bool-cases (is_past w now x)) [
    | inl e ↦ rw (e, recent-append now xs ys) refl
    | inr e ↦ rw (e, recent-append now xs ys) refl
  ]

  recent-All :
      (now : ℕ) (h : ℕ) (hs : List ℕ)
      → is_past w now h ≡ false
      → All (λ x. h ≤ x) hs
      → recent w now hs ≡ hs
  unfolding recent
  recent-All now h [] e a = refl
  recent-All now h (x ∷ hs) e (le, a) =
      let f : is_past w now x ≡ false = ground arith in rw (f, recent-All now h hs e a) refl

  drop_past-recent : (now : ℕ) (hs : List ℕ) → IsAscending hs → drop_past w now hs ≡ recent w now hs
  unfolding drop_past recent
  drop_past-recent now [] a = refl
  drop_past-recent now (h ∷ hs) (b, a) = elim (Bool-cases (is_past w now h)) [
    | inl e ↦ rw e (drop_past-recent now hs a)
    | inr e ↦ rw (e, recent-All now h hs e b) refl
  ]

  recent-recent :
      (now later : ℕ) (hs : List ℕ)
      → now ≤ later
      → recent w later (recent w now hs) ≡ recent w later hs
  unfolding recent
  recent-recent now later [] le = refl
  recent-recent now later (h ∷ hs) le = elim (Bool-cases (is_past w now h)) [
    | inl e ↦
        let f : is_past w later h ≡ true = ground arith in rw (e, f) (recent-recent now later hs le)
    | inr e ↦ rw (e, recent-recent now later hs le) refl
  ]

  All-recent : (P : ℕ → Type 0) (now : ℕ) (hs : List ℕ) → All P hs → All P (recent w now hs)
  unfolding recent
  All-recent P now [] a = tt
  All-recent P now (h ∷ hs) (p, a) = elim (Bool-cases (is_past w now h)) [
    | inl e ↦ rw e (All-recent P now hs a)
    | inr e ↦ rw e (p, All-recent P now hs a)
  ]

  IsAscending-recent : (now : ℕ) (hs : List ℕ) → IsAscending hs → IsAscending (recent w now hs)
  unfolding recent
  IsAscending-recent now [] a = tt
  IsAscending-recent now (h ∷ hs) (b, a) = elim (Bool-cases (is_past w now h)) [
    | inl e ↦ rw e (IsAscending-recent now hs a)
    | inr e ↦ rw e (All-recent _ now hs b, IsAscending-recent now hs a)
  ]

IsAscending-snoc :
    (t : ℕ) (hs : List ℕ) → IsAscending hs → All (λ x. x ≤ t) hs → IsAscending (hs ++ t ∷ [])
IsAscending-snoc t [] a b = (tt, tt)
IsAscending-snoc t (h ∷ hs) (c, a) (le, b) =
    (All-append _ hs (t ∷ []) c (le, tt), IsAscending-snoc t hs a b)

All-le : (last t : ℕ) (hs : List ℕ) → last ≤ t → All (λ x. x ≤ last) hs → All (λ x. x ≤ t) hs
All-le last t [] le a = tt
All-le last t (h ∷ hs) le (p, a) = (omega arith, All-le last t hs le a)

-- What the limiter holds at a key of which `log` was admitted by the instant `last`.
record IsMirror (window last : ℕ) (hits log : List ℕ) : Type 0 where
  ascending : IsAscending hits
  bounded : All (λ x. x ≤ last) hits
  agrees : (now : ℕ) → last ≤ now → recent window now hits ≡ recent window now log

IsMirror-later :
    (w last t : ℕ) (hits log : List ℕ) → last ≤ t → IsMirror w last hits log → IsMirror w t hits log
IsMirror-later w last t hits log le v = record {
  ascending = v.ascending;
  bounded = All-le last t hits le v.bounded;
  agrees = λ now k. v.agrees now (omega arith);
}

IsMirror-refused :
    (w t : ℕ) (hits log : List ℕ) → IsMirror w t hits log → IsMirror w t (recent w t hits) log
IsMirror-refused w t hits log v = record {
  ascending = IsAscending-recent w t hits v.ascending;
  bounded = All-recent w _ t hits v.bounded;
  agrees = λ now k. recent-recent w t now hits k ∙ v.agrees now k;
}

IsMirror-admitted :
    (w t : ℕ) (hits log : List ℕ)
    → IsMirror w t hits log
    → IsMirror w t (hits ++ t ∷ []) (log ++ t ∷ [])
IsMirror-admitted w t hits log v = record {
  ascending = IsAscending-snoc t hits v.ascending v.bounded;
  bounded = All-append _ hits (t ∷ []) v.bounded (omega arith, tt);
  agrees = λ now k.
      rw (recent-append w now hits (t ∷ []), recent-append w now log (t ∷ []), v.agrees now k) refl;
}

module _ (key k : String) (l : RateLimiter) (t : ℕ) (log : List ℕ) where
  length-old :
      IsMirror l.window t (l.hits k) log
      → length (drop_past l.window t (l.hits k)) ≡ length (recent l.window t log)
  length-old v =
      ap length (drop_past-recent l.window t (l.hits k) v.ascending ∙ v.agrees t (omega arith))

  -- the limiter after a request at the key itself
  allow-IsMirror :
      IsMirror l.window t (l.hits k) log
      → IsMirror l.window t
          ((allow k t l).1.hits k)
          (if (allow k t l).0 then log ++ t ∷ [] else log)
  unfolding allow
  allow-IsMirror v = elim (Bool-cases (leb l.limit (length (drop_past l.window t (l.hits k))))) [
    | inl e ↦
        rw (e, (eq_iff k k).1 refl, drop_past-recent l.window t (l.hits k) v.ascending)
          (IsMirror-refused l.window t (l.hits k) log v)
    | inr e ↦
        rw (e, (eq_iff k k).1 refl, drop_past-recent l.window t (l.hits k) v.ascending)
          (IsMirror-admitted l.window t _ log (IsMirror-refused l.window t (l.hits k) log v))
  ]

  allow-ltb :
      IsMirror l.window t (l.hits k) log
      → (allow k t l).0 ≡ ltb (length (recent l.window t log)) l.limit
  unfolding allow
  allow-ltb v = ground (arith, length-old v)

  allow-same : ((allow k t l).1.limit ≡ l.limit) × ((allow k t l).1.window ≡ l.window)
  unfolding allow
  allow-same = ground arith

  allow-other : str_eq key k ≡ false → (allow k t l).1.hits key ≡ l.hits key
  unfolding allow
  allow-other n = elim (Bool-cases (leb l.limit (length (drop_past l.window t (l.hits k))))) [
    | inl e ↦ rw (e, n) refl
    | inr e ↦ rw (e, n) refl
  ]

  allow-mirrored :
      IsMirror l.window t (l.hits key) log
      → str_eq key k ≡ true
      → IsMirror
          (allow k t l).1.window
          t
          ((allow k t l).1.hits key)
          (if (allow k t l).0 then log ++ t ∷ [] else log)
        × ((allow k t l).0 ≡ ltb (length (recent l.window t log)) l.limit)
  allow-mirrored v e =
      let q = (eq_iff key k).0 e in
      let u = subst (λ x. IsMirror l.window t (l.hits x) log) q v in
      (
        subst
            (λ x.
              IsMirror x t ((allow k t l).1.hits key)
                (if (allow k t l).0 then log ++ t ∷ [] else log))
            (sym allow-same.1)
            (subst
              (λ x.
                IsMirror l.window t ((allow k t l).1.hits x)
                  (if (allow k t l).0 then log ++ t ∷ [] else log))
              (sym q) (allow-IsMirror u)),
        allow-ltb u,
      )

  allow-unmirrored :
      IsMirror l.window t (l.hits key) log
      → str_eq key k ≡ false
      → IsMirror (allow k t l).1.window t ((allow k t l).1.hits key) log
  allow-unmirrored v n =
      subst (λ x. IsMirror x t ((allow k t l).1.hits key) log) (sym allow-same.1)
        (subst (λ x. IsMirror l.window t x log) (sym (allow-other n)) v)

run_allow-run_log_at :
    (key : String) (rs : List (String × ℕ)) (l : RateLimiter) (limit window last : ℕ) (log : List ℕ)
    → (l.limit ≡ limit) × (l.window ≡ window)
    → IsMirror l.window last (l.hits key) log
    → IsClock last rs
    → run_allow key rs l log ≡ run_log limit window key rs log
unfolding run_allow run_log
run_allow-run_log_at key [] l limit window last log q v c = refl
run_allow-run_log_at key ((k, t) ∷ rs) l limit window last log (q, r) v (le, c) =
    let later = IsMirror-later l.window last t (l.hits key) log le v in
    let same = allow-same key k l t log in
    elim (Bool-cases (str_eq key k)) [
      | inl e ↦
          let m = allow-mirrored key k l t log later e in
          rw e (
            run_allow-run_log_at key rs (allow k t l).1 limit window t _ (same.0 ∙ q, same.1 ∙ r)
              m.0 c
            ∙ ap (λ b. run_log limit window key rs (if b then log ++ t ∷ [] else log))
                (m.1
                  ∙ ap (λ x. ltb (length (recent x t log)) l.limit) r
                  ∙ ap (λ n. ltb (length (recent window t log)) n) q))
      | inr e ↦ rw e (
          run_allow-run_log_at key rs (allow k t l).1 limit window t log (same.0 ∙ q, same.1 ∙ r)
            (allow-unmirrored key k l t log later e) c)
    ]

-- Over any sequence of requests, of this key and others, on a clock that does not go back, the
-- limiter admits at a key exactly the requests before which fewer than `limit` were admitted at
-- that key within the window, however much of its log it has dropped.
pub run_allow-run_log :
    (limit window : ℕ) (key : String) (rs : List (String × ℕ))
    → IsClock 0 rs
    → run_allow key rs (new_rate_limiter limit window) [] ≡ run_log limit window key rs []
unfolding new_rate_limiter
run_allow-run_log limit window key rs c =
    run_allow-run_log_at key rs (new_rate_limiter limit window) limit window 0 [] (refl, refl)
      (record { ascending = tt; bounded = tt; agrees = λ now k. refl }) c
