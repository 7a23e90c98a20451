-- ===== src/Roster/Params/Laws.antt =====
-- What parseRosterQuery accepts, and that the roster and the export read a query alike.
use apekeeper.Common.{
  ℕ, ◌≡◌, refl, ap, subst, String, Bool, true, false, not, ◌||◌, ltb, str_eq, if◌then◌else◌, Option,
  none, some, ℤ, Result, ok, err, bind-ok, arith, inl, inr, Result-cases, guard-ok, Bool-cases,
  Option-cases,
}
use apekeeper.Roster.{CharacterFilter, CharacterSort}
use apekeeper.Roster.Params.{
  parse_numbers, Float, RosterQuery, is_filter_role, is_lifecycle, is_natural, is_up_to, one_of,
  is_too_long, integer, optional_integer, optional_rating, parse_stale, roster_alias, parse_age,
  parse_texts, parse_filter, parse_sort, parse_order, parse_roster_query, is_bad_direction,
  parse_character_sort,
}

-- A number that is given passes the test.
abbrev pub Holds : {A : Type 0} → (A → Bool) → Option A → Type 0
Holds p none = Unit
Holds p (some v) = p v ≡ true

abbrev pub is_age : ℕ → Bool
is_age n = not (ltb 3650 n)

abbrev pub is_absent_or : (String → Bool) → String → Bool
is_absent_or p s = str_eq s "" || p s

-- The bounds of a filter: no number is negative, a level is at most 100 and an age at most 3650
-- days, the role and the status are known ones or missing, and no text is too long.
pub record IsBoundedFilter (f : CharacterFilter) : Type 0 where
  pub rank : Holds is_natural f.rank
  pub level : Holds (is_up_to 100) f.min_level
  pub rating : Holds is_natural f.min_rating
  pub progress : Holds is_natural f.min_raid_progress
  pub age : Holds is_age f.max_age
  pub role : is_absent_or is_filter_role f.role ≡ true
  pub status : is_absent_or is_lifecycle f.officer_status ≡ true
  pub lengths : is_too_long f ≡ false

one_of-absent_or :
    (p : String → Bool) (message s t : String) → one_of p message s ≡ ok t → is_absent_or p s ≡ true
unfolding one_of
one_of-absent_or p message s t h = ground arith

module _ (atoi : String → Option ℤ) (parse_float : String → Option Float)
    (get : String → String) where
  optional_integer-Holds :
      (p : ℤ → Bool) (message s : String) (o : Option ℤ)
      → optional_integer atoi parse_float get p message s ≡ ok o
      → Holds p o
  unfolding optional_integer integer
  optional_integer-Holds p message s none h = tt
  optional_integer-Holds p message s (some v) h = ground arith

  optional_rating-Holds :
      (s : String) (o : Option ℤ)
      → optional_rating atoi parse_float get s ≡ ok o
      → Holds is_natural o
  unfolding optional_rating
  optional_rating-Holds s none h = tt
  optional_rating-Holds s (some v) h = ground arith

  parse_age-Holds :
      (s : String) (o : Option ℕ) → parse_age atoi parse_float get s ≡ ok o → Holds is_age o
  unfolding parse_age integer
  parse_age-Holds s none h = tt
  parse_age-Holds s (some n) h = ground arith

  numbers :
      (before : ℕ) (f : CharacterFilter)
      → parse_numbers atoi parse_float get before ≡ ok f
      → Holds is_natural f.rank × Holds (is_up_to 100) f.min_level × Holds is_natural f.min_rating
  unfolding parse_numbers
  numbers before f h =
      let (rank, r, h1) =
        bind-ok
          (optional_integer atoi parse_float get is_natural "invalid roster rank" (get "rank")) _ f
          h in
      let (level, l, h2) =
        bind-ok
          (optional_integer atoi parse_float get (is_up_to 100) "invalid minimum level"
            (get "minLevel"))
          _ f h1 in
      let (rating, g, h3) =
        bind-ok (optional_rating atoi parse_float get (get "minRating")) _ f h2 in
      let (stale, s, h4) = bind-ok (parse_stale atoi parse_float get before) _ f h3 in
      subst
        (λ x.
          Holds is_natural x.rank
          × Holds (is_up_to 100) x.min_level
          × Holds is_natural x.min_rating)
        (guard-ok false "" _ f h4).1
        (
          optional_integer-Holds is_natural "invalid roster rank" (get "rank") rank r,
          optional_integer-Holds (is_up_to 100) "invalid minimum level" (get "minLevel") level l,
          optional_rating-Holds (get "minRating") rating g,
        )

  texts :
      (n f : CharacterFilter)
      → parse_texts atoi parse_float get n ≡ ok f
      → (is_too_long f ≡ false)
        × (f.rank ≡ n.rank)
        × (f.min_level ≡ n.min_level)
        × (f.min_rating ≡ n.min_rating)
  unfolding parse_texts
  texts n f h =
      let (season, a, h1) =
        bind-ok (roster_alias atoi parse_float get "mythicSeason" "season") _ f h in
      let (tier, b, h2) = bind-ok (roster_alias atoi parse_float get "raidTier" "raid") _ f h1 in
      let (status, c, h3) =
        bind-ok (roster_alias atoi parse_float get "officerStatus" "status") _ f h2 in
      let (tag, d, h4) = bind-ok (roster_alias atoi parse_float get "officerTag" "tag") _ f h3 in
      let (short, e) = guard-ok _ _ _ f h4 in
      subst
        (λ x.
          (is_too_long x ≡ false)
          × (x.rank ≡ n.rank)
          × (x.min_level ≡ n.min_level)
          × (x.min_rating ≡ n.min_rating))
        e (short, refl, refl, refl)

  filter-IsBoundedFilter :
      (before : ℕ) (f : CharacterFilter)
      → parse_filter atoi parse_float get before ≡ ok f
      → IsBoundedFilter f
  unfolding parse_filter
  filter-IsBoundedFilter before f h =
      let (n, m, h0) = bind-ok (parse_numbers atoi parse_float get before) _ f h in
      let (g, t, h1) = bind-ok (parse_texts atoi parse_float get n) _ f h0 in
      let (role, r, h2) = bind-ok (one_of is_filter_role "invalid roster role" g.role) _ f h1 in
      let (status, s, h3) =
        bind-ok (one_of is_lifecycle "invalid officer status" g.officer_status) _ f h2 in
      let (text, a, h4) =
        bind-ok (roster_alias atoi parse_float get "minRaidProgress" "raidProgress") _ f h3 in
      let (progress, p, h5) =
        bind-ok (optional_integer atoi parse_float get is_natural "invalid raid progress" text) _ f
          h4 in
      let (age_text, b, h6) =
        bind-ok (roster_alias atoi parse_float get "activityAge" "activityAgeDays") _ f h5 in
      let (age, c, h7) = bind-ok (parse_age atoi parse_float get age_text) _ f h6 in
      let (rank, level, rating) = numbers before n m in
      let (short, same_rank, same_level, same_rating) = texts n g t in
      subst IsBoundedFilter (guard-ok false "" _ f h7).1 (record {
        rank = rw same_rank rank;
        level = rw same_level level;
        rating = rw same_rating rating;
        progress = optional_integer-Holds is_natural "invalid raid progress" text progress p;
        age = parse_age-Holds age_text age c;
        role = one_of-absent_or is_filter_role "invalid roster role" g.role role r;
        status = one_of-absent_or is_lifecycle "invalid officer status" g.officer_status status s;
        lengths = short;
      })

  order-filter :
      (s : CharacterSort) (f : CharacterFilter) (q : RosterQuery)
      → parse_order atoi parse_float get s f ≡ ok q
      → f ≡ q.filter
  unfolding parse_order
  order-filter s f q h =
      let (sort, k, h1) = bind-ok (parse_sort atoi parse_float get s) _ q h in
      ap (λ x. x.filter) (guard-ok _ _ _ q h1).1

  -- Every roster query that is accepted, however its numbers are read, has a filter within the
  -- bounds: no number is negative, a level is at most 100, an age at most 3650 days, role and status
  -- are known ones or missing, and no text is longer than its limit.
  pub parse_roster_query-IsBoundedFilter :
      (before : ℕ) (default_sort : CharacterSort) (q : RosterQuery)
      → parse_roster_query atoi parse_float get before default_sort ≡ ok q
      → IsBoundedFilter q.filter
  unfolding parse_roster_query
  parse_roster_query-IsBoundedFilter before default_sort q h =
      let (f, k, h1) = bind-ok (parse_filter atoi parse_float get before) _ q h in
      subst IsBoundedFilter (order-filter default_sort f q h1) (filter-IsBoundedFilter before f k)

  -- The sort of a query that names none is replaced.
  abbrev pub with_default : CharacterSort → Result String RosterQuery → Result String RosterQuery
  with_default s (err e) = err e
  with_default s (ok q) = ok (if str_eq (get "sort") "" then record q { sort = s } else q)

  order-with_default :
      (s d : CharacterSort) (f : CharacterFilter)
      → parse_order atoi parse_float get s f ≡ with_default s (parse_order atoi parse_float get d f)
  unfolding parse_order parse_sort
  order-with_default s d f = elim (Bool-cases (is_bad_direction (get "direction"))) [
    | inl b ↦ elim (Bool-cases (str_eq (get "sort") "")) [
      | inl e ↦ rw (e, parse_order, parse_sort, b)
      | inr e ↦ elim (Option-cases (parse_character_sort (get "sort"))) [
        | inl k ↦ rw (e, parse_order, parse_sort, k)
        | inr (x, k) ↦ rw (e, parse_order, parse_sort, k, b)
      ]
    ]
    | inr b ↦ elim (Bool-cases (str_eq (get "sort") "")) [
      | inl e ↦ rw (e, parse_order, parse_sort, b) (rw e)
      | inr e ↦ elim (Option-cases (parse_character_sort (get "sort"))) [
        | inl k ↦ rw (e, parse_order, parse_sort, k)
        | inr (x, k) ↦ rw (e, parse_order, parse_sort, k, b) (rw e)
      ]
    ]
  ]

  -- Two readings of a query with different default sorts are alike but for the sort, and where the
  -- query names a sort they are the same; what one refuses, the other refuses with the same message.
  pub parse_roster_query-with_default :
      (before : ℕ) (s d : CharacterSort)
      → parse_roster_query atoi parse_float get before s
        ≡ with_default s (parse_roster_query atoi parse_float get before d)
  unfolding parse_roster_query
  parse_roster_query-with_default before s d =
      elim (Result-cases (parse_filter atoi parse_float get before)) [
        | inr (e, h) ↦ rw (h, parse_roster_query)
        | inl (f, h) ↦ rw (h, parse_roster_query) (order-with_default s d f)
      ]
