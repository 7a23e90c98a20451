-- ===== src/Access/History.antt =====
-- httpapi/api.go: parseHistoryQuery, the range, the limit and the comparison of a history request.
-- A query gives the text of a parameter, "" for one that is missing; instants are in seconds.
use apekeeper.Common.{
  ℕ, ◌+◌, ◌-◌, ◌*◌, ◌≤◌, ◌<◌, ◌≡◌, ◌≢◌, ◌⊎◌, String, Bool, false, not, ◌&&◌, ◌||◌, ◌==◌, ltb,
  str_eq, if◌then◌else◌, Option, none, some, Result, ok, err, ◌>>=◌, ℤ, pos, ltz, is_pos, to_ℕ,
  arith, Bool-cases, Result-cases, inl, inr, subst,
}

abbrev pub day : ℕ
day = 86400

abbrev pub history_max_days : ℕ
history_max_days = 90

abbrev pub history_max_limit : ℕ
history_max_limit = 500

pub data HistoryError : Type 0 where
  invalid_date range_too_long invalid_limit invalid_id not_two_ids : HistoryError

-- what the query returns without an error
pub record HistoryQuery : Type 0 where
  pub from : ℕ
  pub to : ℕ
  pub limit : ℕ
  pub left : ℕ
  pub right : ℕ

-- parseDate; `parse_time` is time.Parse with RFC 3339
unfoldable pub parse_date : (String → Option ℕ) → String → ℕ → Result HistoryError ℕ
parse_date parse_time v fallback =
    if str_eq v ""
    then ok fallback
    else elim (parse_time v) [ none ↦ err invalid_date | some x ↦ ok x ]

-- parseID; `parse_int` is strconv.ParseInt
unfoldable pub parse_id : (String → Option ℤ) → String → Result HistoryError ℕ
parse_id parse_int v = if str_eq v "" then ok 0 else elim (parse_int v) [
  | none ↦ err invalid_id
  | some id ↦ if is_pos id then ok (to_ℕ id) else err invalid_id
]

-- the default of 200, or the parameter `limit` within its bounds
unfoldable pub parse_limit : (String → Option ℤ) → String → Result HistoryError ℕ
parse_limit parse_int v = if str_eq v "" then ok 200 else elim (parse_int v) [
  | none ↦ err invalid_limit
  | some n ↦
      if ltz n (pos 1) || ltz (pos history_max_limit) n then err invalid_limit else ok (to_ℕ n)
]

-- the test of the range
unfoldable pub is_bad_range : ℕ → ℕ → ℕ → Bool
is_bad_range now from to =
    ltb to from || ltb (history_max_days * day) (to - from) || ltb (now + day) to

-- the test of the two ids
unfoldable pub is_bad_pair : ℕ → ℕ → Bool
is_bad_pair left right =
    (left == 0 && not (right == 0))
    || (not (left == 0) && right == 0)
    || (left == right && not (left == 0))

module _ (parse_time : String → Option ℕ) (parse_int : String → Option ℤ) (query : String → String)
    (now : ℕ) where
  -- the part after the range
  unfoldable pub parse_selection : ℕ → ℕ → Result HistoryError HistoryQuery
  unfolding parse_limit parse_id is_bad_pair
  parse_selection from to = parse_limit parse_int (query "limit") >>= λ limit.
      parse_id parse_int (query "compareFrom") >>= λ left.
      parse_id parse_int (query "compareTo") >>= λ right.
      if is_bad_pair left right
      then err not_two_ids
      else ok (record { from = from; to = to; limit = limit; left = left; right = right })

  -- parseHistoryQuery
  unfoldable pub parse_history_query : Result HistoryError HistoryQuery
  unfolding parse_date is_bad_range parse_selection
  parse_history_query = parse_date parse_time (query "from") (now - 30 * day) >>= λ from.
      parse_date parse_time (query "to") now >>= λ to.
      if is_bad_range now from to then err range_too_long else parse_selection from to

  -- The bounds of a history: a range of at most 90 days that ends at most a day from now, between 1
  -- and 500 snapshots, and no comparison or two different snapshots to compare.
  pub record IsBoundedHistory (q : HistoryQuery) : Type 0 where
    ordered : q.from ≤ q.to
    short : q.to ≤ q.from + history_max_days * day
    present : q.to ≤ now + day
    nonempty : 0 < q.limit
    capped : q.limit ≤ history_max_limit
    paired : ((q.left ≡ 0) × (q.right ≡ 0)) ⊎ ((q.left ≢ 0) × (q.right ≢ 0) × (q.left ≢ q.right))

  parse_limit-bounds :
      (v : String) (n : ℕ) → parse_limit parse_int v ≡ ok n → (0 < n) × (n ≤ history_max_limit)
  unfolding parse_limit
  parse_limit-bounds v n h = ground arith

  is_bad_pair-paired :
      (left right : ℕ)
      → is_bad_pair left right ≡ false
      → ((left ≡ 0) × (right ≡ 0)) ⊎ ((left ≢ 0) × (right ≢ 0) × (left ≢ right))
  unfolding is_bad_pair
  is_bad_pair-paired left right h = ground arith

  selected :
      (from to : ℕ) (q : HistoryQuery)
      → is_bad_range now from to ≡ false
      → parse_selection from to ≡ ok q
      → IsBoundedHistory q
  unfolding parse_selection is_bad_range
  selected from to q b h = elim (Result-cases (parse_limit parse_int (query "limit"))) [
    | inr (e, l) ↦ absurd (ground arith)
    | inl (n, l) ↦ elim (Result-cases (parse_id parse_int (query "compareFrom"))) [
      | inr (e, i) ↦ absurd (ground arith)
      | inl (left, i) ↦ elim (Result-cases (parse_id parse_int (query "compareTo"))) [
        | inr (e, j) ↦ absurd (ground arith)
        | inl (right, j) ↦ elim (Bool-cases (is_bad_pair left right)) [
          | inl p ↦ absurd (ground arith)
          | inr p ↦
              let made : record { from = from; to = to; limit = n; left = left; right = right }
                  ≡ q =
                ground arith in
              subst IsBoundedHistory made (record {
                ordered = ground arith;
                short = ground arith;
                present = ground arith;
                nonempty = (parse_limit-bounds (query "limit") n l).0;
                capped = (parse_limit-bounds (query "limit") n l).1;
                paired = is_bad_pair-paired left right p;
              })
        ]
      ]
    ]
  ]

  -- Every history query that is accepted, whatever its parameters and however the dates and numbers
  -- in them are read, has a range of at most 90 days in order that ends at most a day from now, asks
  -- for 1 to 500 snapshots, and compares none or two different ones.
  pub parse_history_query-IsBoundedHistory :
      (q : HistoryQuery) → parse_history_query ≡ ok q → IsBoundedHistory q
  unfolding parse_history_query
  parse_history_query-IsBoundedHistory q h =
      elim (Result-cases (parse_date parse_time (query "from") (now - 30 * day))) [
        | inr (e, i) ↦ absurd (ground arith)
        | inl (from, i) ↦ elim (Result-cases (parse_date parse_time (query "to") now)) [
          | inr (e, j) ↦ absurd (ground arith)
          | inl (to, j) ↦ elim (Bool-cases (is_bad_range now from to)) [
            | inl b ↦ absurd (ground arith)
            | inr b ↦ selected from to q b (ground arith)
          ]
        ]
      ]
