-- ===== src/Storage/Comparison/Compared.antt =====
-- What two snapshots characterHistory compares.
use mathlib.Core.List.{Memᴰ}
use apekeeper.Common.{
  ◌++◌, ◌∙◌, ap, ◌≢◌, ℕ, ◌==◌, ◌≡◌, ◌⊎◌, Bool, true, if◌then◌else◌, Option, none, some, List, [],
  ◌∷◌, ok, inl, inr, arith, Bool-cases, Option-cases, IsSorted, All, length, subst, ◌<◌, String, ℤ,
  Result-cases,
}
use apekeeper.Domain.{Snapshot}
use apekeeper.Access.History.{
  parse_history_query, IsBoundedHistory, parse_history_query-IsBoundedHistory, history_max_days,
}
use apekeeper.Storage.Tables.{older}
use apekeeper.Storage.Series.{history-IsWindow, in_range}
use apekeeper.Storage.Comparison.{
  last_with, last_two, compare_snapshots, HistoryQuery, character_history, HistoryError, Database,
  HistoryView, path_id, history,
}

last_with-mem :
    (id : ℕ) (xs : List Snapshot) (found : Option Snapshot) (x : Snapshot)
    → last_with id xs found ≡ some x
    → (found ≡ some x) ⊎ (Memᴰ x xs × (x.id ≡ id))
unfolding last_with
last_with-mem id [] found x h = inl h
last_with-mem id (y ∷ ys) found x h =
    elim (last_with-mem id ys (if y.id == id then some y else found) x h) [
      | inr (mem, same) ↦ inr (Memᴰ.tail mem, same)
      | inl here ↦ elim (Bool-cases (y.id == id)) [
        | inr n ↦ inl (ground arith)
        | inl e ↦ let is_y : x ≡ y = ground arith in inr (Memᴰ.head is_y, ground arith)
      ]
    ]

-- the two stand at the end of the series
last_two-end :
    (xs : List Snapshot) (x y : Snapshot)
    → last_two xs ≡ some (x, y)
    → (front : List Snapshot) × (xs ≡ front ++ x ∷ y ∷ [])
unfolding last_two
last_two-end [] x y h = absurd (ground arith)
last_two-end (a ∷ []) x y h = absurd (ground arith)
last_two-end (a ∷ b ∷ []) x y h =
    let is_x : a ≡ x = ground arith in
    let is_y : b ≡ y = ground arith in ([], ap (λ z. z ∷ b ∷ []) is_x ∙ ap (λ z. x ∷ z ∷ []) is_y)
last_two-end (a ∷ b ∷ c ∷ rest) x y h =
    let (front, q) = last_two-end (b ∷ c ∷ rest) x y h in (a ∷ front, ap (λ l. a ∷ l) q)

last_two-none : (xs : List Snapshot) → last_two xs ≡ none → length xs < 2
unfolding last_two
last_two-none [] h = omega arith
last_two-none (a ∷ []) h = omega arith
last_two-none (a ∷ b ∷ []) h = absurd (ground arith)
last_two-none (a ∷ b ∷ c ∷ rest) h =
    let shorter = last_two-none (b ∷ c ∷ rest) h in absurd (omega arith)

-- What is compared: the two snapshots of the two ids, or without ids the last two of the series, and
-- nothing only if no ids are given and there are no two.
unfoldable pub IsCompared : HistoryQuery → List Snapshot → Option (Snapshot × Snapshot) → Type 0
IsCompared q snaps none = (q.left ≡ 0) × (length snaps < 2)
IsCompared q snaps (some (before, after)) =
    ((q.left ≡ 0) × ((front : List Snapshot) × (snaps ≡ front ++ before ∷ after ∷ [])))
    ⊎ ((q.left ≢ 0)
        × Memᴰ before snaps
        × Memᴰ after snaps
        × (before.id ≡ q.left)
        × (after.id ≡ q.right))

compare_snapshots-IsCompared :
    (q : HistoryQuery) (snaps : List Snapshot) (c : Option (Snapshot × Snapshot))
    → compare_snapshots q.left q.right snaps ≡ ok c
    → IsCompared q snaps c
unfolding compare_snapshots IsCompared
compare_snapshots-IsCompared q snaps c h = elim (Bool-cases (q.left == 0)) [
  | inl z ↦ by_order c (ground arith)
  | inr n ↦ elim (Option-cases (last_with q.left snaps none)) [
    | inl e ↦ absurd (ground arith)
    | inr (b, e) ↦ elim (Option-cases (last_with q.right snaps none)) [
      | inl f ↦ absurd (ground arith)
      | inr (a, f) ↦
          let is_pair : some (b, a) ≡ c = ground arith in
          let left = found q.left b e in
          let right = found q.right a f in
          subst (IsCompared q snaps) is_pair
            (inr ((λ z. ground arith), left.0, right.0, left.1, right.1))
    ]
  ]
]
  where
    found : (id : ℕ) (x : Snapshot) → last_with id snaps none ≡ some x → Memᴰ x snaps × (x.id ≡ id)
    found id x e = elim (last_with-mem id snaps none x e) [
      | inl f ↦ absurd (ground arith)
      | inr m ↦ m
    ]

    by_order :
        (c : Option (Snapshot × Snapshot))
        → (q.left ≡ 0) × (last_two snaps ≡ c)
        → IsCompared q snaps c
    by_order none (z, e) = (z, last_two-none snaps e)
    by_order (some (x, y)) (z, e) = inl (z, last_two-end snaps x y e)

abbrev pub IsAnswered :
    (String → Option ℕ)
    → (String → Option ℤ)
    → (String → String)
    → ℕ
    → ℕ
    → Option ℤ
    → Database
    → HistoryView
    → Type 0
IsAnswered parse_time parse_int query now guild path t v =
    IsBoundedHistory parse_time parse_int query now v.query
    × ((id : ℕ) × (path_id path ≡ some id)
        × All (λ x. in_range guild id v.query.from v.query.to t.characters x ≡ true) v.snapshots)
    × IsSorted older v.snapshots
    × IsCompared v.query v.snapshots v.comparison

-- Every history that is answered has a query within its bounds and shows snapshots of the character
-- of the path in the guild and the range only, oldest first. It compares the shown snapshots of the
-- two ids that the query gives, or without ids exactly the last two that it shows, where there are
-- two.
pub character_history-IsCompared :
    (message : HistoryError → String) (fault : Bool) (retention guild : ℕ) (path : Option ℤ)
    (parse_time : String → Option ℕ) (parse_int : String → Option ℤ) (query : String → String)
    (now : ℕ) (t : Database) (v : HistoryView)
    → character_history message fault retention guild path
        (parse_history_query parse_time parse_int query now)
        t
      ≡ ok v
    → IsAnswered parse_time parse_int query now guild path t v
unfolding character_history
character_history-IsCompared message fault retention guild path parse_time parse_int query now t v
      h =
    elim (Option-cases (path_id path)) [
      | inl e ↦ absurd (ground arith)
      | inr (id, e) ↦ elim (Result-cases (parse_history_query parse_time parse_int query now)) [
        | inr (x, f) ↦ absurd (ground arith)
        | inl (q, f) ↦
            let snaps = history guild id q.from q.to q.limit t in
            let window = history-IsWindow guild id q.from q.to q.limit t in
            elim (Bool-cases fault) [
              | inl b ↦ absurd (ground arith)
              | inr b ↦ elim (Result-cases (compare_snapshots q.left q.right snaps)) [
                | inr (x, k) ↦ absurd (ground arith)
                | inl (c, k) ↦
                    let made : record {
                      query = q;
                      retention_days = if retention == 0 then history_max_days else retention;
                      snapshots = snaps;
                      comparison = c;
                    }
                        ≡ v =
                      ground arith in
                    subst (IsAnswered parse_time parse_int query now guild path t) made (
                      parse_history_query-IsBoundedHistory parse_time parse_int query now q f,
                      (id, e, window.2),
                      window.0,
                      compare_snapshots-IsCompared q snaps c k,
                    )
              ]
            ]
      ]
    ]
