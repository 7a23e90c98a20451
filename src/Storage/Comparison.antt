-- ===== src/Storage/Comparison.antt =====
-- httpapi/api.go: characterHistory, the snapshots of a character in a range and the two of them that
-- are compared. The answer's deltas are the differences of the fields of the two.
pub mod Compared
use apekeeper.Common.{
  ℕ, ◌==◌, String, Bool, if◌then◌else◌, Option, none, some, List, [], ◌∷◌, Result, ok, err, ℤ,
}
use apekeeper.Domain.{Snapshot}
use apekeeper.Access.{Refusal, refusal}
use apekeeper.Access.Members.{path_id}
use apekeeper.Access.History.{HistoryError, HistoryQuery, history_max_days}
use apekeeper.Storage.Tables.{Database}
use apekeeper.Storage.Series.{history}

-- the loop that looks for an id, which keeps the last one
unfoldable pub last_with : ℕ → List Snapshot → Option Snapshot → Option Snapshot
last_with id [] found = found
last_with id (x ∷ xs) found = last_with id xs (if x.id == id then some x else found)

-- `snaps[len(snaps)-2], snaps[len(snaps)-1]`
unfoldable pub last_two : List Snapshot → Option (Snapshot × Snapshot)
last_two [] = none
last_two (x ∷ []) = none
last_two (x ∷ y ∷ []) = some (x, y)
last_two (x ∷ y ∷ z ∷ rest) = last_two (y ∷ z ∷ rest)

-- the part on `comparison`
unfoldable pub compare_snapshots :
    ℕ → ℕ → List Snapshot → Result Refusal (Option (Snapshot × Snapshot))
unfolding last_with last_two
compare_snapshots left right snaps =
    if left == 0 then ok (last_two snaps) else elim (last_with left snaps none) [
      | none ↦ err (refusal 400 "comparison snapshots are unavailable")
      | some before ↦ elim (last_with right snaps none) [
        | none ↦ err (refusal 400 "comparison snapshots are unavailable")
        | some after ↦ ok (some (before, after))
      ]
    ]

pub record HistoryView : Type 0 where
  pub query : HistoryQuery
  pub retention_days : ℕ
  pub snapshots : List Snapshot
  pub comparison : Option (Snapshot × Snapshot)

-- characterHistory, with what parseHistoryQuery gives; `message` is the text of its error
unfoldable pub character_history :
    (HistoryError → String)
    → Bool
    → ℕ
    → ℕ
    → Option ℤ
    → Result HistoryError HistoryQuery
    → Database
    → Result Refusal HistoryView
unfolding compare_snapshots history
character_history message fault retention guild path parsed t = elim (path_id path) [
  | none ↦ err (refusal 400 "invalid character id")
  | some id ↦ elim parsed [
    | err e ↦ err (refusal 400 (message e))
    | ok q ↦
        if fault
        then err (refusal 500 "history lookup failed")
        else let snaps = history guild id q.from q.to q.limit t in
          elim (compare_snapshots q.left q.right snaps) [
            | err e ↦ err e
            | ok comparison ↦ ok (record {
              query = q;
              retention_days = if retention == 0 then history_max_days else retention;
              snapshots = snaps;
              comparison = comparison;
            })
          ]
  ]
]
