-- ===== src/Storage/Capture.antt =====
-- Captures of the same values over the database of store/progression.go.
use apekeeper.Common.{
  ℕ, ◌≡◌, refl, not, ◌&&◌, ltb, ◌==◌, any, String, Bool, true, false, Option, none, some, List, ◌∷◌,
  [], ◌++◌, All, Bool-cases, inl, inr, ◌⊎◌, arith, ok, keep, Option-cases, sort_by, insert_by,
  eqz_refl, sym, ◌∙◌, ap, eqz, if◌then◌else◌, str_eq,
}
use apekeeper.Domain.{Snapshot, snapshot_changed}
use apekeeper.Sync.Engine.{SyncError, stored, capture, store_error}
use apekeeper.Storage.{last_snapshot, insert_snapshot, database_stores}
use apekeeper.Storage.Tables.{
  snapshot_row, Server, Database, reads_last, inserts_snapshot, newer, head, same_capture,
}

keep-add :
    (p : Snapshot → Bool) (xs : List Snapshot) (x : Snapshot)
    → p x ≡ true
    → keep p (xs ++ x ∷ []) ≡ keep p xs ++ x ∷ []
keep-add p [] x h = rw h
keep-add p (y ∷ ys) x h = elim (Bool-cases (p y)) [
  | inl e ↦ rw (e, keep-add p ys x h)
  | inr e ↦ rw (e, keep-add p ys x h)
]

head-insert_by :
    (x y : Snapshot) (l : List Snapshot)
    → head l ≡ some x
    → newer y x ≡ false
    → head (insert_by newer y l) ≡ some x
head-insert_by x y [] h k = absurd (ground arith)
head-insert_by x y (z ∷ zs) h k = ground arith

newest-sort_by :
    (x : Snapshot) (xs : List Snapshot)
    → All (λ y. newer y x ≡ false) xs
    → head (sort_by newer (xs ++ x ∷ [])) ≡ some x
newest-sort_by x [] h = refl
newest-sort_by x (y ∷ ys) h =
    head-insert_by x y (sort_by newer (ys ++ x ∷ [])) (newest-sort_by x ys h.1) h.0

-- Every snapshot of the same character is earlier.
abbrev pub IsLatest : Snapshot → List Snapshot → Type 0
IsLatest x =
    All (λ s. (s.character_id == x.character_id && not (ltb s.captured_at x.captured_at)) ≡ false)

earlier :
    (x row : Snapshot) (xs : List Snapshot)
    → row.character_id ≡ x.character_id
    → row.captured_at ≡ x.captured_at
    → IsLatest x xs
    → All (λ y. newer y row ≡ false) (keep (λ y. y.character_id == x.character_id) xs)
earlier x row [] i c h = tt
earlier x row (y ∷ ys) i c h = elim (Bool-cases (y.character_id == x.character_id)) [
  | inl e ↦ rw e (ground arith, earlier x row ys i c h.1)
  | inr e ↦ rw e (earlier x row ys i c h.1)
]

-- The columns give the values of the snapshot back as they are.
unfoldable pub is_stable : Server → Snapshot → Bool
is_stable server x =
    eqz (server.numeric_6_2 x.item_level) x.item_level
    && eqz (server.numeric_8_2 x.mythic_rating) x.mythic_rating
    && str_eq (server.jsonb x.raid_progress) x.raid_progress

changed-is_stable :
    (server : Server) (i before : ℕ) (x : Snapshot)
    → snapshot_changed (snapshot_row server i (record x { captured_at = before })) x
      ≡ not (is_stable server x)
unfolding snapshot_changed is_stable snapshot_row
changed-is_stable server i before x = ground (arith, eqz_refl x.best_key_level)

some-ne-none : (e : SyncError) → some e ≡ none → ⊥
some-ne-none e h = cc

store_error-none : (o : Option String) → store_error o ≡ none → o ≡ none
store_error-none none h = refl
store_error-none (some e) h = absurd (some-ne-none (stored e) h)

-- the last snapshot of the same character
unfoldable pub last_of : Snapshot → Database → Option Snapshot
last_of x t = head (sort_by newer (keep (λ s. s.character_id == x.character_id) t.snapshots))

module _ (server : Server) where
  read-last_of :
      (x : Snapshot) (t : Database)
      → server.refuses (reads_last x.character_id) t ≡ none
      → last_snapshot server x.character_id t ≡ ok (last_of x t)
  unfolding last_snapshot last_of
  read-last_of x t k = rw (k, last_snapshot)

  -- over a last snapshot with the same values, a capture writes nothing, also where its read is
  -- refused
  capture-still :
      (x y : Snapshot) (t : Database)
      → last_of y t ≡ some x
      → snapshot_changed x y ≡ false
      → (capture (database_stores server) y t).1 ≡ t
  unfolding capture last_snapshot
  capture-still x y t q h = elim (Option-cases (server.refuses (reads_last y.character_id) t)) [
    | inr (e, k) ↦ rw (k, capture, last_snapshot)
    | inl k ↦ rw (read-last_of y t k, q, capture, h)
  ]

  -- where an insert ends without an error, its row is the last one
  insert-last :
      (x : Snapshot) (t : Database)
      → IsLatest x t.snapshots
      → (insert_snapshot server x t).0 ≡ none
      → last_of x (insert_snapshot server x t).1 ≡ some (snapshot_row server t.next_snapshot x)
  unfolding insert_snapshot last_of snapshot_row
  insert-last x t h q = elim (Option-cases (server.refuses (inserts_snapshot x) t)) [
    | inr (e, k) ↦ absurd (ground arith)
    | inl k ↦ elim (Bool-cases (any (λ old. same_capture old x) t.snapshots)) [
      | inl d ↦ absurd (ground arith)
      | inr d ↦
          let row = snapshot_row server t.next_snapshot x in
          let p : Snapshot → Bool = λ s. s.character_id == x.character_id in
          rw (k, insert_snapshot, d)
            (rw (keep-add p t.snapshots row (ground arith))
              (newest-sort_by row (keep p t.snapshots) (earlier x row t.snapshots refl refl h)))
    ]
  ]

  insert-still :
      (x : Snapshot) (later : ℕ) (t : Database)
      → is_stable server x ≡ true
      → IsLatest x t.snapshots
      → store_error (insert_snapshot server x t).0 ≡ none
      → let u = (insert_snapshot server x t).1 in
        (capture (database_stores server) (record x { captured_at = later }) u).1 ≡ u
  unfolding is_stable last_of
  insert-still x later t st h q =
      let y : Snapshot = record x { captured_at = later } in
      capture-still (snapshot_row server t.next_snapshot x) y (insert_snapshot server x t).1
        (insert-last x t h (store_error-none (insert_snapshot server x t).0 q))
        (changed-is_stable server t.next_snapshot x.captured_at y ∙ ap not st)

  -- the three ways in which a capture ends
  capture-cases :
      (x : Snapshot) (t : Database)
      → ((e : SyncError) × (capture (database_stores server) x t ≡ (some e, t)))
        ⊎ (capture (database_stores server) x t
            ≡ (store_error (insert_snapshot server x t).0, (insert_snapshot server x t).1))
        ⊎ ((prev : Snapshot) × (last_of x t ≡ some prev)
            × (snapshot_changed prev x ≡ false)
            × (capture (database_stores server) x t ≡ (none, t)))
  unfolding capture last_snapshot
  capture-cases x t = elim (Option-cases (server.refuses (reads_last x.character_id) t)) [
    | inr (e, k) ↦ inl (stored e, rw (k, capture, last_snapshot))
    | inl k ↦ elim (Option-cases (last_of x t)) [
      | inl q ↦ inr (inl (rw (read-last_of x t k, q, capture)))
      | inr (prev, q) ↦ elim (Bool-cases (snapshot_changed prev x)) [
        | inl d ↦ inr (inl (rw (read-last_of x t k, q, capture, d)))
        | inr d ↦ inr (inr (prev, q, d, rw (read-last_of x t k, q, capture, d)))
      ]
    ]
  ]

  -- After a capture that ends without an error, of a snapshot that is later than every stored one of
  -- its character and whose values the columns give back as they are, capturing the same values at
  -- any later time writes nothing, whether or not the database answers then.
  pub capture_twice :
      (x : Snapshot) (later : ℕ) (t : Database)
      → is_stable server x ≡ true
      → IsLatest x t.snapshots
      → (capture (database_stores server) x t).0 ≡ none
      → let u = (capture (database_stores server) x t).1 in
        (capture (database_stores server) (record x { captured_at = later }) u).1 ≡ u
  unfolding last_of snapshot_changed
  capture_twice x later t st h q = elim (capture-cases x t) [
    | inl (e, k) ↦ absurd (some-ne-none e (sym (ap (λ r. r.0) k) ∙ q))
    | inr (inl k) ↦ rw k (insert-still x later t st h (sym (ap (λ r. r.0) k) ∙ q))
    | inr (inr (prev, l, d, k)) ↦ rw k (capture-still prev (record x { captured_at = later }) t l d)
  ]

  -- Where the last snapshot of a character was stored with the very values that are captured again,
  -- and the read is answered, nothing is written if the columns give the values back as they are,
  -- and another snapshot is inserted if the rounding or the text of the jsonb value changes one.
  pub capture_again :
      (x : Snapshot) (i before : ℕ) (t : Database)
      → last_of x t ≡ some (snapshot_row server i (record x { captured_at = before }))
      → server.refuses (reads_last x.character_id) t ≡ none
      → capture (database_stores server) x t ≡ (
          if is_stable server x
          then (none, t)
          else (store_error (insert_snapshot server x t).0, (insert_snapshot server x t).1))
  unfolding capture last_snapshot
  capture_again x i before t l k = elim (Bool-cases (is_stable server x)) [
    | inl e ↦ rw (read-last_of x t k, l, capture, changed-is_stable server i before x, e)
    | inr e ↦ rw (read-last_of x t k, l, capture, changed-is_stable server i before x, e)
  ]
