-- ===== src/Sync/Engine/Mythic/Order.antt =====
-- The order of the run lists and the best values that a season's row records.
use mathlib.Core.List.{Perm}
use mathlib.Core.List.Perm
use apekeeper.Common.{
  ℕ, ◌≡◌, refl, Bool, true, false, if◌then◌else◌, List, [], ◌∷◌, map, ℤ, pos, ltz, eqz, arith, All,
  Bool-cases, inl, inr,
}
use apekeeper.Domain.{Character}
use apekeeper.Upstream.{MythicRunEntry, SeasonProfile}
use apekeeper.Sync.Engine.{MythicRun}
use apekeeper.Sync.Engine.Anchor.{TierAnchor, max_season, max_season-bound}
use apekeeper.Sync.Engine.Mythic.{better, newer, insert_run, sort_runs, best_level, found_row}

-- No run stands right after one that it should precede.
abbrev pub IsSorted : (MythicRun → MythicRun → Bool) → List MythicRun → Type 0
IsSorted less [] = Unit
IsSorted less (x ∷ []) = Unit
IsSorted less (x ∷ y ∷ ys) = (less y x ≡ false) × IsSorted less (y ∷ ys)

module _ (less : MythicRun → MythicRun → Bool) where
  insert_run-perm : (x : MythicRun) (ys : List MythicRun) → Perm (insert_run less x ys) (x ∷ ys)
  unfolding insert_run
  insert_run-perm x [] = Perm.refl (x ∷ [])
  insert_run-perm x (y ∷ ys) = elim (Bool-cases (less y x)) [
    | inl e ↦ rw e (Perm.trans (Perm.cons y (insert_run-perm x ys)) (Perm.swap x y ys))
    | inr e ↦ rw e (Perm.refl (x ∷ y ∷ ys))
  ]

  pub sort_runs-perm : (xs : List MythicRun) → Perm (sort_runs less xs) xs
  unfolding sort_runs
  sort_runs-perm [] = Perm.refl []
  sort_runs-perm (x ∷ xs) =
      Perm.trans (insert_run-perm x (sort_runs less xs)) (Perm.cons x (sort_runs-perm xs))

  module _ (asym : (a b : MythicRun) → less a b ≡ true → less b a ≡ false) where
    insert_run-IsSorted :
        (x : MythicRun) (ys : List MythicRun)
        → IsSorted less ys
        → IsSorted less (insert_run less x ys)
    unfolding insert_run
    insert_run-IsSorted x [] h = tt
    insert_run-IsSorted x (y ∷ []) h = elim (Bool-cases (less y x)) [
      | inl e ↦ rw e (asym y x e, tt)
      | inr e ↦ rw e (e, tt)
    ]
    insert_run-IsSorted x (y ∷ z ∷ zs) h = elim (Bool-cases (less y x)) [
      | inr e ↦ rw e (e, h)
      | inl e ↦
          let rest = insert_run-IsSorted x (z ∷ zs) h.1 in
          elim (Bool-cases (less z x)) [
            | inl k ↦ rw (e, k) (h.0, rw k at rest)
            | inr k ↦ rw (e, k) (asym y x e, rw k at rest)
          ]
    ]

    sorts : (xs : List MythicRun) → IsSorted less (sort_runs less xs)
    unfolding sort_runs
    sorts [] = tt
    sorts (x ∷ xs) = insert_run-IsSorted x (sort_runs less xs) (sorts xs)

ltz_asym : (a b : ℤ) → ltz a b ≡ true → ltz b a ≡ false
ltz_asym a b h = ground arith

eqz_comm : (a b : ℤ) → eqz a b ≡ eqz b a
eqz_comm a b = ground arith

better_asym : (a b : MythicRun) → better a b ≡ true → better b a ≡ false
unfolding better
better_asym a b h =
    ground (arith, eqz_comm a.score b.score, ltz_asym b.score a.score, ltz_asym b.level a.level)

newer_asym : (a b : MythicRun) → newer a b ≡ true → newer b a ≡ false
unfolding newer
newer_asym a b h = ground (
  arith,
  eqz_comm a.completed_at b.completed_at,
  ltz_asym b.completed_at a.completed_at,
  ltz_asym b.level a.level,
)

-- Sorting the best runs by score and the recent ones by time, each with the key level for ties,
-- gives a list that is in order and holds the same runs as often.
pub sort_runs_lem :
    (xs : List MythicRun)
    → IsSorted better (sort_runs better xs)
      × Perm (sort_runs better xs) xs
      × IsSorted newer (sort_runs newer xs)
      × Perm (sort_runs newer xs) xs
sort_runs_lem xs = (
  sorts better better_asym xs,
  sort_runs-perm better xs,
  sorts newer newer_asym xs,
  sort_runs-perm newer xs,
)

best_level-max :
    (b : ℤ) (rs : List MythicRunEntry)
    → best_level b rs ≡ max_season b (map (λ r. r.keystone_level) rs)
unfolding best_level max_season
best_level-max b [] = refl
best_level-max b (r ∷ rs) =
    best_level-max (if ltz b r.keystone_level then r.keystone_level else b) rs

All-map :
    (P : ℤ → Type 0) (rs : List MythicRunEntry)
    → All P (map (λ r. r.keystone_level) rs)
    → All (λ r. P r.keystone_level) rs
All-map P [] h = tt
All-map P (r ∷ rs) h = (h.0, All-map P rs h.1)

-- The best key level of a season's row is at least 0 and at least the level of each best run.
pub found_row-best :
    (c : Character) (anchor : TierAnchor) (now : ℕ) (p : SeasonProfile) (recent : List MythicRun)
    → let row = found_row c anchor now p recent in
      (ltz row.best_key_level (pos 0) ≡ false)
      × All (λ r. ltz row.best_key_level r.keystone_level ≡ false) p.best_runs
unfolding found_row
found_row-best c anchor now p recent =
    let (low, all) = max_season-bound (pos 0) (map (λ r. r.keystone_level) p.best_runs) in
    rw (best_level-max (pos 0) p.best_runs) (
      low,
      All-map (λ z. ltz (max_season (pos 0) (map (λ r. r.keystone_level) p.best_runs)) z ≡ false)
          p.best_runs all,
    )
