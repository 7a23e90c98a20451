-- ===== src/Domain/Outcomes.antt =====
-- What the status rules of domain/sync.go and the change test of domain/snapshot.go decide.
use apekeeper.Common.{ℕ, ◌<◌, ◌≡◌, ◌↔◌, true, false, arith, eq_iff, eqz_sound, eqz_refl}
use apekeeper.Domain.{running, success, partial, transition, outcome, Snapshot, snapshot_changed}

-- Every pair of counts ends a running run by a legal transition.
pub transition-outcome :
    (updated failures : ℕ) → transition running (outcome updated failures) ≡ true
unfolding transition outcome
transition-outcome updated failures = ground arith

pub outcome-success : (updated failures : ℕ) → (outcome updated failures ≡ success) ↔ (failures ≡ 0)
unfolding outcome
outcome-success updated failures = ground arith

pub outcome-partial :
    (updated failures : ℕ) → (outcome updated failures ≡ partial) ↔ ((0 < updated) × (0 < failures))
unfolding outcome
outcome-partial updated failures = ground arith

-- A snapshot counts as changed exactly when one of the four recorded values differs.
pub snapshot_changed-false :
    (a b : Snapshot)
    → (snapshot_changed a b ≡ false) ↔ (
        (a.item_level ≡ b.item_level)
        × (a.mythic_rating ≡ b.mythic_rating)
        × (a.best_key_level ≡ b.best_key_level)
        × (a.raid_progress ≡ b.raid_progress))
unfolding snapshot_changed
snapshot_changed-false a b = ground (
  arith,
  eqz_sound a.item_level b.item_level,
  eqz_sound a.mythic_rating b.mythic_rating,
  eqz_sound a.best_key_level b.best_key_level,
  eq_iff a.raid_progress b.raid_progress,
  eqz_refl a.item_level,
  eqz_refl a.mythic_rating,
  eqz_refl a.best_key_level,
)
