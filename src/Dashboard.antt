-- ===== src/Dashboard.antt =====
-- The dashboard of a guild: DashboardByGuild of store/characters.go, which groups the rows of its one
-- query, and the figures that the handler dashboard of httpapi/api.go makes of them. A list of maps
-- in the answer is a list of the characters that it is made of; the class and raid tables, the
-- trends, the last run and the average rating are left out.
pub mod Groups
pub mod Top
use apekeeper.Common.{
  ℕ, zero, suc, ◌-◌, Bool, not, ◌&&◌, ◌||◌, ltb, ◌==◌, if◌then◌else◌, str_eq, List, [], ◌∷◌, ◌++◌,
  length, take, keep, ℤ, pos, ltz, is_pos,
}
use apekeeper.Domain.{Character, Snapshot, current_max_level, active_character, is_stale}
use apekeeper.Sync.Engine.{RaidRow}

-- a row of DashboardQuery: the character with its aggregates, and one of its raid rows, whose slug is
-- "" where the character has none
pub record QueryRow : Type 0 where
  pub character : Character
  pub best_key : ℤ
  pub raid : RaidRow
  pub snapshot_count : ℕ
  pub first : Snapshot
  pub last : Snapshot

-- characters.go: DashboardCharacter
pub record DashboardCharacter : Type 0 where
  pub character : Character
  pub best_key : ℤ
  pub raids : List RaidRow
  pub snapshot_count : ℕ
  pub first : Snapshot
  pub last : Snapshot

-- a row that opens the group of its character
abbrev pub open_group : QueryRow → DashboardCharacter
open_group r = record {
  character = r.character;
  best_key = r.best_key;
  raids = [];
  snapshot_count = r.snapshot_count;
  first = r.first;
  last = r.last;
}

-- the raid of a row, attached to the current group
unfoldable pub attach : QueryRow → DashboardCharacter → DashboardCharacter
attach r c =
    if str_eq r.raid.raid_slug ""
    then c
    else record c { raids = c.raids ++ record r.raid { character_id = r.character.id } ∷ [] }

-- the loop over the rows, with the last element of `out` as the current group
unfoldable pub group_from : DashboardCharacter → List QueryRow → List DashboardCharacter
unfolding attach
group_from c [] = c ∷ []
group_from c (r ∷ rs) =
    let same = group_from (attach r c) rs in
    let other = group_from (attach r (open_group r)) rs in
    if c.character.id == r.character.id then same else c ∷ other

-- characters.go: DashboardByGuild
unfoldable pub dashboard_by_guild : List QueryRow → List DashboardCharacter
unfolding group_from
dashboard_by_guild [] = []
dashboard_by_guild (r ∷ rs) = group_from (attach r (open_group r)) rs

abbrev pub seven_days : ℕ
seven_days = 604800

abbrev pub fourteen_days : ℕ
fourteen_days = 1209600

-- one run of the inner loop: the element that ends in front, and the others in their places
unfoldable pub settle :
    DashboardCharacter → List DashboardCharacter → DashboardCharacter × List DashboardCharacter
settle x [] = (x, [])
settle x (y ∷ ys) =
    let swapped = settle y ys in
    let kept = settle x ys in
    if ltz x.character.mythic_rating y.character.mythic_rating
    then (swapped.0, x ∷ swapped.1)
    else (kept.0, y ∷ kept.1)

-- the outer loop, once for each place
unfoldable pub exchange_sort : ℕ → List DashboardCharacter → List DashboardCharacter
unfolding settle
exchange_sort zero xs = xs
exchange_sort (suc n) [] = []
exchange_sort (suc n) (x ∷ xs) = let (front, rest) = settle x xs in front ∷ exchange_sort n rest

-- a change that is shown: the first snapshot is old enough, and the last one is better
unfoldable pub is_notable : ℕ → DashboardCharacter → Bool
is_notable now c =
    ltb 1 c.snapshot_count
    && ltb c.first.captured_at (now - fourteen_days)
    && (ltz c.first.mythic_rating c.last.mythic_rating || ltz c.first.item_level c.last.item_level)

pub record Figures : Type 0 where
  pub roster_size : ℕ
  pub max_level_members : ℕ
  pub active_members : ℕ
  pub stale_count : ℕ
  pub stale_characters : List DashboardCharacter
  pub rated_count : ℕ
  pub top : List DashboardCharacter
  pub notable_changes : List DashboardCharacter

-- api.go: dashboard
unfoldable pub dashboard : ℕ → List DashboardCharacter → Figures
unfolding exchange_sort is_notable
dashboard now chars =
    let stale = keep (λ c. is_stale c.character now seven_days) chars in
    let rated = keep (λ c. is_pos c.character.mythic_rating) chars in
    record {
      roster_size = length chars;
      max_level_members =
          length (keep (λ c. not (ltz c.character.level (pos current_max_level))) chars);
      active_members = length (keep (λ c. active_character c.character now seven_days) chars);
      stale_count = length stale;
      stale_characters = take 10 stale;
      rated_count = length rated;
      top = take 10 (exchange_sort (length rated) rated);
      notable_changes = take 10 (keep (is_notable now) chars);
    }
