-- ===== src/Dashboard/Groups.antt =====
-- The rows of the dashboard's query, and the characters that are made of them.
use apekeeper.Common.{
  ℕ, ◌≡◌, refl, sym, ◌∙◌, ap, true, false, ◌==◌, if◌then◌else◌, str_eq, List, [], ◌∷◌, ◌++◌, map,
  All, arith,
}
use mathlib.Core.List.{append-nil, append_assoc}
use apekeeper.Sync.Engine.{RaidRow}
use apekeeper.Dashboard.{QueryRow, DashboardCharacter, attach, group_from, dashboard_by_guild}

-- The row of a character without and with a raid.
abbrev pub row_of : DashboardCharacter → RaidRow → QueryRow
row_of c raid = record {
  character = c.character;
  best_key = c.best_key;
  raid = raid;
  snapshot_count = c.snapshot_count;
  first = c.first;
  last = c.last;
}

-- What DashboardQuery answers for some characters: LEFT JOIN LATERAL unnest gives a row for each raid,
-- or one without a raid.
unfoldable pub rows_of : RaidRow → DashboardCharacter → List RaidRow → List QueryRow
rows_of empty c [] = row_of c empty ∷ []
rows_of empty c (r ∷ rs) = map (row_of c) (r ∷ rs)

unfoldable pub query_rows : RaidRow → List DashboardCharacter → List QueryRow
unfolding rows_of
query_rows empty [] = []
query_rows empty (c ∷ cs) = rows_of empty c c.raids ++ query_rows empty cs

-- The raids of a character are its own and have a slug.
abbrev pub IsOwn : DashboardCharacter → Type 0
IsOwn c = All (λ r. (str_eq r.raid_slug "" ≡ false) × (r.character_id ≡ c.character.id)) c.raids

-- Neighbours are different characters.
abbrev pub IsApart : DashboardCharacter → List DashboardCharacter → Type 0
IsApart c [] = Unit
IsApart c (d ∷ ds) = ((c.character.id == d.character.id) ≡ false) × IsApart d ds

abbrev pub AllApart : List DashboardCharacter → Type 0
AllApart [] = Unit
AllApart (c ∷ cs) = IsApart c cs

with_raids : DashboardCharacter → List RaidRow → DashboardCharacter
with_raids c rs = record c { raids = rs }

-- the raids of one character
abbrev Own : DashboardCharacter → List RaidRow → Type 0
Own c = All (λ r. (str_eq r.raid_slug "" ≡ false) × (r.character_id ≡ c.character.id))

attach-row :
    (c : DashboardCharacter) (done : List RaidRow) (r : RaidRow)
    → str_eq r.raid_slug "" ≡ false
    → r.character_id ≡ c.character.id
    → attach (row_of c r) (with_raids c done) ≡ with_raids c (done ++ r ∷ [])
unfolding attach with_raids
attach-row c done r h k =
    rw h (ap (λ i. record c { raids = done ++ record r { character_id = i } ∷ [] }) (sym k))

group_from-rows :
    (c : DashboardCharacter) (done rs : List RaidRow) (more : List QueryRow)
    → Own c rs
    → group_from (with_raids c done) (map (row_of c) rs ++ more)
      ≡ group_from (with_raids c (done ++ rs)) more
unfolding group_from with_raids
group_from-rows c done [] more h =
    ap (λ l. group_from (with_raids c l) more) (sym (append-nil done))
group_from-rows c done (r ∷ rs) more h =
    same (c.character.id) _ _
    ∙ ap (λ d. group_from d (map (row_of c) rs ++ more)) (attach-row c done r h.0.0 h.0.1)
    ∙ group_from-rows c (done ++ r ∷ []) rs more h.1
    ∙ ap (λ l. group_from (with_raids c l) more) (append_assoc done (r ∷ []) rs)
  where
    same : (i : ℕ) (a b : List DashboardCharacter) → (if i == i then a else b) ≡ a
    same i a b = ground arith

module _ (empty : RaidRow) (none_raid : str_eq empty.raid_slug "" ≡ true) where
  open-rows :
      (c : DashboardCharacter) (rs : List RaidRow) (more : List QueryRow)
      → Own c rs
      → dashboard_by_guild (rows_of empty c rs ++ more) ≡ group_from (with_raids c rs) more
  unfolding dashboard_by_guild rows_of attach with_raids
  open-rows c [] more h = rw none_raid
  open-rows c (r ∷ rs) more h =
      ap (λ d. group_from d (map (row_of c) rs ++ more)) (attach-row c [] r h.0.0 h.0.1)
      ∙ group_from-rows c (r ∷ []) rs more h.1

  next-rows :
      (c d : DashboardCharacter) (rs : List RaidRow) (more : List QueryRow)
      → (c.character.id == d.character.id) ≡ false
      → group_from c (rows_of empty d rs ++ more)
        ≡ c ∷ dashboard_by_guild (rows_of empty d rs ++ more)
  unfolding dashboard_by_guild group_from rows_of
  next-rows c d [] more h = rw h
  next-rows c d (r ∷ rs) more h = rw h

  group_from-query_rows :
      (c : DashboardCharacter) (cs : List DashboardCharacter)
      → IsApart c cs
      → All IsOwn cs
      → group_from c (query_rows empty cs) ≡ c ∷ cs
  unfolding group_from query_rows with_raids
  group_from-query_rows c [] a h = refl
  group_from-query_rows c (d ∷ ds) a h =
      next-rows c d d.raids (query_rows empty ds) a.0
      ∙ ap (λ l. c ∷ l)
          (open-rows d d.raids (query_rows empty ds) h.0 ∙ group_from-query_rows d ds a.1 h.1)

  -- Grouping the rows that the dashboard's query gives for some characters, each with raids of its own
  -- and next to a different one, gives these characters back with their raids in order.
  pub dashboard_by_guild-query_rows :
      (cs : List DashboardCharacter)
      → AllApart cs
      → All IsOwn cs
      → dashboard_by_guild (query_rows empty cs) ≡ cs
  unfolding dashboard_by_guild query_rows with_raids
  dashboard_by_guild-query_rows [] a h = refl
  dashboard_by_guild-query_rows (c ∷ cs) a h =
      open-rows c c.raids (query_rows empty cs) h.0 ∙ group_from-query_rows c cs a h.1
