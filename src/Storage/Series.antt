-- ===== src/Storage/Series.antt =====
-- store/progression.go: History with HistoryQuery of query_plans.go, and DeleteSnapshotsBefore: what
-- a chart shows of a character, and what the retention leaves of it.
use Prim.Native.Nat.{min}
use apekeeper.Common.{
  ◌∙◌, ◌+◌, tally, tally-sort_by, tally-take-drop, ℕ, ◌≡◌, not, ◌&&◌, ltb, leb, ◌==◌, Bool, true,
  false, List, All, arith, keep, take, drop, length, sort_by, IsSorted, sort_by-IsSorted,
  All-sort_by, length-sort_by, length-take, All-take, keep-All, drop-after_take, All-map, ap, any,
  ◌-◌,
}
use apekeeper.Domain.{Snapshot}
use apekeeper.Storage.Tables.{Database, CharacterRow, newer, older}

-- progression.go: DeleteSnapshotsBefore, with the number of rows that it deletes
unfoldable pub delete_snapshots_before : ℕ → Database → ℕ × Database
delete_snapshots_before cutoff t =
    let kept = keep (λ x. not (ltb x.captured_at cutoff)) t.snapshots in
    (length t.snapshots - length kept, record t { snapshots = kept })

-- HistoryQuery's join and WHERE
abbrev pub in_guild : ℕ → ℕ → List CharacterRow → Bool
in_guild guild id rows = any (λ r. r.character.id == id && r.character.guild_id == guild) rows

abbrev pub in_range : ℕ → ℕ → ℕ → ℕ → List CharacterRow → Snapshot → Bool
in_range guild id from to rows x =
    in_guild guild id rows && x.character_id == id && leb from x.captured_at && leb x.captured_at to

-- progression.go: History: the newest rows, up to the limit, then oldest first
unfoldable pub history : ℕ → ℕ → ℕ → ℕ → ℕ → Database → List Snapshot
history guild id from to limit t =
    sort_by older
      (take limit (sort_by newer (keep (in_range guild id from to t.characters) t.snapshots)))

newer_asym : (x y : Snapshot) → newer x y ≡ true → newer y x ≡ false
newer_asym x y h = ground arith

newer_trans : (x y z : Snapshot) → newer y x ≡ false → newer z y ≡ false → newer z x ≡ false
newer_trans x y z h k = ground arith

newer-IsSorted : (xs : List Snapshot) → IsSorted newer (sort_by newer xs)
newer-IsSorted xs = sort_by-IsSorted newer newer_asym newer_trans xs

older-IsSorted : (xs : List Snapshot) → IsSorted older (sort_by older xs)
older-IsSorted xs =
    sort_by-IsSorted older (λ x y h. newer_asym y x h) (λ x y z h k. newer_trans z y x k h) xs

-- The snapshots that a history may show.
abbrev pub in_history : ℕ → ℕ → ℕ → ℕ → Database → List Snapshot
in_history guild id from to t =
    sort_by newer (keep (in_range guild id from to t.characters) t.snapshots)

-- the snapshots of the table that a history is of
abbrev pub matching : ℕ → ℕ → ℕ → ℕ → Database → List Snapshot
matching guild id from to t = keep (in_range guild id from to t.characters) t.snapshots

-- A history stands oldest first and has as many snapshots as match, or the limit where that is less;
-- all of them are of the character within the range, with the character in the guild. Together with
-- the snapshots that the limit leaves out, none of which is newer than one that is shown, they are
-- exactly the matching ones of the table, each as often as it stands there.
pub history-IsWindow :
    (guild id from to limit : ℕ) (t : Database)
    → let h = history guild id from to limit t in
      let left_out = drop limit (in_history guild id from to t) in
      IsSorted older h
      × (length h ≡ min limit (length (matching guild id from to t)))
      × All (λ x. in_range guild id from to t.characters x ≡ true) h
      × All (λ d. All (λ k. newer d k ≡ false) h) left_out
      × ((q : Snapshot → Bool)
          → tally q h + tally q left_out ≡ tally q (matching guild id from to t))
unfolding history
history-IsWindow guild id from to limit t =
    let all = matching guild id from to t in
    let listed = in_history guild id from to t in
    let shown = take limit listed in
    (
      older-IsSorted shown,
      length-sort_by older shown
          ∙ length-take limit listed
          ∙ ap (min limit) (length-sort_by newer all),
      All-sort_by older _ shown (
          All-take _ limit listed (
            All-sort_by newer _ _ (keep-All (in_range guild id from to t.characters) t.snapshots))),
      All-map (λ d h. All-sort_by older (λ k. newer d k ≡ false) shown h) (drop limit listed)
          (drop-after_take newer limit listed (newer-IsSorted all)),
      λ q. omega (
        arith,
        tally-sort_by q older shown,
        tally-take-drop q limit listed,
        tally-sort_by q newer all,
      ),
    )
