-- ===== src/Storage/Ratings.antt =====
-- A season that the API does not know leaves the stored ratings alone.
use apekeeper.Common.{
  ℕ, ◌≡◌, refl, Bool, true, false, String, Option, none, some, List, ◌∷◌, [], Bool-cases, inl, inr,
  arith, map, any, ℤ, ap, is_pos, err, ◌==◌, ◌&&◌, eqz,
}
use apekeeper.Domain.{Character}
use apekeeper.Upstream.{Client, RosterMember, UpstreamError, is_not_found}
use apekeeper.Sync.Engine.{MythicRow, MythicRun, SyncError, first_error}
use apekeeper.Sync.Engine.Anchor.{TierAnchor}
use apekeeper.Sync.Engine.Mythic.{
  sync_mythic, write_mythic, missing, missing_row, recent_runs, index_error,
}
use apekeeper.Storage.{exec, upsert_mythic_plus_runs, database_stores}
use apekeeper.Storage.Tables.{Database, upserts_runs, refresh_runs, same_season, Server, mythic_row}
use apekeeper.Sync.Engine.Mythic.Writes.{sync_mythic-eq_missing}
use apekeeper.Storage.Rows.{put_by}

-- A row without its run lists, its season's name and its time.
abbrev pub rating_summary : MythicRow → (ℕ × ℤ) × ℤ × ℤ × ℤ
rating_summary r =
    ((r.character_id, r.season_slug), r.overall_rating, r.best_key_level, r.best_run_score)

put_runs-summaries :
    (m : MythicRow) (rows : List MythicRow)
    → any (λ r. same_season r m) rows ≡ true
    → map rating_summary (put_by same_season (refresh_runs m) m rows) ≡ map rating_summary rows
unfolding refresh_runs
put_runs-summaries m [] h = absurd (ground arith)
put_runs-summaries m (r ∷ rows) h = elim (Bool-cases (same_season r m)) [
  | inl e ↦ rw e
  | inr e ↦ rw e (ap (λ l. rating_summary r ∷ l) (put_runs-summaries m rows (ground arith)))
]

exec_split :
    (P : Database → Type 0) (r : Option String) (t u : Database) → P t → P u → P (exec r t u).1
unfolding exec
exec_split P (some e) t u h k = h
exec_split P none t u h k = k

module _ (server : Server) where
  upsert_runs-summaries :
      (m : MythicRow) (t : Database)
      → any (λ r. same_season r m) t.mythic_plus ≡ true
      → map rating_summary (upsert_mythic_plus_runs server m t).1.mythic_plus
        ≡ map rating_summary t.mythic_plus
  unfolding upsert_mythic_plus_runs mythic_row
  upsert_runs-summaries m t h =
      exec_split (λ u. map rating_summary u.mythic_plus ≡ map rating_summary t.mythic_plus)
        (server.refuses (upserts_runs m) t) t _ refl
        (put_runs-summaries (mythic_row server m) t.mythic_plus h)

  module _ (c : Character) (anchor : TierAnchor) (now : ℕ) where
    -- the row of the character and the anchored season
    abbrev pub has_season : MythicRow → Bool
    has_season r = r.character_id == c.id && eqz r.season_slug anchor.season_id

    write_missing-summaries :
        (dry : Bool) (recent : List MythicRun) (problem : Option SyncError) (t : Database)
        → any has_season t.mythic_plus ≡ true
        → map rating_summary
            (write_mythic
              (database_stores server)
              c
              anchor
              now
              dry
              missing
              recent
              problem
              t).1.mythic_plus
          ≡ map rating_summary t.mythic_plus
    unfolding write_mythic missing_row
    write_missing-summaries dry [] problem t h = refl
    write_missing-summaries true (r ∷ rs) problem t h = refl
    write_missing-summaries false (r ∷ rs) problem t h =
        upsert_runs-summaries (missing_row c anchor now (r ∷ rs)) t h

    -- When the API answers the season of a character with a 404 and the database has a row for the
    -- two, the mythic+ part of the sync leaves the list of the rows' keys, ratings, best keys and best
    -- scores as it was, whatever runs the API lists and whichever statement is refused.
    pub sync_mythic_missing-summaries :
        (dry : Bool) (client : Client) (m : RosterMember) (t : Database) (e : UpstreamError)
        → is_pos anchor.season_id ≡ true
        → client.seasonal m.realm.slug m.name anchor.season_id ≡ err e
        → is_not_found e ≡ true
        → any has_season t.mythic_plus ≡ true
        → map rating_summary
            (sync_mythic (database_stores server) c anchor now dry client m t).1.mythic_plus
          ≡ map rating_summary t.mythic_plus
    sync_mythic_missing-summaries dry client m t e p h n k =
        rw (sync_mythic-eq_missing (database_stores server) c anchor now dry client m t e p h n) (
          write_missing-summaries dry (recent_runs (client.profile_index m.realm.slug m.name))
            (first_error none (index_error (client.profile_index m.realm.slug m.name))) t k)
