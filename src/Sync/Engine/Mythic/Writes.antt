-- ===== src/Sync/Engine/Mythic/Writes.antt =====
-- Which rows the mythic+ part writes.
use apekeeper.Common.{
  ◌⊎◌, ℕ, ◌≡◌, ◌≢◌, refl, Bool, true, false, Option, none, some, List, [], ◌∷◌, pos, is_pos, err,
  arith, Bool-cases, inl, inr,
}
use apekeeper.Domain.{Character}
use apekeeper.Upstream.{Client, UpstreamError, is_not_found, RosterMember}
use apekeeper.Sync.Engine.{MythicRun, Stores, SyncError, upstream, first_error}
use apekeeper.Sync.Engine.Anchor.{TierAnchor}
use apekeeper.Sync.Engine.Mythic.{
  SeasonFetch, found, missing, broken, recent_runs, index_error, write_mythic, sync_mythic,
  missing_row, unless_dry,
}

module _ {S : Type 0} (stores : Stores S) (c : Character) (anchor : TierAnchor) (now : ℕ) where
  write_mythic-dry :
      (f : SeasonFetch) (recent : List MythicRun) (problem : Option SyncError) (s : S)
      → (write_mythic stores c anchor now true f recent problem s).1 ≡ s
  unfolding write_mythic
  write_mythic-dry (found p) recent problem s = refl
  write_mythic-dry missing [] problem s = refl
  write_mythic-dry missing (r ∷ rs) problem s = refl
  write_mythic-dry (broken b) recent problem s = refl

  pub sync_mythic-dry :
      (client : Client) (m : RosterMember) (s : S)
      → (sync_mythic stores c anchor now true client m s).1 ≡ s
  unfolding sync_mythic
  sync_mythic-dry client m s = elim (Bool-cases (is_pos anchor.season_id)) [
    | inl e ↦ simp (e, sync_mythic) (write_mythic-dry _ _ _ s)
    | inr e ↦ simp (e, sync_mythic)
  ]

  write_mythic_missing :
      (dry : Bool) (s : S) (recent : List MythicRun) (problem : Option SyncError)
      → let (r, t) = write_mythic stores c anchor now dry missing recent problem s in
        (r.rating ≡ pos 0)
        × (r.best ≡ pos 0)
        × (((recent ≡ []) × (t ≡ s))
            ⊎ ((recent ≢ [])
                × (t
                    ≡ (unless_dry dry
                        (stores.upsert_mythic_plus_runs (missing_row c anchor now recent))
                        s).1)))
  unfolding write_mythic
  write_mythic_missing dry s [] problem = (refl, refl, inl (refl, refl))
  write_mythic_missing dry s (r ∷ rs) problem = (refl, refl, inr ((λ e. cc), refl))

  module _ (dry : Bool) (client : Client) (m : RosterMember) (s : S) where
    -- A season request that fails with anything but a 404 leaves the database as it was, so that a
    -- stored row is never overwritten by an empty one, and the failure is the member's problem.
    pub sync_mythic_broken :
        (e : UpstreamError)
        → is_pos anchor.season_id ≡ true
        → client.seasonal m.realm.slug m.name anchor.season_id ≡ err e
        → is_not_found e ≡ false
        → ((sync_mythic stores c anchor now dry client m s).1 ≡ s)
          × ((sync_mythic stores c anchor now dry client m s).0.problem ≡ some (upstream e))
    unfolding sync_mythic
    sync_mythic_broken e p h n = ground arith

    pub sync_mythic-eq_missing :
        (e : UpstreamError)
        → is_pos anchor.season_id ≡ true
        → client.seasonal m.realm.slug m.name anchor.season_id ≡ err e
        → is_not_found e ≡ true
        → sync_mythic stores c anchor now dry client m s
          ≡ write_mythic stores c anchor now dry missing
              (recent_runs (client.profile_index m.realm.slug m.name))
              (first_error none (index_error (client.profile_index m.realm.slug m.name)))
              s
    unfolding sync_mythic
    sync_mythic-eq_missing e p h n = simp (p, h, n)

    -- A season request answered by a 404 writes nothing unless the current period has runs, and then
    -- executes only the statement for the run lists; the rating and
    -- the best key that the part hands on are 0.
    pub sync_mythic_missing :
        (e : UpstreamError)
        → is_pos anchor.season_id ≡ true
        → client.seasonal m.realm.slug m.name anchor.season_id ≡ err e
        → is_not_found e ≡ true
        → let recent = recent_runs (client.profile_index m.realm.slug m.name) in
          let (r, t) = sync_mythic stores c anchor now dry client m s in
          (r.rating ≡ pos 0)
          × (r.best ≡ pos 0)
          × (((recent ≡ []) × (t ≡ s))
              ⊎ ((recent ≢ [])
                  × (t
                      ≡ (unless_dry dry
                          (stores.upsert_mythic_plus_runs (missing_row c anchor now recent))
                          s).1)))
    sync_mythic_missing e p h n =
        rw (sync_mythic-eq_missing e p h n) (write_mythic_missing dry s _ _)
