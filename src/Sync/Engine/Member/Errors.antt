-- ===== src/Sync/Engine/Member/Errors.antt =====
-- Which failures upstream make a member fail.
use apekeeper.Common.{
  [], ◌∷◌, ℕ, ◌≡◌, refl, ◌∙◌, ap, ◌↔◌, String, Bool, true, List, Option, none, ok, err, arith, ℤ,
  is_pos,
}
use apekeeper.Domain.{Character, Guild}
use apekeeper.Upstream.{
  Client, RosterMember, Expansion, Answer, ProfileSummary, is_not_found, SeasonProfile,
}
use apekeeper.Sync.Engine.{Stores, SyncError, MythicRun, first_error}
use apekeeper.Sync.Engine.Anchor.{TierAnchor}
use apekeeper.Sync.Engine.Mythic.{
  sync_mythic, SeasonFetch, found, missing, broken, season_error, season_fetch, index_error,
  write_mythic,
}
use apekeeper.Sync.Engine.Member.{
  save_avatar, sync_raids, finish_member, sync_details, sync_character, profile_character,
}

-- an answer, or a 404
abbrev pub is_harmless : {A : Type 0} → Answer A → Bool
is_harmless (ok a) = true
is_harmless (err e) = is_not_found e

index_error-none : {A : Type 0} (a : Answer A) → (index_error a ≡ none) ↔ (is_harmless a ≡ true)
unfolding index_error
index_error-none (ok a) = ground arith
index_error-none (err e) = ground arith

season_error-none :
    (a : Answer SeasonProfile) → (season_error (season_fetch a) ≡ none) ↔ (is_harmless a ≡ true)
unfolding season_fetch
season_error-none (ok a) = ground arith
season_error-none (err e) = ground arith

first_error-none : (a b : Option SyncError) → (first_error a b ≡ none) ↔ ((a ≡ none) × (b ≡ none))
first_error-none a b = ground arith

module _ {S : Type 0} (stores : Stores S) where
  write_mythic-problem :
      (c : Character) (anchor : TierAnchor) (now : ℕ) (f : SeasonFetch) (recent : List MythicRun)
      (problem : Option SyncError) (s : S)
      → (write_mythic stores c anchor now true f recent problem s).0.problem ≡ problem
  unfolding write_mythic
  write_mythic-problem c anchor now (found p) recent problem s = refl
  write_mythic-problem c anchor now missing [] problem s = refl
  write_mythic-problem c anchor now missing (r ∷ rs) problem s = refl
  write_mythic-problem c anchor now (broken b) recent problem s = refl

  sync_raids-problem :
      (encode : List Expansion → String) (id : ℕ) (expansion_id : ℤ) (now : ℕ)
      (a : Answer (List Expansion)) (problem : Option SyncError) (s : S)
      → (sync_raids stores encode true id expansion_id now a problem s).0.0
        ≡ first_error problem (index_error a)
  unfolding sync_raids
  sync_raids-problem encode id expansion_id now (ok x) problem s = refl
  sync_raids-problem encode id expansion_id now (err e) problem s = refl

  module _ (encode : List Expansion → String) (client : Client) (m : RosterMember)
      (anchor : TierAnchor) (now : ℕ) (season : is_pos anchor.season_id ≡ true) where
    mythic_problem :
        (c : Character) (s : S)
        → (sync_mythic stores c anchor now true client m s).0.problem
          ≡ first_error
              (season_error (season_fetch (client.seasonal m.realm.slug m.name anchor.season_id)))
              (index_error (client.profile_index m.realm.slug m.name))
    unfolding sync_mythic
    mythic_problem c s = simp season (write_mythic-problem c anchor now _ _ _ s)

    details_problem :
        (c : Character) (s : S)
        → (sync_details stores encode client m anchor now true c s).0.1
          ≡ first_error
              (first_error
                (season_error (season_fetch (client.seasonal m.realm.slug m.name anchor.season_id)))
                (index_error (client.profile_index m.realm.slug m.name)))
              (index_error (client.raids m.realm.slug m.name))
    unfolding sync_details finish_member
    details_problem c s =
        let s1 = save_avatar stores true c.id (client.media m.realm.slug m.name) s in
        let (mythic, s2) = sync_mythic stores c anchor now true client m s1 in
        sync_raids-problem encode c.id anchor.expansion_id now (client.raids m.realm.slug m.name)
          mythic.problem s2
        ∙ ap (λ e. first_error e (index_error (client.raids m.realm.slug m.name)))
            (mythic_problem c s1)

    -- With a season and the member's profile at hand, a dry run of a member ends without an error
    -- exactly when each of the season, index and raid requests is answered or is a 404: a 404 is no
    -- failure, nor is anything that happens to the portrait.
    pub dry_verdict :
        (normalize : String → String) (g : Guild) (p : ProfileSummary) (s : S)
        → client.profile m.realm.slug m.name ≡ ok p
        → ((sync_character stores encode client m anchor now true normalize g s).0.1 ≡ none) ↔ (
            (is_harmless (client.seasonal m.realm.slug m.name anchor.season_id) ≡ true)
            × (is_harmless (client.profile_index m.realm.slug m.name) ≡ true)
            × (is_harmless (client.raids m.realm.slug m.name) ≡ true))
    unfolding sync_character
    dry_verdict normalize g p s q =
        rw (q, sync_character, details_problem (profile_character normalize g m p now) s)
          (ground (
            arith,
            first_error-none
                (season_error (season_fetch (client.seasonal m.realm.slug m.name anchor.season_id)))
                (index_error (client.profile_index m.realm.slug m.name)),
            season_error-none (client.seasonal m.realm.slug m.name anchor.season_id),
            index_error-none (client.profile_index m.realm.slug m.name),
            index_error-none (client.raids m.realm.slug m.name),
          ))
