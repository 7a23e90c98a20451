-- ===== src/Storage/Broken.antt =====
-- A failed season request in the sync of a member: the whole table of ratings stays, and the member
-- is reported.
use apekeeper.Common.{
  ℕ, ℤ, ap, ◌∙◌, ◌≡◌, ◌≢◌, refl, Bool, true, false, String, Option, none, some, List, Bool-cases,
  Result-cases, Result, inl, inr, arith, ok, err, is_pos,
}
use apekeeper.Domain.{Character, Guild}
use apekeeper.Upstream.{Client, RosterMember, UpstreamError, Answer, is_not_found, Expansion}
use apekeeper.Sync.Engine.{Stores, SyncError, MythicRow, RaidRow, upstream, first_error}
use apekeeper.Sync.Engine.Anchor.{TierAnchor}
use apekeeper.Sync.Engine.Mythic.{sync_mythic, MythicResult}
use apekeeper.Sync.Engine.Mythic.Writes.{sync_mythic_broken}
use apekeeper.Sync.Engine.Member.{
  sync_raids, finish_member, sync_details, save_character, sync_character, profile_character,
  save_avatar,
}
use apekeeper.Sync.Engine.Member.Keeps.{KeepsRest, sync_character-KeepsRest}
use apekeeper.Storage.{
  exec, database_stores, upsert_by_guild_identity, update_avatar, replace_raids, insert_snapshot,
}
use apekeeper.Storage.Tables.{Database, Server}
use apekeeper.Storage.Swap.{replace_raids-cases, insert_raids-ok, without_raids}

module _ {S : Type 0} (stores : Stores S) where
  sync_raids-problem :
      (encode : List Expansion → String) (dry : Bool) (id : ℕ) (expansion : ℤ) (now : ℕ)
      (a : Answer (List Expansion)) (problem : Option SyncError) (e : SyncError) (s : S)
      → problem ≡ some e
      → (sync_raids stores encode dry id expansion now a problem s).0.0 ≡ some e
  unfolding sync_raids
  sync_raids-problem encode dry id expansion now (err x) problem e s h = rw h refl
  sync_raids-problem encode dry id expansion now (ok rs) problem e s h = rw h refl

  finish_member-problem :
      (dry : Bool) (c : Character) (now : ℕ) (mythic : MythicResult) (problem : Option SyncError)
      (raid_json : String) (s : S)
      → problem ≢ none
      → (finish_member stores dry c now mythic problem raid_json s).0.1 ≢ none
  unfolding finish_member
  finish_member-problem true c now mythic problem raid_json s h = h
  finish_member-problem false c now mythic problem raid_json s h = λ q. h (second _ problem q)
    where
      second : (a b : Option SyncError) → first_error a b ≡ none → b ≡ none
      second none b q = q
      second (some x) b q = absurd (ground arith)

  module _ (encode : List Expansion → String) (client : Client) (m : RosterMember)
      (anchor : TierAnchor) (now : ℕ) (dry : Bool) (e : UpstreamError)
      (asked : is_pos anchor.season_id ≡ true)
      (failed : client.seasonal m.realm.slug m.name anchor.season_id ≡ err e)
      (known : is_not_found e ≡ false) where
    sync_details-problem :
        (c : Character) (s : S)
        → (sync_details stores encode client m anchor now dry c s).0.1 ≢ none
    unfolding sync_details
    sync_details-problem c s =
        let avatar = save_avatar stores dry c.id (client.media m.realm.slug m.name) s in
        let (r, t) = sync_mythic stores c anchor now dry client m avatar in
        let failure =
          sync_mythic_broken stores c anchor now dry client m avatar e asked failed known in
        let kept =
          sync_raids-problem encode dry c.id anchor.expansion_id now
            (client.raids m.realm.slug m.name) r.problem (upstream e) t failure.1 in
        finish_member-problem dry c now r _ _ _ (λ q. ground arith)

    save_character-problem :
        (c : Character) (r : Result String Character × S)
        → (save_character stores encode client m anchor now dry c r).0.1 ≢ none
    unfolding save_character
    save_character-problem c (err x, t) = λ q. cc
    save_character-problem c (ok saved, t) = sync_details-problem saved t

    sync_character-problem :
        (normalize : String → String) (g : Guild) (s : S)
        → (sync_character stores encode client m anchor now dry normalize g s).0.1 ≢ none
    unfolding sync_character
    sync_character-problem normalize g s =
        elim (Result-cases (client.profile m.realm.slug m.name)) [
          | inr (x, q) ↦ rw (q, sync_character) (λ z. cc)
          | inl (p, q) ↦ elim (Bool-cases dry) [
            | inl d ↦
                rw (q, sync_character, d)
                  (sync_details-problem (profile_character normalize g m p now) s)
            | inr d ↦
                rw (q, sync_character, d)
                  (save_character-problem (profile_character normalize g m p now)
                    (stores.upsert_character (profile_character normalize g m p now) p s))
          ]
        ]

module _ (server : Server) (rows : List MythicRow) where
  abbrev HasRows : Database → Type 0
  HasRows t = t.mythic_plus ≡ rows

  replace_raids-rows :
      (id : ℕ) (rs : List RaidRow) (t : Database)
      → HasRows t
      → HasRows (replace_raids server id rs t).1
  replace_raids-rows id rs t h = elim (replace_raids-cases server id rs t) [
    | inl (e, q) ↦ rw q h
    | inr (u, q, r) ↦
        rw q (ap (λ x. x.mythic_plus) (insert_raids-ok server rs (without_raids id t) u r) ∙ h)
  ]

  database_stores-KeepsRest : KeepsRest (database_stores server) HasRows
  unfolding upsert_by_guild_identity update_avatar insert_snapshot exec
  database_stores-KeepsRest = record {
    character = λ c p t h. ground arith;
    portrait = λ id url t h. ground arith;
    raids = replace_raids-rows;
    snapshot = λ x t h. ground arith;
  }

-- When the season request of a member fails with anything but a 404, the sync of the member, with
-- all the statements that it executes besides, leaves every row of the ratings as it was, so that a
-- stored row is never overwritten by an empty one; and the member has a problem.
pub sync_character_broken :
    (server : Server) (encode : List Expansion → String) (client : Client) (m : RosterMember)
    (anchor : TierAnchor) (now : ℕ) (dry : Bool) (normalize : String → String) (g : Guild)
    (t : Database) (e : UpstreamError)
    → is_pos anchor.season_id ≡ true
    → client.seasonal m.realm.slug m.name anchor.season_id ≡ err e
    → is_not_found e ≡ false
    → let ((c, problem), after) =
        sync_character (database_stores server) encode client m anchor now dry normalize g t in
      (after.mythic_plus ≡ t.mythic_plus) × (problem ≢ none)
sync_character_broken server encode client m anchor now dry normalize g t e asked failed known = (
  sync_character-KeepsRest (database_stores server) (HasRows server t.mythic_plus)
      (database_stores-KeepsRest server t.mythic_plus) encode client m anchor now dry
      (λ c s h.
        ap (λ x. x.mythic_plus)
          (sync_mythic_broken (database_stores server) c anchor now dry client m s e asked failed
            known).0
        ∙ h)
      normalize g t refl,
  sync_character-problem (database_stores server) encode client m anchor now dry e asked failed
      known normalize g t,
)
