-- ===== src/Sync/Engine/Member/DryRun.antt =====
-- A dry run writes nothing.
use apekeeper.Common.{ℕ, ◌≡◌, refl, ◌∙◌, String, true, List, Option, ok, err, ℤ}
use apekeeper.Domain.{Character, Guild}
use apekeeper.Upstream.{Client, RosterMember, Expansion, Answer, MediaAsset, ProfileSummary}
use apekeeper.Sync.Engine.{Stores, SyncError}
use apekeeper.Sync.Engine.Anchor.{TierAnchor}
use apekeeper.Sync.Engine.Mythic.{sync_mythic, MythicResult}
use apekeeper.Sync.Engine.Mythic.Writes.{sync_mythic-dry}
use apekeeper.Sync.Engine.Member.{
  save_avatar, sync_raids, finish_member, sync_details, sync_character, profile_character,
}

module _ {S : Type 0} (stores : Stores S) where
  save_avatar-dry :
      (id : ℕ) (a : Answer (List MediaAsset)) (s : S) → save_avatar stores true id a s ≡ s
  unfolding save_avatar
  save_avatar-dry id (ok x) s = refl
  save_avatar-dry id (err e) s = refl

  sync_raids-dry :
      (encode : List Expansion → String) (id : ℕ) (expansion_id : ℤ) (now : ℕ)
      (a : Answer (List Expansion)) (problem : Option SyncError) (s : S)
      → (sync_raids stores encode true id expansion_id now a problem s).1 ≡ s
  unfolding sync_raids
  sync_raids-dry encode id expansion_id now (ok x) problem s = refl
  sync_raids-dry encode id expansion_id now (err e) problem s = refl

  finish_member-dry :
      (c : Character) (now : ℕ) (mythic : MythicResult) (problem : Option SyncError)
      (raid_json : String) (s : S)
      → (finish_member stores true c now mythic problem raid_json s).1 ≡ s
  unfolding finish_member
  finish_member-dry c now mythic problem raid_json s = refl

  module _ (encode : List Expansion → String) (client : Client) (m : RosterMember)
      (anchor : TierAnchor) (now : ℕ) where
    sync_details-dry :
        (c : Character) (s : S) → (sync_details stores encode client m anchor now true c s).1 ≡ s
    unfolding sync_details
    sync_details-dry c s =
        let s1 = save_avatar stores true c.id (client.media m.realm.slug m.name) s in
        let (mythic, s2) = sync_mythic stores c anchor now true client m s1 in
        let ((problem, raid_json), s3) =
          sync_raids stores encode true c.id anchor.expansion_id now
            (client.raids m.realm.slug m.name) mythic.problem s2 in
        finish_member-dry c now mythic problem raid_json s3
        ∙ sync_raids-dry encode c.id anchor.expansion_id now (client.raids m.realm.slug m.name)
            mythic.problem s2
        ∙ sync_mythic-dry stores c anchor now client m s1
        ∙ save_avatar-dry c.id (client.media m.realm.slug m.name) s

    -- In dry-run mode the sync of a member leaves the database as it was, whatever the client answers
    -- and whatever the stores would do.
    pub sync_character-dry :
        (normalize : String → String) (g : Guild) (s : S)
        → (sync_character stores encode client m anchor now true normalize g s).1 ≡ s
    unfolding sync_character
    sync_character-dry normalize g s = after_profile (client.profile m.realm.slug m.name) refl
      where
        after_profile :
            (a : Answer ProfileSummary)
            → client.profile m.realm.slug m.name ≡ a
            → (sync_character stores encode client m anchor now true normalize g s).1 ≡ s
        after_profile (err e) q = rw (q, sync_character)
        after_profile (ok p) q =
            rw (q, sync_character) (sync_details-dry (profile_character normalize g m p now) s)
