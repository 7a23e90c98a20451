-- ===== src/Sync/Engine/Member.antt =====
-- engine.go: syncCharacter, the sync of one roster member.
pub mod DryRun
pub mod Errors
pub mod Keeps
use apekeeper.Common.{
  ℕ, String, Bool, true, false, not, ◌&&◌, if◌then◌else◌, Option, none, some, List, [], ◌∷◌, map,
  flat_map, ℤ, pos, eqz, is_pos, Result, ok, err, str_eq,
}
use apekeeper.Domain.{Character, Guild}
use apekeeper.Upstream.{
  Client, Answer, ProfileSummary, RosterMember, MediaAsset, Expansion, Instance, Mode,
}
use apekeeper.Sync.Engine.{
  RaidRow, Stores, SyncError, upstream, stored, store_error, first_error, capture,
}
use apekeeper.Sync.Engine.Anchor.{TierAnchor}
use apekeeper.Sync.Engine.Mythic.{MythicResult, sync_mythic, unless_dry, index_error}

abbrev pub zero_character : Character
zero_character = record {
  id = 0;
  guild_id = 0;
  name = "";
  display_name = "";
  normalized_name = "";
  realm = "";
  realm_slug = "";
  region = "";
  class_name = "";
  spec_name = "";
  class_id = pos 0;
  spec_id = pos 0;
  level = pos 0;
  guild_rank = pos 0;
  item_level = pos 0;
  mythic_rating = pos 0;
  best_key_level = pos 0;
  race_name = "";
  gender = "";
  role = "";
  synced_at = 0;
}

-- the character made of a profile; `normalize` is domain.NormalizeCharacterName on native text
unfoldable pub profile_character :
    (String → String) → Guild → RosterMember → ProfileSummary → ℕ → Character
profile_character normalize g m p now = record zero_character {
  guild_id = g.id;
  name = p.name;
  display_name = p.name;
  normalized_name = normalize p.name;
  realm = p.realm.name;
  realm_slug = p.realm.slug;
  region = g.region;
  class_id = p.class_id;
  class_name = p.class_name;
  spec_id = p.spec_id;
  spec_name = p.spec_name;
  level = p.level;
  item_level = p.equipped_item_level;
  guild_rank = m.rank;
  synced_at = now;
}

-- the first asset that is an avatar with a value
unfoldable pub avatar : List MediaAsset → Option String
avatar [] = none
avatar (a ∷ rest) =
    if str_eq a.key "avatar" && not (str_eq a.value "") then some a.value else avatar rest

-- the loops over expansions, instances and modes; `summary` is the JSON of the whole answer
unfoldable pub raid_rows : ℕ → ℤ → String → ℕ → List Expansion → List RaidRow
raid_rows id expansion_id summary now = flat_map expansion_rows
  where
    mode_row : Instance → Mode → RaidRow
    mode_row r mode = record {
      character_id = id;
      raid_slug = r.ref.slug;
      raid_name = r.ref.name;
      difficulty = mode.difficulty;
      progress = mode.completed_count;
      total_bosses = mode.total_count;
      summary = summary;
      synced_at = now;
    }

    expansion_rows : Expansion → List RaidRow
    expansion_rows ex =
        if is_pos expansion_id && not (eqz ex.id expansion_id)
        then []
        else flat_map (λ r. map (mode_row r) r.modes) ex.instances

module _ {S : Type 0} (stores : Stores S) where
  unfoldable pub save_avatar : Bool → ℕ → Answer (List MediaAsset) → S → S
  unfolding avatar
  save_avatar dry id (err e) s = s
  save_avatar true id (ok assets) s = s
  save_avatar false id (ok assets) s = elim (avatar assets) [
    | none ↦ s
    | some url ↦ (stores.update_avatar id url s).1
  ]

  -- the raid part: the error after it, the JSON for the snapshot, the database
  unfoldable pub sync_raids :
      (List Expansion → String)
      → Bool
      → ℕ
      → ℤ
      → ℕ
      → Answer (List Expansion)
      → Option SyncError
      → S
      → (Option SyncError × String) × S
  unfolding raid_rows index_error
  sync_raids encode dry id expansion_id now (err e) problem s =
      ((first_error problem (index_error {A = List Expansion} (err e)), "[]"), s)
  sync_raids encode dry id expansion_id now (ok raids) problem s =
      let (e, t) =
        unless_dry dry
          (stores.replace_raids id (raid_rows id expansion_id (encode raids) now raids)) s in
      ((first_error problem (store_error e), encode raids), t)

  -- the end of the function: the snapshot, whose error comes before any other
  unfoldable pub finish_member :
      Bool
      → Character
      → ℕ
      → MythicResult
      → Option SyncError
      → String
      → S
      → (Character × Option SyncError) × S
  unfolding capture
  finish_member true c now mythic problem raid_json s = ((c, problem), s)
  finish_member false c now mythic problem raid_json s =
      let (e, t) =
        capture stores
          (record {
            id = 0;
            character_id = c.id;
            captured_at = now;
            item_level = c.item_level;
            mythic_rating = mythic.rating;
            best_key_level = mythic.best;
            raid_progress = raid_json;
          })
          s in
      ((c, first_error e problem), t)

  module _ (encode : List Expansion → String) (client : Client) (m : RosterMember)
      (anchor : TierAnchor) (now : ℕ) (dry : Bool) where
    -- everything after the character is stored
    unfoldable pub sync_details : Character → S → (Character × Option SyncError) × S
    sync_details c s =
        let s1 = save_avatar dry c.id (client.media m.realm.slug m.name) s in
        let (mythic, s2) = sync_mythic stores c anchor now dry client m s1 in
        let ((problem, raid_json), s3) =
          sync_raids encode dry c.id anchor.expansion_id now (client.raids m.realm.slug m.name)
            mythic.problem s2 in
        finish_member dry c now mythic problem raid_json s3

    unfoldable pub save_character :
        Character → Result String Character × S → (Character × Option SyncError) × S
    save_character c (err e, t) = ((c, some (stored e)), t)
    save_character c (ok saved, t) = sync_details saved t

    unfoldable pub sync_character :
        (String → String) → Guild → S → (Character × Option SyncError) × S
    unfolding save_character
    sync_character normalize g s = elim (client.profile m.realm.slug m.name) [
      | err e ↦ ((zero_character, some (upstream e)), s)
      | ok p ↦
          let c = profile_character normalize g m p now in
          elim dry [
            | true ↦ sync_details c s
            | false ↦ save_character c (stores.upsert_character c p s)
          ]
    ]
