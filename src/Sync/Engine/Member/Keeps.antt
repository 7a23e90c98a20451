-- ===== src/Sync/Engine/Member/Keeps.antt =====
-- What every statement of the stores preserves, a member's sync preserves.
use apekeeper.Common.{
  ℕ, String, Bool, true, false, Option, none, some, List, [], ◌∷◌, Result, ok, err, ℤ, is_pos,
  Bool-cases, Option-cases, Result-cases, inl, inr,
}
use apekeeper.Domain.{Character, Guild, Snapshot, snapshot_changed}
use apekeeper.Upstream.{Client, RosterMember, Expansion, Answer, MediaAsset, ProfileSummary}
use apekeeper.Sync.Engine.{Stores, SyncError, MythicRow, RaidRow, MythicRun, capture}
use apekeeper.Sync.Engine.Anchor.{TierAnchor}
use apekeeper.Sync.Engine.Mythic.{
  sync_mythic, write_mythic, MythicResult, SeasonFetch, found, missing, broken,
}
use apekeeper.Sync.Engine.Member.{
  save_avatar, avatar, sync_raids, finish_member, sync_details, save_character, sync_character,
  profile_character,
}

-- The statements outside the mythic+ part preserve `P`, refused or not.
pub record KeepsRest {S : Type 0} (stores : Stores S) (P : S → Type 0) : Type 0 where
  pub character :
      (c : Character) (p : ProfileSummary) (s : S) → P s → P (stores.upsert_character c p s).1
  pub portrait : (id : ℕ) (url : String) (s : S) → P s → P (stores.update_avatar id url s).1
  pub raids : (id : ℕ) (rs : List RaidRow) (s : S) → P s → P (stores.replace_raids id rs s).1
  pub snapshot : (x : Snapshot) (s : S) → P s → P (stores.insert_snapshot x s).1

-- The statements of the stores preserve `P`, refused or not.
pub record Keeps {S : Type 0} (stores : Stores S) (P : S → Type 0) : Type 0 where
  pub others : KeepsRest stores P
  pub mythic : (m : MythicRow) (s : S) → P s → P (stores.upsert_mythic_plus m s).1
  pub runs : (m : MythicRow) (s : S) → P s → P (stores.upsert_mythic_plus_runs m s).1

module _ {S : Type 0} (stores : Stores S) (P : S → Type 0) (keeps : KeepsRest stores P) where
  capture-Keeps : (x : Snapshot) (s : S) → P s → P (capture stores x s).1
  unfolding capture
  capture-Keeps x s h = elim (Result-cases (stores.last_snapshot x.character_id s)) [
    | inr (e, q) ↦ rw (q, capture) h
    | inl (none, q) ↦ rw (q, capture) (keeps.snapshot x s h)
    | inl (some prev, q) ↦ elim (Bool-cases (snapshot_changed prev x)) [
      | inl d ↦ rw (q, capture, d) (keeps.snapshot x s h)
      | inr d ↦ rw (q, capture, d) h
    ]
  ]

  save_avatar-Keeps :
      (dry : Bool) (id : ℕ) (a : Answer (List MediaAsset)) (s : S)
      → P s
      → P (save_avatar stores dry id a s)
  unfolding save_avatar
  save_avatar-Keeps dry id (err e) s h = h
  save_avatar-Keeps true id (ok assets) s h = h
  save_avatar-Keeps false id (ok assets) s h = elim (Option-cases (avatar assets)) [
    | inl q ↦ rw (q, save_avatar) h
    | inr (url, q) ↦ rw (q, save_avatar) (keeps.portrait id url s h)
  ]

  sync_raids-Keeps :
      (encode : List Expansion → String) (dry : Bool) (id : ℕ) (expansion_id : ℤ) (now : ℕ)
      (a : Answer (List Expansion)) (problem : Option SyncError) (s : S)
      → P s
      → P (sync_raids stores encode dry id expansion_id now a problem s).1
  unfolding sync_raids
  sync_raids-Keeps encode dry id expansion_id now (err e) problem s h = h
  sync_raids-Keeps encode true id expansion_id now (ok x) problem s h = h
  sync_raids-Keeps encode false id expansion_id now (ok x) problem s h = keeps.raids id _ s h

  finish_member-Keeps :
      (dry : Bool) (c : Character) (now : ℕ) (mythic : MythicResult) (problem : Option SyncError)
      (raid_json : String) (s : S)
      → P s
      → P (finish_member stores dry c now mythic problem raid_json s).1
  unfolding finish_member
  finish_member-Keeps true c now mythic problem raid_json s h = h
  finish_member-Keeps false c now mythic problem raid_json s h = capture-Keeps _ s h

  module _ (encode : List Expansion → String) (client : Client) (m : RosterMember)
      (anchor : TierAnchor) (now : ℕ) (dry : Bool)
      (season : (c : Character) (s : S)
        → P s
        → P (sync_mythic stores c anchor now dry client m s).1) where
    sync_details-Keeps :
        (c : Character) (s : S) → P s → P (sync_details stores encode client m anchor now dry c s).1
    unfolding sync_details
    sync_details-Keeps c s h = finish_member-Keeps dry c now _ _ _ _ (
        sync_raids-Keeps encode dry c.id anchor.expansion_id now _ _ _
          (season c _ (save_avatar-Keeps dry c.id _ s h)))

    save_character-Keeps :
        (c : Character) (r : Result String Character × S)
        → P r.1
        → P (save_character stores encode client m anchor now dry c r).1
    unfolding save_character
    save_character-Keeps c (err e, t) h = h
    save_character-Keeps c (ok saved, t) h = sync_details-Keeps saved t h

    pub sync_character-KeepsRest :
        (normalize : String → String) (g : Guild) (s : S)
        → P s
        → P (sync_character stores encode client m anchor now dry normalize g s).1
    unfolding sync_character
    sync_character-KeepsRest normalize g s h =
        elim (Result-cases (client.profile m.realm.slug m.name)) [
          | inr (e, q) ↦ rw (q, sync_character) h
          | inl (p, q) ↦
              let c = profile_character normalize g m p now in
              elim (Bool-cases dry) [
                | inl d ↦ rw (q, sync_character, d) (sync_details-Keeps c s h)
                | inr d ↦
                    rw (q, sync_character, d)
                      (save_character-Keeps c (stores.upsert_character c p s)
                        (keeps.character c p s h))
              ]
        ]

module _ {S : Type 0} (stores : Stores S) (P : S → Type 0) (keeps : Keeps stores P) where
  module _ (c : Character) (anchor : TierAnchor) (now : ℕ) where
    write_mythic-Keeps :
        (dry : Bool) (f : SeasonFetch) (recent : List MythicRun) (problem : Option SyncError)
        (s : S)
        → P s
        → P (write_mythic stores c anchor now dry f recent problem s).1
    unfolding write_mythic
    write_mythic-Keeps true (found p) rs problem s h = h
    write_mythic-Keeps false (found p) rs problem s h = keeps.mythic _ s h
    write_mythic-Keeps dry missing [] problem s h = h
    write_mythic-Keeps true missing (r ∷ rs) problem s h = h
    write_mythic-Keeps false missing (r ∷ rs) problem s h = keeps.runs _ s h
    write_mythic-Keeps dry (broken b) rs problem s h = h

    sync_mythic-Keeps :
        (dry : Bool) (client : Client) (m : RosterMember) (s : S)
        → P s
        → P (sync_mythic stores c anchor now dry client m s).1
    unfolding sync_mythic
    sync_mythic-Keeps dry client m s h = elim (Bool-cases (is_pos anchor.season_id)) [
      | inl e ↦ rw e (write_mythic-Keeps dry _ _ _ s h)
      | inr e ↦ rw e h
    ]

  pub sync_character-Keeps :
      (encode : List Expansion → String) (client : Client) (m : RosterMember) (anchor : TierAnchor)
      (now : ℕ) (dry : Bool) (normalize : String → String) (g : Guild) (s : S)
      → P s
      → P (sync_character stores encode client m anchor now dry normalize g s).1
  sync_character-Keeps encode client m anchor now dry =
      sync_character-KeepsRest stores P keeps.others encode client m anchor now dry
        (λ c s h. sync_mythic-Keeps c anchor now dry client m s h)
