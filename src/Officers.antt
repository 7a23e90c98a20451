-- ===== src/Officers.antt =====
-- backend/internal/store/officer.go: the notes, tags and reviews of the officers. Tags and their
-- checks; the transactions are in Changes. A tag is the list of its bytes.
pub mod Tags
pub mod Changes
pub mod Handlers
use apekeeper.Common.{
  ℕ, Bool, true, false, not, ◌&&◌, ◌||◌, ltb, leb, ◌==◌, if◌then◌else◌, Option, none, some, List,
  [], ◌∷◌, map, any, length, Result, ok, err, ℤ, eqz, is_pos,
}
use apekeeper.Domain.Text.{trim_space}
use apekeeper.Sessions.{Bytes, bytes_eq}

abbrev pub officer_note_max_length : ℕ
officer_note_max_length = 2000

abbrev pub officer_tags_max : ℕ
officer_tags_max = 20

abbrev pub officer_batch_max : ℕ
officer_batch_max = 100

-- BulkValidationError
pub record BulkValidation : Type 0 where
  pub invalid_characters : List ℤ
  pub cross_guild_characters : List ℤ
  pub invalid_runs : List ℤ
  pub cross_guild_runs : List ℤ

pub data OfficerError : Type 0 where
  invalid_tag : OfficerError
  too_many_tags : OfficerError
  invalid_batch : OfficerError
  change_required : OfficerError
  bulk_targets : BulkValidation → OfficerError
  note_too_long : OfficerError
  invalid_status : OfficerError
  character_not_found : OfficerError
  database : OfficerError

-- the classes [a-z0-9] and [a-z0-9_-] of officerTagName
abbrev pub is_alnum : ℕ → Bool
is_alnum c = (leb 97 c && leb c 122) || (leb 48 c && leb c 57)

abbrev pub is_tag_byte : ℕ → Bool
is_tag_byte c = is_alnum c || c == 95 || c == 45

unfoldable pub all_tag_bytes : Bytes → Bool
all_tag_bytes [] = true
all_tag_bytes (c ∷ cs) = let rest = all_tag_bytes cs in is_tag_byte c && rest

-- officerTagName.MatchString
unfoldable pub is_tag_name : Bytes → Bool
is_tag_name [] = false
is_tag_name (c ∷ cs) = is_alnum c && all_tag_bytes cs && leb (length cs) 31

-- the order of sort.Strings
unfoldable pub bytes_lt : Bytes → Bytes → Bool
bytes_lt xs [] = false
bytes_lt [] (y ∷ ys) = true
bytes_lt (x ∷ xs) (y ∷ ys) =
    let rest = bytes_lt xs ys in if ltb x y then true else if ltb y x then false else rest

-- A set of tags as the sorted list of its members: what the map `set` or `seen` holds, in the order
-- in which sort.Strings leaves it.
unfoldable pub add_tag : Bytes → List Bytes → List Bytes
add_tag t [] = t ∷ []
add_tag t (u ∷ us) =
    let rest = add_tag t us in
    if bytes_eq t u then u ∷ us else if bytes_lt t u then t ∷ u ∷ us else u ∷ rest

unfoldable pub add_tags : List Bytes → List Bytes → List Bytes
unfolding add_tag
add_tags [] set = set
add_tags (t ∷ ts) set = add_tags ts (add_tag t set)

unfoldable pub delete_tag : Bytes → List Bytes → List Bytes
delete_tag t [] = []
delete_tag t (u ∷ us) = let rest = delete_tag t us in if bytes_eq t u then rest else u ∷ rest

unfoldable pub delete_tags : List Bytes → List Bytes → List Bytes
unfolding delete_tag
delete_tags [] set = set
delete_tags (t ∷ ts) set = delete_tags ts (delete_tag t set)

module _ (lower : ℕ → ℕ) (space : ℕ → Bool) where
  -- the tags of the request, cleaned and checked one by one: the loop of cleanTags
  unfoldable pub check_tags : List Bytes → List Bytes → Option (List Bytes)
  unfolding add_tag is_tag_name
  check_tags [] seen = some seen
  check_tags (t ∷ ts) seen =
      let tag = trim_space lower space (map lower t) in
      let rest = check_tags ts (add_tag tag seen) in if not (is_tag_name tag) then none else rest

  -- cleanTags
  unfoldable pub clean_tags : List Bytes → Result OfficerError (List Bytes)
  unfolding check_tags
  clean_tags tags = elim (check_tags tags []) [
    | none ↦ err invalid_tag
    | some out ↦ if ltb officer_tags_max (length out) then err too_many_tags else ok out
  ]

unfoldable pub has_repeat : List ℤ → Bool
has_repeat [] = false
has_repeat (x ∷ xs) = let rest = has_repeat xs in any (λ y. eqz x y) xs || rest

-- validOfficerIDs
unfoldable pub valid_officer_ids : List ℤ → Bool
unfolding has_repeat
valid_officer_ids ids =
    if length ids == 0 || ltb officer_batch_max (length ids)
    then false
    else not (any (λ id. not (is_pos id)) ids) && not (has_repeat ids)

-- the guild of a row, of characters or of sync_runs, by its id: the map `found`
unfoldable pub owner_of : ℤ → List (ℤ × ℕ) → Option ℕ
owner_of id [] = none
owner_of id ((i, g) ∷ rows) = let found = owner_of id rows in if eqz i id then some g else found

-- the ids without a row, and those of another guild: the loop of both validations
unfoldable pub sort_ids : ℕ → List (ℤ × ℕ) → List ℤ → List ℤ × List ℤ
sort_ids guild rows [] = ([], [])
sort_ids guild rows (id ∷ ids) =
    let rest = sort_ids guild rows ids in
    elim (owner_of id rows) [
      | none ↦ (id ∷ rest.0, rest.1)
      | some owner ↦ if owner == guild then rest else (rest.0, id ∷ rest.1)
    ]
