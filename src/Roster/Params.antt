-- ===== src/Roster/Params.antt =====
-- httpapi/api.go: parseRosterQuery, which the roster and the export share.
-- A query gives the text of a parameter, "" for one that is missing. `atoi` is strconv.Atoi and
-- `parse_float` strconv.ParseFloat; a time.Duration of whole days is their number.
pub mod Laws
use apekeeper.Common.{
  ℕ, String, Bool, true, false, not, ◌&&◌, ◌||◌, ltb, str_eq, if◌then◌else◌, Option, none, some, ℤ,
  pos, ltz, to_ℕ, Result, ok, err, ◌>>=◌, byte_length,
}
use apekeeper.Roster.{
  CharacterFilter, CharacterSort, by_name, by_level, by_item_level, by_guild_rank, by_realm,
  by_class_spec, by_mythic_rating, by_synced_at,
}

-- a float64 that was read from a text: a number, or NaN or an infinity
pub data Float : Type 0 where
  finite : ℤ → Float
  nan_or_inf : Float

-- what the query returns without an error
pub record RosterQuery : Type 0 where
  pub filter : CharacterFilter
  pub sort : CharacterSort
  pub descending : Bool

-- characters.go: ParseCharacterSort, with none where the second result is false
unfoldable pub parse_character_sort : String → Option CharacterSort
parse_character_sort v =
    if str_eq v "name"
    then some by_name
    else if str_eq v "level"
    then some by_level
    else if str_eq v "itemLevel"
    then some by_item_level
    else if str_eq v "guildRank"
    then some by_guild_rank
    else if str_eq v "realm"
    then some by_realm
    else if str_eq v "classSpec"
    then some by_class_spec
    else if str_eq v "mythicRating"
    then some by_mythic_rating
    else if str_eq v "syncedAt"
    then some by_synced_at
    else none

-- first
abbrev pub first : String → String → String
first a b = if str_eq a "" then b else a

-- the map of the roles that a filter may name
abbrev pub is_filter_role : String → Bool
is_filter_role s =
    str_eq s "member" || str_eq s "officer" || str_eq s "admin" || str_eq s "superadmin"

-- domain/officer.go: LifecycleStatuses
abbrev pub is_lifecycle : String → Bool
is_lifecycle s =
    str_eq s "applicant"
    || str_eq s "trial"
    || str_eq s "active"
    || str_eq s "inactive"
    || str_eq s "retired"

abbrev pub is_natural : ℤ → Bool
is_natural v = not (ltz v (pos 0))

abbrev pub is_up_to : ℕ → ℤ → Bool
is_up_to n v = not (ltz v (pos 0)) && not (ltz (pos n) v)

-- an optional text of a fixed set
unfoldable pub one_of : (String → Bool) → String → String → Result String String
one_of allowed message s = if not (str_eq s "") && not (allowed s) then err message else ok s

-- a direction that is given and is none of the two
unfoldable pub is_bad_direction : String → Bool
is_bad_direction s = not (str_eq s "") && not (str_eq s "ascending") && not (str_eq s "descending")

-- the test of the lengths of all texts of a filter
unfoldable pub is_too_long : CharacterFilter → Bool
is_too_long f =
    ltb 120 (byte_length f.search)
    || ltb 80 (byte_length f.class_name)
    || ltb 80 (byte_length f.spec)
    || ltb 80 (byte_length f.mythic_season)
    || ltb 120 (byte_length f.raid_tier)
    || ltb 40 (byte_length f.raid_difficulty)
    || ltb 20 (byte_length f.officer_status)
    || ltb 32 (byte_length f.officer_tag)
    || ltb 20 (byte_length f.role)

module _ (atoi : String → Option ℤ) (parse_float : String → Option Float)
    (get : String → String) where
  -- integer
  unfoldable pub integer : String → Option ℤ
  integer s = if str_eq s "" then none else atoi s

  -- `if v, ok := integer(s); ok { … } else if s != "" { … }` with a test of the number
  unfoldable pub optional_integer : (ℤ → Bool) → String → String → Result String (Option ℤ)
  unfolding integer
  optional_integer accepted message s = elim (integer s) [
    | some v ↦ if accepted v then ok (some v) else err message
    | none ↦ if str_eq s "" then ok none else err message
  ]

  unfoldable pub optional_rating : String → Result String (Option ℤ)
  optional_rating s = if str_eq s "" then ok none else elim (parse_float s) [
    | none ↦ err "invalid minimum rating"
    | some nan_or_inf ↦ err "invalid minimum rating"
    | some (finite v) ↦ if ltz v (pos 0) then err "invalid minimum rating" else ok (some v)
  ]

  unfoldable pub parse_stale : ℕ → Result String (Option ℕ)
  parse_stale before =
      if str_eq (get "stale") "true"
      then ok (some before)
      else if not (str_eq (get "stale") "") && not (str_eq (get "stale") "false")
      then err "invalid stale filter"
      else ok none

  -- rosterAlias; the names in its message are left out
  unfoldable pub roster_alias : String → String → Result String String
  roster_alias canonical alias =
      let a = get canonical in
      let b = get alias in
      if not (str_eq a "") && not (str_eq b "") && not (str_eq a b)
      then err "contradictory roster parameters"
      else ok (first a b)

  unfoldable pub parse_age : String → Result String (Option ℕ)
  unfolding integer
  parse_age s = if str_eq s "" then ok none else elim (integer s) [
    | none ↦ err "invalid activity age"
    | some v ↦ if is_up_to 3650 v then ok (some (to_ℕ v)) else err "invalid activity age"
  ]

  -- the numbers and the stale filter, with the texts that have one name
  unfoldable pub parse_numbers : ℕ → Result String CharacterFilter
  unfolding optional_integer optional_rating parse_stale
  parse_numbers stale_before =
      optional_integer is_natural "invalid roster rank" (get "rank") >>= λ rank.
      optional_integer (is_up_to 100) "invalid minimum level" (get "minLevel") >>= λ level.
      optional_rating (get "minRating") >>= λ rating. parse_stale stale_before >>= λ stale.
      ok (record {
        class_name = get "class";
        spec = get "spec";
        rank = rank;
        min_level = level;
        min_rating = rating;
        search = get "search";
        stale_before = stale;
        mythic_season = "";
        raid_tier = "";
        raid_difficulty = get "raidDifficulty";
        officer_status = "";
        officer_tag = "";
        role = get "role";
        min_raid_progress = none;
        max_age = none;
      })

  -- the texts that have two names, and the test of the lengths
  unfoldable pub parse_texts : CharacterFilter → Result String CharacterFilter
  unfolding roster_alias is_too_long
  parse_texts f = roster_alias "mythicSeason" "season" >>= λ season.
      roster_alias "raidTier" "raid" >>= λ tier. roster_alias "officerStatus" "status" >>= λ status.
      roster_alias "officerTag" "tag" >>= λ tag.
      let g : CharacterFilter = record f {
        mythic_season = season;
        raid_tier = tier;
        officer_status = status;
        officer_tag = tag;
      } in
      if is_too_long g then err "roster filter is too long" else ok g

  -- everything up to the sort; the test of an empty difficulty can not fail
  unfoldable pub parse_filter : ℕ → Result String CharacterFilter
  unfolding parse_numbers parse_texts one_of parse_age optional_integer roster_alias
  parse_filter stale_before = parse_numbers stale_before >>= λ numbers. parse_texts numbers >>= λ f.
      one_of is_filter_role "invalid roster role" f.role >>= λ role.
      one_of is_lifecycle "invalid officer status" f.officer_status >>= λ status.
      roster_alias "minRaidProgress" "raidProgress" >>= λ text.
      optional_integer is_natural "invalid raid progress" text >>= λ progress.
      roster_alias "activityAge" "activityAgeDays" >>= λ age_text.
      parse_age age_text >>= λ age. ok (record f { min_raid_progress = progress; max_age = age })

  -- the sort, with the default where the query names none
  unfoldable pub parse_sort : CharacterSort → Result String CharacterSort
  unfolding parse_character_sort
  parse_sort default_sort =
      if str_eq (get "sort") "" then ok default_sort else elim (parse_character_sort (get "sort")) [
        | none ↦ err "invalid roster sort"
        | some s ↦ ok s
      ]

  -- the sort and its direction
  unfoldable pub parse_order : CharacterSort → CharacterFilter → Result String RosterQuery
  unfolding parse_sort is_bad_direction
  parse_order default_sort f =
      let direction = get "direction" in
      parse_sort default_sort >>= λ sort.
      if is_bad_direction direction
      then err "invalid roster sort direction"
      else ok (record { filter = f; sort = sort; descending = str_eq direction "descending" })

  -- parseRosterQuery
  unfoldable pub parse_roster_query : ℕ → CharacterSort → Result String RosterQuery
  unfolding parse_filter parse_order
  parse_roster_query stale_before default_sort =
      parse_filter stale_before >>= λ f. parse_order default_sort f
