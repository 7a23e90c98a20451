-- ===== src/Roster.antt =====
-- The list of a guild's characters. This file: store/query_plans.go and listByGuild of
-- store/characters.go, which build the SQL of the roster and of the export.
-- A query is a list of pieces, texts and placeholders; the text of a placeholder is its number
-- after "$".
pub mod Texts
pub mod Placeholders
pub mod Params
pub mod Pages
use apekeeper.Common.{
  ℕ, ◌+◌, ◌-◌, String, Bool, true, false, ◌||◌, if◌then◌else◌, str_eq, Option, none, some, List, [],
  ◌∷◌, ◌++◌, length, ℤ, ltb,
}
use apekeeper.Roster.Texts.{
  rating_text, season_text, and_rating_text, raids_text, age_text, status_text, tag_text,
  count_text, select_text,
}

-- characters.go: CharacterSort
pub data CharacterSort : Type 0 where
  by_name by_level by_item_level by_guild_rank by_realm by_class_spec by_mythic_rating
        by_synced_at :
      CharacterSort

-- characters.go: SQL
unfoldable pub sort_sql : CharacterSort → String
sort_sql by_level = "COALESCE(c.level,0)"
sort_sql by_item_level = "COALESCE(c.item_level,0)"
sort_sql by_guild_rank = "COALESCE(c.guild_rank,0)"
sort_sql by_realm = "c.realm"
sort_sql by_class_spec = "(COALESCE(c.class_name,'') || ' ' || COALESCE(c.spec_name,''))"
sort_sql by_mythic_rating =
    "COALESCE((SELECT MAX(overall_rating) FROM mythic_plus m WHERE m.character_id=c.id),0)"
sort_sql by_synced_at = "COALESCE(c.synced_at,'epoch')"
sort_sql by_name = "c.display_name"

-- characters.go: CharacterFilter. A pointer is an Option; an age is a number of days.
pub record CharacterFilter : Type 0 where
  pub class_name : String
  pub spec : String
  pub rank : Option ℤ
  pub min_level : Option ℤ
  pub min_rating : Option ℤ
  pub search : String
  pub stale_before : Option ℕ
  pub mythic_season : String
  pub raid_tier : String
  pub raid_difficulty : String
  pub officer_status : String
  pub officer_tag : String
  pub role : String
  pub min_raid_progress : Option ℤ
  pub max_age : Option ℕ

-- an argument of a query
pub data Arg : Type 0 where
  key count : ℕ → Arg
  number : ℤ → Arg
  text : String → Arg
  instant days : ℕ → Arg

-- The placeholder of a query is the number of an argument; `A` is ℕ in the code's queries.
pub data Piece (A : Type 0) : Type 0 where
  lit : String → Piece A
  hole : A → Piece A

-- `args` and `where`, or the inner `conditions`
pub record Build : Type 0 where
  pub args : List Arg
  pub conditions : List (List (Piece ℕ))

abbrev pub one : {A : Type 0} → String → A → String → List (Piece A)
one before a after = lit before ∷ hole a ∷ lit after ∷ []

abbrev pub two : {A : Type 0} → String → A → String → A → String → List (Piece A)
two before a middle b after = lit before ∷ hole a ∷ lit middle ∷ hole b ∷ lit after ∷ []

-- the closure `add`, where Sprintf puts len(args) between the two texts
unfoldable pub add : String → Arg → String → Build → Build
add before v after b =
    let args = b.args ++ v ∷ [] in
    record { args = args; conditions = b.conditions ++ one before (length args) after ∷ [] }

-- two arguments in one condition, numbered len(args)-1 and len(args)
unfoldable pub add_two : String → Arg → String → Arg → String → Build → Build
add_two before v middle w after b =
    let args = b.args ++ v ∷ w ∷ [] in
    record {
      args = args;
      conditions = b.conditions ++ two before (length args - 1) middle (length args) after ∷ [];
    }

abbrev pub add_some : {A : Type 0} → String → (A → Arg) → String → Option A → Build → Build
add_some before f after none b = b
add_some before f after (some a) b = add before (f a) after b

-- the pointer that `if v != ""` stands for
abbrev pub given : String → Option String
given s = if str_eq s "" then none else some s

-- strings.Join(…, " AND ")
unfoldable pub join_and : {A : Type 0} → List (List (Piece A)) → List (Piece A)
join_and [] = []
join_and (c ∷ []) = c
join_and (c ∷ d ∷ cs) = c ++ lit " AND " ∷ join_and (d ∷ cs)

-- the two branches on MinRating and MythicSeason
unfoldable pub add_rating : Option ℤ → Option String → Build → Build
add_rating (some r) (some s) b = add_two season_text (text s) and_rating_text (number r) ")" b
add_rating (some r) none b = add rating_text (number r) ")" b
add_rating none (some s) b = add season_text (text s) ")" b
add_rating none none b = b

unfoldable pub add_tier : Option String → Build → Build
add_tier none b = b
add_tier (some s) b = add_two "(r.raid_slug=" (text s) " OR r.raid_name=" (text s) ")" b

-- the conditions on one raid row, from the first one, without an argument
unfoldable pub raid_conditions : CharacterFilter → List Arg → Build
unfolding add_tier
raid_conditions f args = add_some "COALESCE(r.progress,0)>=" number "" f.min_raid_progress (
    add_some "r.difficulty=" text "" (given f.raid_difficulty) (
      add_tier (given f.raid_tier)
        (record { args = args; conditions = (lit "r.character_id=c.id" ∷ []) ∷ [] })))

abbrev pub has_some : {A : Type 0} → Option A → Bool
has_some none = false
has_some (some a) = true

abbrev pub filters_raids : CharacterFilter → Bool
filters_raids f =
    has_some (given f.raid_tier)
    || has_some (given f.raid_difficulty)
    || has_some f.min_raid_progress

unfoldable pub add_raids : CharacterFilter → Build → Build
unfolding raid_conditions join_and
add_raids f b =
    let inner = raid_conditions f b.args in
    if filters_raids f
    then record {
      args = inner.args;
      conditions =
          b.conditions ++ (lit raids_text ∷ join_and inner.conditions ++ lit ")" ∷ []) ∷ [];
    }
    else b

-- listByGuild, up to the join; `normalize` is domain.NormalizeCharacterName on native text and
-- `like` puts a text between two "%"
unfoldable pub conditions_by_guild : (String → String) → ℕ → CharacterFilter → Build
unfolding add_rating add_raids
conditions_by_guild pattern guild f =
    add_some "(c.synced_at IS NULL OR c.synced_at < " instant ")" f.stale_before (
      add_some "c.normalized_name LIKE " (λ s. text (pattern s)) "" (given f.search)
        (add_some "COALESCE(u.app_role,'member')=" text "" (given f.role) (
          add_some tag_text text " = ANY(os.tags))" (given f.officer_tag) (
            add_some status_text text ")" (given f.officer_status) (
              add_some age_text days " * interval '1 day'))" f.max_age (
                add_raids f (
                  add_rating f.min_rating (given f.mythic_season) (
                    add_some "c.level >= " number "" f.min_level (
                      add_some "c.guild_rank=" number "" f.rank (
                        add_some "c.spec_name=" text "" (given f.spec) (
                          add_some "c.class_name=" text "" (given f.class_name) (record {
                            args = key guild ∷ [];
                            conditions = one "c.guild_id=" 1 "" ∷ [];
                          }))))))))))))

-- query_plans.go: RosterCountQuery
unfoldable pub roster_count_query : {A : Type 0} → List (Piece A) → List (Piece A)
roster_count_query condition = lit count_text ∷ condition

abbrev pub direction : Bool → String
direction true = " DESC"
direction false = " ASC"

-- query_plans.go: RosterSelectQuery, with the two placeholders of the page, if any
unfoldable pub roster_select_query :
    {A : Type 0} → List (Piece A) → CharacterSort → Bool → Option (A × A) → List (Piece A)
unfolding sort_sql
roster_select_query condition sort descending page =
    lit select_text ∷ condition
    ++ lit " ORDER BY "
      ∷ lit (sort_sql sort)
      ∷ lit (direction descending)
      ∷ lit ", c.display_name ASC, c.id ASC"
      ∷ elim page [
        | none ↦ []
        | some (l, o) ↦ lit " LIMIT " ∷ hole l ∷ lit " OFFSET " ∷ hole o ∷ []
      ]

-- The two queries of listByGuild with their arguments.
pub record Listing : Type 0 where
  pub count_query : List (Piece ℕ)
  pub count_args : List Arg
  pub select_query : List (Piece ℕ)
  pub select_args : List Arg

-- characters.go: listByGuild, whose limit 0 stands for the whole list
unfoldable pub list_by_guild :
    (String → String) → ℕ → CharacterFilter → ℕ → ℕ → CharacterSort → Bool → Listing
unfolding conditions_by_guild join_and roster_count_query roster_select_query
list_by_guild pattern guild f limit offset sort descending =
    let b = conditions_by_guild pattern guild f in
    let n = length b.args in
    record {
      count_query = roster_count_query (join_and b.conditions);
      count_args = b.args;
      select_query =
          roster_select_query (join_and b.conditions) sort descending
            (if ltb 0 limit then some (n + 1, n + 2) else none);
      select_args = if ltb 0 limit then b.args ++ count limit ∷ count offset ∷ [] else b.args;
    }
