-- ===== src/Scenarios/Lists.antt =====
-- A request for the second page of a roster, its export, the dashboard and a value of the log.
use apekeeper.Common.{
  ℕ, ◌-◌, ◌*◌, ◌≡◌, ◌≤◌, ◌<◌, refl, String, Bool, true, false, ltb, if◌then◌else◌, str_eq, Option,
  none, some, List, [], ◌∷◌, map, keep, take, drop, length, All, IsSorted, ℤ, pos, is_pos, ok,
  lt→ltb,
}
use Prim.Native.Nat.{min}
use apekeeper.Domain.{Character}
use apekeeper.Sync.Engine.{RaidRow}
use apekeeper.Roster.{
  CharacterFilter, by_guild_rank, by_level, roster_count_query, roster_select_query, list_by_guild,
}
use apekeeper.Roster.Placeholders.Numbering.{numbered, holes}
use apekeeper.Roster.Placeholders.Queries.{asked_where, page_of, list_by_guild-numbered}
use apekeeper.Roster.Params.{
  Float, finite, RosterQuery, parse_roster_query, integer, optional_integer, optional_rating,
  parse_stale, roster_alias, parse_age, parse_numbers, parse_texts, parse_filter, parse_order,
  parse_sort, parse_character_sort, one_of, is_too_long,
}
use apekeeper.Roster.Pages.{
  ListCall, Reads, RosterAnswer, roster, roster_call, positive, Formats, roster_csv, roster_csv_row,
  Download, export_records, max_int,
}
use apekeeper.Roster.Pages.Laws.{roster_call-IsExact}
use apekeeper.Roster.Pages.Export.{slice, IsPaged, roster-in_export}
use apekeeper.Dashboard.{DashboardCharacter, dashboard, dashboard_by_guild}
use apekeeper.Dashboard.Top.{better, ranking, dashboard-IsTop}
use apekeeper.Dashboard.Groups.{query_rows, dashboard_by_guild-query_rows}
use apekeeper.Logger.{
  Json, text, object, no_field, field, is_sensitive, contains, has_prefix, redact_json,
}
use apekeeper.Logger.Redacted.{Alike, redact_json-Alike}
use apekeeper.Scenarios.{apes}
use apekeeper.Scenarios.Rosters.{character}
use apekeeper.Scenarios.Tables.{snapshot_at, raid}

abbrev atoi : String → Option ℤ
atoi s = if str_eq s "1" then some (pos 1) else if str_eq s "2" then some (pos 2) else none

abbrev parse_float : String → Option Float
parse_float s = if str_eq s "2000" then some (finite (pos 2000)) else none

-- rank=2&minRating=2000&season=14&sort=level&page=2&pageSize=1
abbrev get : String → String
get k =
    if str_eq k "rank"
    then "2"
    else if str_eq k "minRating"
    then "2000"
    else if str_eq k "season"
    then "14"
    else if str_eq k "sort"
    then "level"
    else if str_eq k "page"
    then "2"
    else if str_eq k "pageSize"
    then "1"
    else ""

abbrev filter : CharacterFilter
filter = record {
  class_name = "";
  spec = "";
  rank = some (pos 2);
  min_level = none;
  min_rating = some (pos 2000);
  search = "";
  stale_before = none;
  mythic_season = "14";
  raid_tier = "";
  raid_difficulty = "";
  officer_status = "";
  officer_tag = "";
  role = "";
  min_raid_progress = none;
  max_age = none;
}

abbrev query : RosterQuery
query = record { filter = filter; sort = by_level; descending = false }

query_parsed : parse_roster_query atoi parse_float get 100 by_guild_rank ≡ ok query
unfolding parse_roster_query parse_filter parse_numbers parse_texts parse_order parse_sort
    parse_character_sort optional_integer optional_rating parse_stale roster_alias parse_age one_of
    is_too_long integer
query_parsed = refl

abbrev call : ListCall
call = record {
  guild = 1;
  filter = filter;
  limit = 1;
  offset = 1;
  sort = by_level;
  descending = false;
}

called : roster_call atoi parse_float get (some apes) 700000 ≡ ok (2, call)
unfolding roster_call positive parse_roster_query parse_filter parse_numbers parse_texts parse_order
    parse_sort parse_character_sort optional_integer optional_rating parse_stale roster_alias
    parse_age one_of is_too_long integer
called = refl

roster_call-IsExact_example : (0 < 2) × (0 < 1) × (1 ≤ 100) × (1 ≡ (2 - 1) * 1) × (1 ≤ max_int)
roster_call-IsExact_example =
    roster_call-IsExact atoi parse_float get (some apes) 700000 2 call called

abbrev bea : Character
bea = record character { id = 8; display_name = "Bea" }

abbrev everyone : Option (List Character × ℕ)
everyone = some (character ∷ bea ∷ [], 2)

abbrev reads : Reads
reads = record {
  list_page = λ c. if ltb 0 c.limit then slice c.limit c.offset everyone else everyone;
  classes = λ g. some ("Mage" ∷ []);
  specs = λ g. some ("Frost" ∷ []);
}

reads-IsPaged : IsPaged reads
reads-IsPaged c h = rw (lt→ltb 0 c.limit h)

abbrev formats : Formats
formats = record { itoa = λ v. "7"; float = λ v. "1.5"; time = λ t. "t"; date = λ t. "20260101" }

abbrev answer : RosterAnswer
answer = record {
  items = bea ∷ [];
  total = 2;
  page = 2;
  page_size = 1;
  classes = "Mage" ∷ [];
  specs = "Frost" ∷ [];
}

answered : roster atoi parse_float get reads (some apes) 700000 ≡ ok answer
unfolding roster roster_call positive parse_roster_query parse_filter parse_numbers parse_texts
    parse_order parse_sort parse_character_sort optional_integer optional_rating parse_stale
    roster_alias parse_age one_of is_too_long integer
answered = refl

abbrev file : Download
file = record {
  slug = "apes";
  date = "20260101";
  records = roster_csv formats 700000 (character ∷ bea ∷ []);
}

exported : export_records atoi parse_float get formats reads apes 700000 ≡ ok file
unfolding export_records roster_csv parse_roster_query parse_filter parse_numbers parse_texts
    parse_order parse_sort parse_character_sort optional_integer optional_rating parse_stale
    roster_alias parse_age one_of is_too_long integer
exported = refl

roster-in_export_example :
    map (roster_csv_row formats 700000) (bea ∷ [])
    ≡ take 1 (drop ((2 - 1) * 1) (drop 1 file.records))
roster-in_export_example =
    roster-in_export atoi parse_float get formats reads apes 700000 answer file reads-IsPaged refl
      answered exported

list_by_guild-numbered_example :
    let l = list_by_guild (λ s. s) 1 filter 25 50 by_level true in
    let counted = roster_count_query (asked_where (λ s. s) 1 filter) in
    let listed =
      roster_select_query (asked_where (λ s. s) 1 filter) by_level true (page_of 25 50) in
    (l.count_query ≡ numbered 1 counted)
    × (l.count_args ≡ holes counted)
    × (l.select_query ≡ numbered 1 listed)
    × (l.select_args ≡ holes listed)
list_by_guild-numbered_example = list_by_guild-numbered (λ s. s) 1 filter 25 50 by_level true

abbrev no_raid : RaidRow
no_raid = record raid { raid_slug = "" }

abbrev of_character : Character → List RaidRow → DashboardCharacter
of_character c rs = record {
  character = c;
  best_key = pos 12;
  raids = rs;
  snapshot_count = 1;
  first = snapshot_at 20;
  last = snapshot_at 20;
}

abbrev guild_characters : List DashboardCharacter
guild_characters =
    of_character (record character { mythic_rating = pos 2400 }) (raid ∷ [])
    ∷ of_character (record bea { mythic_rating = pos 2500 }) []
    ∷ []

dashboard_by_guild-query_rows_example :
    dashboard_by_guild (query_rows no_raid guild_characters) ≡ guild_characters
dashboard_by_guild-query_rows_example =
    dashboard_by_guild-query_rows no_raid refl guild_characters (refl, tt)
      (((refl, refl), tt), (tt, tt))

dashboard-IsTop_example :
    let f = dashboard 700000 guild_characters in
    IsSorted better f.top
    × (length f.top ≡ min 10 f.rated_count)
    × All (λ c. is_pos c.character.mythic_rating ≡ true) f.top
    × All (λ d. All (λ k. better d k ≡ false) f.top) (drop 10 (ranking guild_characters))
    × ((p : DashboardCharacter → Bool)
        → length (keep p (ranking guild_characters))
          ≡ length (keep p (keep (λ c. is_pos c.character.mythic_rating) guild_characters)))
dashboard-IsTop_example = dashboard-IsTop 700000 guild_characters

abbrev logged : String → Json
logged secret = object (field "access_token" (text secret) (field "path" (text "/api") no_field))

logged-Alike : Alike (λ s. s) (logged "one") (logged "two")
unfolding Alike is_sensitive contains has_prefix
logged-Alike = (refl, tt, (refl, refl, tt))

redact_json-Alike_example :
    redact_json (λ s. s) (logged "one") ≡ redact_json (λ s. s) (logged "two")
redact_json-Alike_example = redact_json-Alike (λ s. s) (logged "one") (logged "two") logged-Alike
