-- ===== src/Roster/Pages.antt =====
-- The handlers that list a guild's characters: roster of httpapi/api.go and rosterExport of
-- httpapi/csv.go. The query's two results, like the texts of numbers and times in the download, are
-- parameters; an instant counts from Go's zero time.
pub mod Laws
pub mod Export
use apekeeper.Common.{
  ℕ, ◌-◌, ◌*◌, ◌/◌, ◌%◌, String, Bool, true, false, ltb, if◌then◌else◌, str_eq, Option, none, some,
  List, [], ◌∷◌, map, ℤ, pos, ltz, to_ℕ, Result, ok, err, ◌>>=◌,
}
use apekeeper.Domain.{Character, Guild, User, GuildMembership, is_stale}
use apekeeper.Access.{Refusal, refusal}
use apekeeper.Access.Members.{Faults, Db, audited}
use apekeeper.Roster.{CharacterFilter, CharacterSort, by_name, by_guild_rank}
use apekeeper.Roster.Params.{Float, integer, parse_roster_query}

-- the arguments of ListPageByGuild
pub record ListCall : Type 0 where
  pub guild : ℕ
  pub filter : CharacterFilter
  pub limit : ℕ
  pub offset : ℕ
  pub sort : CharacterSort
  pub descending : Bool

-- What the reads answer, with none for an error.
pub record Reads : Type 0 where
  pub list_page : ListCall → Option (List Character × ℕ)
  pub classes : ℕ → Option (List String)
  pub specs : ℕ → Option (List String)

-- the answer of the roster; characterJSON is left out
pub record RosterAnswer : Type 0 where
  pub items : List Character
  pub total : ℕ
  pub page : ℕ
  pub page_size : ℕ
  pub classes : List String
  pub specs : List String

abbrev pub week : ℕ
week = 604800

-- int(^uint(0) >> 1)
abbrev pub max_int : ℕ
max_int = 9223372036854775807

abbrev pub or_refuse {ℓ} : {A : Type ℓ} → ℕ → String → Option A → Result Refusal A
or_refuse status message none = err (refusal status message)
or_refuse status message (some a) = ok a

abbrev pub bad_request {ℓ} : {A : Type ℓ} → Result String A → Result Refusal A
bad_request (err message) = err (refusal 400 message)
bad_request (ok a) = ok a

module _ (atoi : String → Option ℤ) (parse_float : String → Option Float)
    (get : String → String) where
  -- `page` and `pageSize`: a number of at least 1 and, with a bound, at most that
  unfoldable pub positive : String → ℕ → (ℤ → Bool) → String → Result Refusal ℕ
  unfolding integer
  positive name default too_large message =
      if str_eq (get name) "" then ok default else elim (integer atoi parse_float get (get name)) [
        | none ↦ err (refusal 400 message)
        | some v ↦
            if ltz v (pos 1)
            then err (refusal 400 message)
            else if too_large v
            then err (refusal 400 message)
            else ok (to_ℕ v)
      ]

  -- roster, up to the first read: the page and the call; the product wraps like an int
  unfoldable pub roster_call : Option Guild → ℕ → Result Refusal (ℕ × ListCall)
  unfolding positive
  roster_call guild now = or_refuse 500 "guild lookup failed" guild >>= λ g.
      bad_request (parse_roster_query atoi parse_float get (now - week) by_guild_rank) >>= λ q.
      positive "page" 1 (λ v. false) "invalid roster page" >>= λ page.
      positive "pageSize" 25 (ltz (pos 100)) "invalid roster page size" >>= λ size.
      if ltb (max_int / size) (page - 1)
      then err (refusal 400 "roster page is too large")
      else ok (
        page,
        record {
          guild = g.id;
          filter = q.filter;
          limit = size;
          offset = (page - 1) * size % 18446744073709551616;
          sort = q.sort;
          descending = q.descending;
        },
      )

  -- roster
  unfoldable pub roster : Reads → Option Guild → ℕ → Result Refusal RosterAnswer
  unfolding roster_call
  roster reads guild now = roster_call guild now >>= λ (page, call).
      or_refuse 500 "roster lookup failed" (reads.list_page call) >>= λ result.
      or_refuse 500 "roster class lookup failed" (reads.classes call.guild) >>= λ classes.
      or_refuse 500 "roster spec lookup failed" (reads.specs call.guild) >>= λ specs. ok (record {
        items = result.0;
        total = result.1;
        page = page;
        page_size = call.limit;
        classes = classes;
        specs = specs;
      })

-- How the download writes numbers and times: strconv.Itoa, FormatFloat and Format with RFC 3339,
-- and the date in the name of the file.
pub record Formats : Type 0 where
  pub itoa : ℤ → String
  pub float : ℤ → String
  pub time : ℕ → String
  pub date : ℕ → String

-- time.Unix(0, 0), in seconds
abbrev pub unix_epoch : ℕ
unix_epoch = 62135596800

abbrev pub format_bool : Bool → String
format_bool true = "true"
format_bool false = "false"

-- csv.go: rosterCSVHeader
abbrev pub roster_csv_header : List String
roster_csv_header =
    "Name" ∷ "Realm" ∷ "Class" ∷ "Spec" ∷ "Level" ∷ "Guild Rank" ∷ "Item Level" ∷ "M+ Rating"
    ∷ "Best Key" ∷ "Stale" ∷ "Last Seen" ∷ []

-- csv.go: rosterCSVRow
unfoldable pub roster_csv_row : Formats → ℕ → Character → List String
roster_csv_row fmt now c =
    c.display_name
    ∷ c.realm
    ∷ c.class_name
    ∷ c.spec_name
    ∷ fmt.itoa c.level
    ∷ fmt.itoa c.guild_rank
    ∷ fmt.float c.item_level
    ∷ fmt.float c.mythic_rating
    ∷ fmt.itoa c.best_key_level
    ∷ format_bool (is_stale c now week)
    ∷ (if ltb unix_epoch c.synced_at then fmt.time c.synced_at else "")
    ∷ []

-- csv.go: rosterCSV, where every record can be written
unfoldable pub roster_csv : Formats → ℕ → List Character → List (List String)
unfolding roster_csv_row
roster_csv fmt now chars = roster_csv_header ∷ map (roster_csv_row fmt now) chars

-- the parts of the file's name, and its records
pub record Download : Type 0 where
  pub slug : String
  pub date : String
  pub records : List (List String)

module _ (atoi : String → Option ℤ) (parse_float : String → Option Float)
    (get : String → String) where
  -- rosterExport after the audit
  unfoldable pub export_records : Formats → Reads → Guild → ℕ → Result Refusal Download
  unfolding roster_csv
  export_records fmt reads g now =
      bad_request (parse_roster_query atoi parse_float get (now - week) by_name) >>= λ q.
      or_refuse 500 "roster lookup failed" (
        reads.list_page (record {
          guild = g.id;
          filter = q.filter;
          limit = 0;
          offset = 0;
          sort = q.sort;
          descending = q.descending;
        }))
      >>= λ page.
          ok (record { slug = g.slug; date = fmt.date now; records = roster_csv fmt now page.0 })

  -- csv.go: rosterExport
  unfoldable pub roster_export :
      Formats
      → Reads
      → Faults
      → User
      → GuildMembership
      → Option Guild
      → ℕ
      → Db
      → Result Refusal Download × Db
  unfolding audited export_records
  roster_export fmt reads f u m none now db = (err (refusal 500 "guild lookup failed"), db)
  roster_export fmt reads f u m (some g) now db =
      let (audit, t) = audited f u m "roster_export" 200 db in
      elim audit [ err e ↦ (err e, t) | ok status ↦ (export_records fmt reads g now, t) ]
