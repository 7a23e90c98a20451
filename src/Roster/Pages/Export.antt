-- ===== src/Roster/Pages/Export.antt =====
-- The export of a roster holds every page of it.
use apekeeper.Common.{
  ℕ, zero, suc, ◌-◌, ◌*◌, ◌<◌, ◌≡◌, refl, sym, ◌∙◌, ap, String, false, str_eq, Option, none, some,
  List, [], ◌∷◌, map, take, drop, ℤ, pos, ltz, Result, ok, err, bind-ok, guard-ok, ok-inj, arith,
}
use apekeeper.Domain.{Character, Guild}
use apekeeper.Roster.{by_name, by_guild_rank}
use apekeeper.Roster.Params.{Float, RosterQuery, parse_roster_query}
use apekeeper.Roster.Params.Laws.{with_default, parse_roster_query-with_default}
use apekeeper.Roster.Pages.{
  ListCall, Reads, RosterAnswer, week, or_refuse, bad_request, positive, roster_call, roster,
  Formats, roster_csv_row, roster_csv, Download, export_records,
}
use apekeeper.Roster.Pages.Laws.{roster_call-IsExact}

module _ {A B : Type 0} (f : A → B) where
  map-take : (n : ℕ) (xs : List A) → map f (take n xs) ≡ take n (map f xs)
  map-take zero xs = refl
  map-take (suc n) [] = refl
  map-take (suc n) (x ∷ xs) = ap (λ l. f x ∷ l) (map-take n xs)

  map-drop : (n : ℕ) (xs : List A) → map f (drop n xs) ≡ drop n (map f xs)
  map-drop zero xs = refl
  map-drop (suc n) [] = refl
  map-drop (suc n) (x ∷ xs) = map-drop n xs

-- the part of a listing that LIMIT and OFFSET leave, with the same total
abbrev pub slice : ℕ → ℕ → Option (List Character × ℕ) → Option (List Character × ℕ)
slice limit offset none = none
slice limit offset (some (items, total)) = some (take limit (drop offset items), total)

abbrev pub whole : ListCall → ListCall
whole call = record call { limit = 0; offset = 0 }

item_list : Option (List Character × ℕ) → List Character
item_list none = []
item_list (some (items, total)) = items

-- PostgreSQL: a query with LIMIT and OFFSET answers that part of what it answers without them.
abbrev pub IsPaged : Reads → Type 0
IsPaged reads =
    (call : ListCall)
    → 0 < call.limit
    → reads.list_page call ≡ slice call.limit call.offset (reads.list_page (whole call))

or_refuse-ok {ℓ} :
    {A : Type ℓ} (status : ℕ) (message : String) (o : Option A) (a : A)
    → or_refuse status message o ≡ ok a
    → o ≡ some a
or_refuse-ok status message none a h = absurd (ground arith)
or_refuse-ok status message (some b) a h = ap some (ok-inj b a h)

module _ (atoi : String → Option ℤ) (parse_float : String → Option Float)
    (get : String → String) where
  -- the call of the export for a query
  abbrev listed : Guild → RosterQuery → ListCall
  listed g q = record {
    guild = g.id;
    filter = q.filter;
    limit = 0;
    offset = 0;
    sort = q.sort;
    descending = q.descending;
  }

  -- a query that names a sort is read alike by both
  same_query :
      (now : ℕ) (q x : RosterQuery)
      → str_eq (get "sort") "" ≡ false
      → parse_roster_query atoi parse_float get (now - week) by_guild_rank ≡ ok q
      → parse_roster_query atoi parse_float get (now - week) by_name ≡ ok x
      → q ≡ x
  same_query now q x named h k = ok-inj q x (
      sym h
      ∙ parse_roster_query-with_default atoi parse_float get (now - week) by_guild_rank by_name
      ∙ ap (with_default atoi parse_float get by_guild_rank) k
      ∙ rw named)

  bad_request-ok :
      (r : Result String RosterQuery) (q : RosterQuery) → bad_request r ≡ ok q → r ≡ ok q
  bad_request-ok (err e) q h = absurd (ground arith)
  bad_request-ok (ok x) q h = ap ok (ok-inj x q h)

  -- the call of a roster request is that of its query, cut to the page
  roster_call-listed :
      (g : Guild) (now page : ℕ) (call : ListCall)
      → roster_call atoi parse_float get (some g) now ≡ ok (page, call)
      → (q : RosterQuery) × (parse_roster_query atoi parse_float get (now - week) by_guild_rank
          ≡ ok q)
        × (whole call ≡ listed g q)
  unfolding roster_call
  roster_call-listed g now page call h =
      let parsed = parse_roster_query atoi parse_float get (now - week) by_guild_rank in
      let (q, b, h2) = bind-ok (bad_request parsed) _ (page, call) h in
      let (n, c, h3) =
        bind-ok (positive atoi parse_float get "page" 1 (λ v. false) "invalid roster page") _
          (page, call) h2 in
      let (s, d, h4) =
        bind-ok
          (positive atoi parse_float get "pageSize" 25 (ltz (pos 100)) "invalid roster page size") _
          (page, call) h3 in
      (q, bad_request-ok parsed q b, sym (ap (λ r. whole r.1) (guard-ok _ _ _ (page, call) h4).1))

  -- what the export of a query holds
  export_records-listed :
      (fmt : Formats) (reads : Reads) (g : Guild) (now : ℕ) (file : Download)
      → export_records atoi parse_float get fmt reads g now ≡ ok file
      → (q : RosterQuery) × (p : List Character × ℕ) × (parse_roster_query atoi parse_float get
            (now - week)
            by_name
          ≡ ok q)
        × (reads.list_page (listed g q) ≡ some p)
        × (file.records ≡ roster_csv fmt now p.0)
  unfolding export_records
  export_records-listed fmt reads g now file h =
      let parsed = parse_roster_query atoi parse_float get (now - week) by_name in
      let (q, b, h1) = bind-ok (bad_request parsed) _ file h in
      let (p, c, h2) =
        bind-ok (or_refuse 500 "roster lookup failed" (reads.list_page (listed g q))) _ file h1 in
      (
        q,
        p,
        bad_request-ok parsed q b,
        or_refuse-ok 500 "roster lookup failed" (reads.list_page (listed g q)) p c,
        ap (λ f. f.records) (sym (ok-inj _ file h2)),
      )

  -- what a page of the roster holds
  roster-listed :
      (reads : Reads) (g : Guild) (now : ℕ) (a : RosterAnswer)
      → roster atoi parse_float get reads (some g) now ≡ ok a
      → (call : ListCall) × (roster_call atoi parse_float get (some g) now ≡ ok (a.page, call))
        × (reads.list_page call ≡ some (a.items, a.total))
        × (a.page_size ≡ call.limit)
  unfolding roster
  roster-listed reads g now a h =
      let (r, b, h1) = bind-ok (roster_call atoi parse_float get (some g) now) _ a h in
      let (p, c, h2) =
        bind-ok (or_refuse 500 "roster lookup failed" (reads.list_page r.1)) _ a h1 in
      let (cs, d, h3) =
        bind-ok (or_refuse 500 "roster class lookup failed" (reads.classes r.1.guild)) _ a h2 in
      let (ss, e, h4) =
        bind-ok (or_refuse 500 "roster spec lookup failed" (reads.specs r.1.guild)) _ a h3 in
      let same = ok-inj _ a h4 in
      (
        r.1,
        b ∙ ap (λ x. ok (x.page, r.1)) same,
        or_refuse-ok 500 "roster lookup failed" (reads.list_page r.1) p c
            ∙ ap (λ x. some (x.items, x.total)) same,
        sym (ap (λ x. x.page_size) same),
      )

  -- Where the database cuts a page out of the list that it answers without one, a query that names a
  -- sort shows on each page of the roster the characters whose records stand at the page's place in
  -- the export of the same query at the same time.
  pub roster-in_export :
      (fmt : Formats) (reads : Reads) (g : Guild) (now : ℕ) (a : RosterAnswer) (file : Download)
      → IsPaged reads
      → str_eq (get "sort") "" ≡ false
      → roster atoi parse_float get reads (some g) now ≡ ok a
      → export_records atoi parse_float get fmt reads g now ≡ ok file
      → map (roster_csv_row fmt now) a.items
        ≡ take a.page_size (drop ((a.page - 1) * a.page_size) (drop 1 file.records))
  unfolding roster_csv item_list
  roster-in_export fmt reads g now a file paged named h k =
      let (call, c, items, size) = roster-listed reads g now a h in
      let (q, parsed, same) = roster_call-listed g now a.page call c in
      let (x, p, parsed', all, records) = export_records-listed fmt reads g now file k in
      let (first, least, most, offset, fits) =
        roster_call-IsExact atoi parse_float get (some g) now a.page call c in
      let agree = same_query now q x named parsed parsed' in
      let page : slice call.limit call.offset (some p) ≡ some (a.items, a.total) =
        ap (slice call.limit call.offset)
          (sym (ap reads.list_page (same ∙ ap (listed g) agree) ∙ all))
        ∙ sym (paged call least)
        ∙ items in
      let f = roster_csv_row fmt now in
      ap (λ o. map f (item_list o)) (sym page)
      ∙ map-take f call.limit (drop call.offset p.0)
      ∙ ap (take call.limit) (map-drop f call.offset p.0)
      ∙ ap (λ r. take call.limit (drop call.offset (drop 1 r))) (sym records)
      ∙ ap (λ n. take call.limit (drop n (drop 1 file.records))) offset
      ∙ ap (λ n. take n (drop ((a.page - 1) * n) (drop 1 file.records))) (sym size)
