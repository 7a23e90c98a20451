-- ===== src/Roster/Placeholders/Queries.antt =====
-- The whole of listByGuild: each placeholder of its two queries stands for the value that the filter
-- asks for at that place.
use apekeeper.Common.{
  ℕ, ◌+◌, ◌≡◌, refl, sym, ap, ◌∙◌, String, Bool, Option, none, some, List, [], ◌∷◌, ◌++◌, length,
  ltb, if◌then◌else◌, Bool-cases, inl, inr, arith,
}
use mathlib.Core.List.{append-nil}
use apekeeper.Roster.{
  Arg, key, number, text, count, instant, days, Piece, lit, hole, one, given, join_and,
  conditions_by_guild, CharacterFilter, roster_count_query, roster_select_query, list_by_guild,
  CharacterSort, sort_sql, direction,
}
use apekeeper.Roster.Texts.{age_text, status_text, tag_text, count_text, select_text}
use apekeeper.Roster.Placeholders.Numbering.{
  numbered, holes, numbered_all, holes_all, count_from, holes-numbered, numbered-append,
  holes-append, join-numbered, join-holes,
}
use apekeeper.Roster.Placeholders.{
  Matches, asked, asked_rating, asked_raids, asked_conditions, add_some-Matches, add_rating-Matches,
  add_raids-Matches,
}

abbrev of_guild : ℕ → List (List (Piece Arg))
of_guild guild = one "c.guild_id=" (key guild) "" ∷ []

first-Matches :
    (guild : ℕ)
    → Matches []
        (record { args = key guild ∷ []; conditions = one "c.guild_id=" 1 "" ∷ [] })
        (of_guild guild)
unfolding numbered_all numbered holes holes_all
first-Matches guild = record { clauses = refl; values = refl }

conditions_by_guild-Matches :
    (pattern : String → String) (guild : ℕ) (f : CharacterFilter)
    → Matches [] (conditions_by_guild pattern guild f) (asked_conditions pattern guild f)
unfolding conditions_by_guild asked_conditions
conditions_by_guild-Matches pattern guild f =
    let c0 = of_guild guild in
    let h0 = first-Matches guild in
    let c1 = c0 ++ asked "c.class_name=" text "" (given f.class_name) in
    let h1 = add_some-Matches [] _ c0 h0 "c.class_name=" text "" (given f.class_name) in
    let c2 = c1 ++ asked "c.spec_name=" text "" (given f.spec) in
    let h2 = add_some-Matches [] _ c1 h1 "c.spec_name=" text "" (given f.spec) in
    let c3 = c2 ++ asked "c.guild_rank=" number "" f.rank in
    let h3 = add_some-Matches [] _ c2 h2 "c.guild_rank=" number "" f.rank in
    let c4 = c3 ++ asked "c.level >= " number "" f.min_level in
    let h4 = add_some-Matches [] _ c3 h3 "c.level >= " number "" f.min_level in
    let c5 = c4 ++ asked_rating f.min_rating (given f.mythic_season) in
    let h5 = add_rating-Matches [] _ c4 h4 f.min_rating (given f.mythic_season) in
    let c6 = c5 ++ asked_raids f in
    let h6 = add_raids-Matches f [] _ c5 h5 in
    let c7 = c6 ++ asked age_text days " * interval '1 day'))" f.max_age in
    let h7 = add_some-Matches [] _ c6 h6 age_text days " * interval '1 day'))" f.max_age in
    let c8 = c7 ++ asked status_text text ")" (given f.officer_status) in
    let h8 = add_some-Matches [] _ c7 h7 status_text text ")" (given f.officer_status) in
    let c9 = c8 ++ asked tag_text text " = ANY(os.tags))" (given f.officer_tag) in
    let h9 = add_some-Matches [] _ c8 h8 tag_text text " = ANY(os.tags))" (given f.officer_tag) in
    let c10 = c9 ++ asked "COALESCE(u.app_role,'member')=" text "" (given f.role) in
    let h10 = add_some-Matches [] _ c9 h9 "COALESCE(u.app_role,'member')=" text "" (given f.role) in
    let c11 = c10 ++ asked "c.normalized_name LIKE " (λ s. text (pattern s)) "" (given f.search) in
    let h11 =
      add_some-Matches [] _ c10 h10 "c.normalized_name LIKE " (λ s. text (pattern s)) ""
        (given f.search) in
    add_some-Matches [] _ c11 h11 "(c.synced_at IS NULL OR c.synced_at < " instant ")"
      f.stale_before

-- The page of a listing, or none for the whole list.
abbrev pub page_of : ℕ → ℕ → Option (Arg × Arg)
page_of limit offset = if ltb 0 limit then some (count limit, count offset) else none

module _ (pattern : String → String) (guild : ℕ) (f : CharacterFilter) where
  abbrev pub asked_where : List (Piece Arg)
  asked_where = join_and (asked_conditions pattern guild f)

  where-numbered :
      join_and (conditions_by_guild pattern guild f).conditions ≡ numbered 1 asked_where
  where-numbered =
      ap join_and (conditions_by_guild-Matches pattern guild f).clauses
      ∙ join-numbered 1 (asked_conditions pattern guild f)

  where-holes : (conditions_by_guild pattern guild f).args ≡ holes asked_where
  where-holes =
      (conditions_by_guild-Matches pattern guild f).values
      ∙ sym (join-holes (asked_conditions pattern guild f))

  -- what follows the WHERE clause
  abbrev after_where : {A : Type 0} → CharacterSort → Bool → List (Piece A) → List (Piece A)
  after_where sort descending page =
      lit " ORDER BY "
      ∷ lit (sort_sql sort)
      ∷ lit (direction descending)
      ∷ lit ", c.display_name ASC, c.id ASC"
      ∷ page

  abbrev limits : {A : Type 0} → A → A → List (Piece A)
  limits l o = lit " LIMIT " ∷ hole l ∷ lit " OFFSET " ∷ hole o ∷ []

  paged :
      (sort : CharacterSort) (descending : Bool) (limit offset l o : ℕ)
      → l ≡ 1 + length (holes asked_where)
      → o ≡ 1 + length (holes asked_where) + 1
      → roster_select_query (numbered 1 asked_where) sort descending (some (l, o))
        ≡ numbered 1
            (roster_select_query asked_where sort descending (some (count limit, count offset)))
  unfolding roster_select_query numbered
  paged sort descending limit offset l o p q =
      let start : List (Piece ℕ) → List (Piece ℕ) =
        λ page. lit select_text ∷ numbered 1 asked_where ++ after_where sort descending page in
      ap (λ k. start (limits k o)) p
      ∙ ap (λ k. start (limits (1 + length (holes asked_where)) k)) q
      ∙ ap (λ r. lit select_text ∷ r)
          (sym (
            numbered-append 1 asked_where
              (after_where sort descending (limits (count limit) (count offset)))))

  whole :
      (sort : CharacterSort) (descending : Bool)
      → roster_select_query (numbered 1 asked_where) sort descending none
        ≡ numbered 1 (roster_select_query asked_where sort descending none)
  unfolding roster_select_query numbered
  whole sort descending =
      ap (λ l. lit select_text ∷ l)
        (sym (numbered-append 1 asked_where (after_where sort descending [])))

  whole-holes :
      (sort : CharacterSort) (descending : Bool)
      → holes (roster_select_query asked_where sort descending none) ≡ holes asked_where
  unfolding roster_select_query holes
  whole-holes sort descending =
      holes-append asked_where (after_where sort descending []) ∙ append-nil (holes asked_where)

  paged-holes :
      (sort : CharacterSort) (descending : Bool) (l o : Arg)
      → holes (roster_select_query asked_where sort descending (some (l, o)))
        ≡ holes asked_where ++ l ∷ o ∷ []
  unfolding roster_select_query holes
  paged-holes sort descending l o =
      holes-append asked_where (after_where sort descending (limits l o))

  -- The count query and the list query of a listing are the queries over the values that the filter
  -- asks for, with the values replaced by the numbers 1, 2, 3, … in order, and the arguments of each
  -- are those values in the same order; without a limit the list query has no page.
  pub list_by_guild-numbered :
      (limit offset : ℕ) (sort : CharacterSort) (descending : Bool)
      → let l = list_by_guild pattern guild f limit offset sort descending in
        let counted = roster_count_query asked_where in
        let listed = roster_select_query asked_where sort descending (page_of limit offset) in
        (l.count_query ≡ numbered 1 counted)
        × (l.count_args ≡ holes counted)
        × (l.select_query ≡ numbered 1 listed)
        × (l.select_args ≡ holes listed)
  unfolding list_by_guild roster_count_query numbered holes
  list_by_guild-numbered limit offset sort descending = elim (Bool-cases (ltb 0 limit)) [
    | inl e ↦ rw e (
      ap (λ l. lit count_text ∷ l) where-numbered,
      where-holes,
      ap
            (λ l. roster_select_query l sort descending (
              some (
                length (conditions_by_guild pattern guild f).args + 1,
                length (conditions_by_guild pattern guild f).args + 2,
              )))
            where-numbered
          ∙ paged sort descending limit offset _ _ (omega (arith, ap length where-holes))
              (omega (arith, ap length where-holes)),
      ap (λ l. l ++ count limit ∷ count offset ∷ []) where-holes
          ∙ sym (paged-holes sort descending (count limit) (count offset)),
    )
    | inr e ↦ rw e (
      ap (λ l. lit count_text ∷ l) where-numbered,
      where-holes,
      ap (λ l. roster_select_query l sort descending none) where-numbered ∙ whole sort descending,
      where-holes ∙ sym (whole-holes sort descending),
    )
  ]

  -- The placeholders of the two queries are $1, $2, … in order, one for each argument.
  pub list_by_guild-places :
      (limit offset : ℕ) (sort : CharacterSort) (descending : Bool)
      → let l = list_by_guild pattern guild f limit offset sort descending in
        (holes l.count_query ≡ count_from 1 (length l.count_args))
        × (holes l.select_query ≡ count_from 1 (length l.select_args))
  list_by_guild-places limit offset sort descending =
      let (cq, ca, sq, sa) = list_by_guild-numbered limit offset sort descending in
      (
        rw (cq, ca) (holes-numbered 1 (roster_count_query asked_where)),
        rw (sq, sa)
            (holes-numbered 1
              (roster_select_query asked_where sort descending (page_of limit offset))),
      )
