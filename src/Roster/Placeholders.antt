-- ===== src/Roster/Placeholders.antt =====
-- The placeholders of the roster's queries are numbered as their arguments stand. The queries are
-- compared with the conditions that the filter asks for, in which each value stands at its place.
pub mod Numbering
pub mod Queries
use apekeeper.Common.{
  ℕ, ◌+◌, ◌-◌, ◌≡◌, refl, sym, ap, ◌∙◌, String, Option, none, some, List, [], ◌∷◌, ◌++◌, length,
  length-append, ℤ, if◌then◌else◌, Bool-cases, inl, inr, arith,
}
use mathlib.Core.List.{append-nil, append_assoc}
use apekeeper.Roster.{
  Arg, key, number, text, instant, days, Piece, lit, Build, one, two, add, add_two, add_some, given,
  join_and, add_rating, add_tier, raid_conditions, filters_raids, add_raids, CharacterFilter,
}
use apekeeper.Roster.Texts.{
  rating_text, season_text, and_rating_text, raids_text, age_text, status_text, tag_text,
}
use apekeeper.Roster.Placeholders.Numbering.{
  numbered, holes, numbered_all, holes_all, numbered_all-add, holes_all-add, numbered-append,
  holes-append, join-numbered, join-holes,
}

-- What a condition asks for, without numbers.
abbrev pub asked : {A : Type 0} → String → (A → Arg) → String → Option A → List (List (Piece Arg))
asked before f after none = []
asked before f after (some a) = one before (f a) after ∷ []

abbrev pub asked_rating : Option ℤ → Option String → List (List (Piece Arg))
asked_rating (some r) (some s) = two season_text (text s) and_rating_text (number r) ")" ∷ []
asked_rating (some r) none = one rating_text (number r) ")" ∷ []
asked_rating none (some s) = one season_text (text s) ")" ∷ []
asked_rating none none = []

abbrev pub asked_tier : Option String → List (List (Piece Arg))
asked_tier none = []
asked_tier (some s) = two "(r.raid_slug=" (text s) " OR r.raid_name=" (text s) ")" ∷ []

abbrev pub asked_of_raid : CharacterFilter → List (List (Piece Arg))
asked_of_raid f =
    (lit "r.character_id=c.id" ∷ []) ∷ []
    ++ asked_tier (given f.raid_tier)
    ++ asked "r.difficulty=" text "" (given f.raid_difficulty)
    ++ asked "COALESCE(r.progress,0)>=" number "" f.min_raid_progress

abbrev pub asked_raids : CharacterFilter → List (List (Piece Arg))
unfolding join_and
asked_raids f =
    if filters_raids f
    then (lit raids_text ∷ join_and (asked_of_raid f) ++ lit ")" ∷ []) ∷ []
    else []

unfoldable pub asked_conditions : (String → String) → ℕ → CharacterFilter → List (List (Piece Arg))
asked_conditions pattern guild f =
    one "c.guild_id=" (key guild) "" ∷ []
    ++ asked "c.class_name=" text "" (given f.class_name)
    ++ asked "c.spec_name=" text "" (given f.spec)
    ++ asked "c.guild_rank=" number "" f.rank
    ++ asked "c.level >= " number "" f.min_level
    ++ asked_rating f.min_rating (given f.mythic_season)
    ++ asked_raids f
    ++ asked age_text days " * interval '1 day'))" f.max_age
    ++ asked status_text text ")" (given f.officer_status)
    ++ asked tag_text text " = ANY(os.tags))" (given f.officer_tag)
    ++ asked "COALESCE(u.app_role,'member')=" text "" (given f.role)
    ++ asked "c.normalized_name LIKE " (λ s. text (pattern s)) "" (given f.search)
    ++ asked "(c.synced_at IS NULL OR c.synced_at < " instant ")" f.stale_before

-- The conditions are the asked ones, numbered on from the arguments that stand before.
pub record Matches (before : List Arg) (b : Build) (cs : List (List (Piece Arg))) : Type 0 where
  pub clauses : b.conditions ≡ numbered_all (1 + length before) cs
  pub values : b.args ≡ before ++ holes_all cs

module _ (before : List Arg) (b : Build) (cs : List (List (Piece Arg)))
    (h : Matches before b cs) where
  next_number : 1 + length b.args ≡ 1 + length before + length (holes_all cs)
  next_number = ap (λ l. 1 + length l) h.values ∙ omega (arith, length-append before (holes_all cs))

  extend-Matches :
      (c : List (Piece Arg)) (d : List (Piece ℕ))
      → d ≡ numbered (1 + length b.args) c
      → Matches before
          (record { args = b.args ++ holes c; conditions = b.conditions ++ d ∷ [] })
          (cs ++ c ∷ [])
  extend-Matches c d q = record {
    clauses =
        ap (λ l. l ++ d ∷ []) h.clauses
        ∙ ap (λ x. numbered_all (1 + length before) cs ++ x ∷ [])
            (q ∙ ap (λ n. numbered n c) next_number)
        ∙ sym (numbered_all-add (1 + length before) cs c);
    values =
        ap (λ l. l ++ holes c) h.values
        ∙ append_assoc before (holes_all cs) (holes c)
        ∙ ap (λ l. before ++ l) (sym (holes_all-add cs c));
  }

  add-Matches :
      (start : String) (v : Arg) (end : String)
      → Matches before (add start v end b) (cs ++ one start v end ∷ [])
  unfolding add numbered holes
  add-Matches start v end =
      extend-Matches (one start v end) _
        (ap (λ n. one start n end) (omega (arith, length-append b.args (v ∷ []))))

  add_two-Matches :
      (start : String) (v : Arg) (middle : String) (w : Arg) (end : String)
      → Matches before (add_two start v middle w end b) (cs ++ two start v middle w end ∷ [])
  unfolding add_two numbered holes
  add_two-Matches start v middle w end = extend-Matches (two start v middle w end) _ (
      ap (λ n. two start (n - 1) middle n end) (omega (arith, length-append b.args (v ∷ w ∷ [])))
      ∙ ap (λ n. two start n middle (1 + length b.args + 1) end) (omega arith))

  add_some-Matches :
      {A : Type 0} (start : String) (f : A → Arg) (end : String) (o : Option A)
      → Matches before (add_some start f end o b) (cs ++ asked start f end o)
  add_some-Matches start f end none = rw (append-nil cs) h
  add_some-Matches start f end (some a) = add-Matches start (f a) end

  add_tier-Matches : (o : Option String) → Matches before (add_tier o b) (cs ++ asked_tier o)
  unfolding add_tier
  add_tier-Matches none = rw (append-nil cs) h
  add_tier-Matches (some s) =
      add_two-Matches "(r.raid_slug=" (text s) " OR r.raid_name=" (text s) ")"

  add_rating-Matches :
      (o : Option ℤ) (s : Option String)
      → Matches before (add_rating o s b) (cs ++ asked_rating o s)
  unfolding add_rating
  add_rating-Matches (some r) (some s) =
      add_two-Matches season_text (text s) and_rating_text (number r) ")"
  add_rating-Matches (some r) none = add-Matches rating_text (number r) ")"
  add_rating-Matches none (some s) = add-Matches season_text (text s) ")"
  add_rating-Matches none none = rw (append-nil cs) h

abbrev first_raid : List (List (Piece Arg))
first_raid = (lit "r.character_id=c.id" ∷ []) ∷ []

raid_conditions-Matches :
    (f : CharacterFilter) (args : List Arg)
    → Matches args (raid_conditions f args) (asked_of_raid f)
unfolding raid_conditions numbered_all numbered holes holes_all
raid_conditions-Matches f args =
    let start : Build = record {
      args = args;
      conditions = (lit "r.character_id=c.id" ∷ []) ∷ [];
    } in
    let h : Matches args start first_raid = record {
      clauses = refl;
      values = sym (append-nil args);
    } in
    let c1 = first_raid ++ asked_tier (given f.raid_tier) in
    let c2 = c1 ++ asked "r.difficulty=" text "" (given f.raid_difficulty) in
    let h1 = add_tier-Matches args start first_raid h (given f.raid_tier) in
    let h2 = add_some-Matches args _ c1 h1 "r.difficulty=" text "" (given f.raid_difficulty) in
    add_some-Matches args _ c2 h2 "COALESCE(r.progress,0)>=" number "" f.min_raid_progress

raid_clause :
    (f : CharacterFilter) (args : List Arg)
    → (lit raids_text ∷ join_and (raid_conditions f args).conditions ++ lit ")" ∷ []
        ≡ numbered (1 + length args) (lit raids_text ∷ join_and (asked_of_raid f) ++ lit ")" ∷ []))
      × ((raid_conditions f args).args
          ≡ args ++ holes (lit raids_text ∷ join_and (asked_of_raid f) ++ lit ")" ∷ []))
unfolding numbered holes
raid_clause f args =
    let h = raid_conditions-Matches f args in
    (
      ap (λ l. lit raids_text ∷ join_and l ++ lit ")" ∷ []) h.clauses
          ∙ ap (λ l. lit raids_text ∷ l ++ lit ")" ∷ [])
              (join-numbered (1 + length args) (asked_of_raid f))
          ∙ ap (λ l. lit raids_text ∷ l)
              (sym (numbered-append (1 + length args) (join_and (asked_of_raid f)) (lit ")" ∷ []))),
      h.values
          ∙ ap (λ l. args ++ l)
              (sym (
                holes-append (join_and (asked_of_raid f)) (lit ")" ∷ [])
                ∙ append-nil _
                ∙ join-holes (asked_of_raid f))),
    )

add_raids-Matches :
    (f : CharacterFilter) (before : List Arg) (b : Build) (cs : List (List (Piece Arg)))
    → Matches before b cs
    → Matches before (add_raids f b) (cs ++ asked_raids f)
unfolding add_raids
add_raids-Matches f before b cs h = elim (Bool-cases (filters_raids f)) [
  | inr e ↦ rw e (rw (append-nil cs) h)
  | inl e ↦
      let clause = lit raids_text ∷ join_and (asked_of_raid f) ++ lit ")" ∷ [] in
      let (c, a) = raid_clause f b.args in rw (e, a) (extend-Matches before b cs h clause _ c)
]
