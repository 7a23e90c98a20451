-- ===== src/Domain/Text/Slugs.antt =====
-- Which runes a normalised name and a slug may hold.
use mathlib.Core.List.{reverse, reverse-cons}
use apekeeper.Common.{
  ℕ, ◌≡◌, ◌≢◌, sym, subst, Bool, true, false, ◌==◌, List, [], ◌∷◌, map, arith, All, All-append, any,
  Bool-cases, inl, inr,
}
use apekeeper.Domain.Text.{
  quote, blank, dash, underscore, without_quotes, slug_rune, trim_space, normalize_character_name,
  fields_from, join_dash, slug, api_slug,
}

-- The runes that a slug is made of: `space` is Unicode's white space.
abbrev pub IsSlugRune : (ℕ → Bool) → ℕ → Type 0
IsSlugRune space r = (r ≢ quote) × (r ≢ underscore) × (r ≢ blank) × (space r ≡ false)

abbrev IsMapped : ℕ → Type 0
IsMapped r = (r ≢ quote) × (r ≢ underscore) × (r ≢ blank)

without_quotes-quote : (s : List ℕ) → All (λ r. r ≢ quote) (without_quotes s)
unfolding without_quotes
without_quotes-quote [] = tt
without_quotes-quote (r ∷ s) = ground (arith, without_quotes-quote s)

map-slug_rune : (s : List ℕ) → All (λ r. r ≢ quote) s → All IsMapped (map slug_rune s)
map-slug_rune [] h = tt
map-slug_rune (r ∷ s) h = ground (arith, map-slug_rune s)

All-reverse : (P : ℕ → Type 0) (s : List ℕ) → All P s → All P (reverse s)
All-reverse P [] h = tt
All-reverse P (r ∷ s) h =
    rw (reverse-cons r s) (All-append P (reverse s) (r ∷ []) (All-reverse P s h.1) (h.0, tt))

module _ (lower : ℕ → ℕ) (space : ℕ → Bool) where
  fields_from-IsSlugRune :
      (word s : List ℕ)
      → All (IsSlugRune space) word
      → All IsMapped s
      → All (All (IsSlugRune space)) (fields_from lower space word s)
  unfolding fields_from
  fields_from-IsSlugRune [] [] w h = tt
  fields_from-IsSlugRune (c ∷ word) [] w h = (All-reverse (IsSlugRune space) (c ∷ word) w, tt)
  fields_from-IsSlugRune [] (r ∷ s) w h = elim (Bool-cases (space r)) [
    | inl e ↦ rw e (fields_from-IsSlugRune [] s tt h.1)
    | inr e ↦ rw e (fields_from-IsSlugRune (r ∷ []) s ((h.0.0, h.0.1, h.0.2, e), tt) h.1)
  ]
  fields_from-IsSlugRune (c ∷ word) (r ∷ s) w h = elim (Bool-cases (space r)) [
    | inl e ↦ rw e (All-reverse (IsSlugRune space) (c ∷ word) w, fields_from-IsSlugRune [] s tt h.1)
    | inr e ↦ rw e (fields_from-IsSlugRune (r ∷ c ∷ word) s ((h.0.0, h.0.1, h.0.2, e), w) h.1)
  ]

  join_dash-IsSlugRune :
      (ws : List (List ℕ))
      → space dash ≡ false
      → All (All (IsSlugRune space)) ws
      → All (IsSlugRune space) (join_dash lower space ws)
  unfolding join_dash
  join_dash-IsSlugRune [] d h = tt
  join_dash-IsSlugRune (w ∷ []) d h = h.0
  join_dash-IsSlugRune (w ∷ v ∷ ws) d h =
      All-append (IsSlugRune space) w (dash ∷ join_dash lower space (v ∷ ws)) h.0
        ((omega arith, omega arith, omega arith, d), join_dash-IsSlugRune (v ∷ ws) d h.1)

  -- If a dash is no white space, a slug holds no apostrophe, underscore or blank and no other white
  -- space, whatever the text.
  pub slug-IsSlugRune :
      (s : List ℕ) → space dash ≡ false → All (IsSlugRune space) (slug lower space s)
  unfolding slug
  slug-IsSlugRune s d = join_dash-IsSlugRune _ d (
      fields_from-IsSlugRune [] _ tt
        (map-slug_rune _ (without_quotes-quote (map lower (trim_space lower space s)))))

  -- A normalised character name holds no apostrophe.
  pub normalize_character_name-quote :
      (s : List ℕ) → All (λ r. r ≢ quote) (normalize_character_name lower space s)
  unfolding normalize_character_name
  normalize_character_name-quote s = without_quotes-quote (map lower (trim_space lower space s))

  All-quote : (s : List ℕ) → All (IsSlugRune space) s → All (λ r. r ≢ quote) s
  All-quote [] h = tt
  All-quote (r ∷ s) h = (h.0.0, All-quote s h.1)

  api_slug_quoted :
      (s : List ℕ)
      → lower quote ≡ quote
      → any (λ r. r == quote) s ≡ true
      → ¬ All (λ r. r ≢ quote) (api_slug lower space s)
  unfolding api_slug
  api_slug_quoted [] l e h = cc
  api_slug_quoted (r ∷ s) l e h = elim (Bool-cases (r == quote)) [
    | inl q ↦ h.0 (ground arith)
    | inr q ↦ api_slug_quoted s l (ground arith) h.1
  ]

  -- If lower-casing leaves the apostrophe alone and a dash is no white space, the slug that the
  -- Blizzard client puts in its URLs differs from the realm slug of the domain package on every text
  -- with an apostrophe: the client keeps it.
  pub api_slug-ne-slug :
      (s : List ℕ)
      → lower quote ≡ quote
      → space dash ≡ false
      → any (λ r. r == quote) s ≡ true
      → api_slug lower space s ≢ slug lower space s
  api_slug-ne-slug s l d e p =
      api_slug_quoted s l e
        (subst (All (λ r. r ≢ quote)) (sym p) (All-quote _ (slug-IsSlugRune s d)))
