-- ===== src/Domain/Text.antt =====
-- backend/internal/domain/normalize.go and the slugs of backend/internal/blizzard/client.go. A text
-- is the list of its runes. `lower` and `space` are the Unicode tables behind strings.ToLower,
-- strings.TrimSpace and strings.Fields.
pub mod Slugs
use mathlib.Core.List.{reverse}
use apekeeper.Common.{ℕ, Bool, not, ◌||◌, ◌==◌, if◌then◌else◌, List, [], ◌∷◌, ◌++◌, map, keep}

abbrev pub quote : ℕ
quote = 39

abbrev pub blank : ℕ
blank = 32

abbrev pub dash : ℕ
dash = 45

abbrev pub underscore : ℕ
underscore = 95

-- strings.ReplaceAll(s, "'", "")
unfoldable pub without_quotes : List ℕ → List ℕ
without_quotes s = keep (λ r. not (r == quote)) s

-- the function given to strings.Map in Slug, where a rune is kept
abbrev pub slug_rune : ℕ → ℕ
slug_rune r = if r == blank || r == underscore then dash else r

module _ (lower : ℕ → ℕ) (space : ℕ → Bool) where
  unfoldable pub trim_left : List ℕ → List ℕ
  trim_left [] = []
  trim_left (r ∷ s) = let rest = trim_left s in if space r then rest else r ∷ s

  -- strings.TrimSpace
  unfoldable pub trim_space : List ℕ → List ℕ
  unfolding trim_left
  trim_space s = reverse (trim_left (reverse (trim_left s)))

  -- normalize.go: NormalizeCharacterName
  unfoldable pub normalize_character_name : List ℕ → List ℕ
  normalize_character_name s = without_quotes (map lower (trim_space s))

  -- strings.Fields: `word` is the field that has been read, in reverse.
  unfoldable pub fields_from : List ℕ → List ℕ → List (List ℕ)
  fields_from [] [] = []
  fields_from (c ∷ word) [] = reverse (c ∷ word) ∷ []
  fields_from [] (r ∷ s) =
      let skip = fields_from [] s in
      let more = fields_from (r ∷ []) s in if space r then skip else more
  fields_from (c ∷ word) (r ∷ s) =
      let next = reverse (c ∷ word) ∷ fields_from [] s in
      let more = fields_from (r ∷ c ∷ word) s in if space r then next else more

  -- strings.Join(words, "-")
  unfoldable pub join_dash : List (List ℕ) → List ℕ
  join_dash [] = []
  join_dash (w ∷ []) = w
  join_dash (w ∷ v ∷ ws) = w ++ (dash ∷ join_dash (v ∷ ws))

  -- normalize.go: Slug
  unfoldable pub slug : List ℕ → List ℕ
  slug s = join_dash (fields_from [] (map slug_rune (without_quotes (map lower (trim_space s)))))

  -- normalize.go: RealmSlug
  unfoldable pub realm_slug : List ℕ → List ℕ
  realm_slug realm = slug realm

  -- normalize.go: GuildSlug
  unfoldable pub guild_slug : List ℕ → List ℕ → List ℕ → List ℕ
  guild_slug name realm region = slug (region ++ (dash ∷ (realm ++ (dash ∷ name))))

  -- blizzard/client.go: Slug, and RealmSlug, which is the same function
  unfoldable pub api_slug : List ℕ → List ℕ
  api_slug s = map (λ r. if r == blank then dash else r) (map lower s)
