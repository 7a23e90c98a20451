-- ===== src/Sync/Engine/Anchor.antt =====
-- engine.go: TierAnchor, resolveTierAnchor and SeasonDisplayName.
use Prim.Native.Char.{Char, code}
use apekeeper.Common.{
  ltz_larger_left, ltz_larger_right, ltz_irrefl, any, ◌&&◌, eqz_refl, ◌≡◌, refl, String, Bool, true,
  false, not, ◌==◌, if◌then◌else◌, Option, none, some, List, [], ◌∷◌, ℤ, pos, ltz, eqz, ok, err,
  str_eq, arith, All, Bool-cases, inl, inr, ◌⊎◌, ◌∙◌,
}
use apekeeper.Upstream.{Client, SeasonIndex, Tier}

pub record TierAnchor : Type 0 where
  pub season_id : ℤ
  pub season_name : String
  pub expansion_id : ℤ

-- the loop over the seasons, from a = 0
unfoldable pub max_season : ℤ → List ℤ → ℤ
max_season a [] = a
max_season a (s ∷ ss) = max_season (if ltz a s then s else a) ss

-- the loop over the journal's tiers, which skips the pseudo tier
unfoldable pub max_tier : ℤ → List Tier → ℤ
max_tier a [] = a
max_tier a (t ∷ ts) =
    max_tier (if str_eq t.name "Current Season" then a else if ltz a t.id then t.id else a) ts

unfoldable pub season_id : SeasonIndex → ℤ
unfolding max_season
season_id x = if eqz x.current_id (pos 0) then max_season x.current_id x.seasons else x.current_id

unfoldable pub resolve_tier_anchor : Client → TierAnchor
unfolding season_id max_tier
resolve_tier_anchor client = record {
  season_id = elim client.season_index [ err e ↦ pos 0 | ok x ↦ season_id x ];
  season_name = elim client.season_index [ err e ↦ "" | ok x ↦ x.current_name ];
  expansion_id = elim client.expansion_index [ err e ↦ pos 0 | ok ts ↦ max_tier (pos 0) ts ];
}

-- strings.TrimPrefix, with `none` where strings.HasPrefix is false
unfoldable pub strip_prefix : String → String → Option String
strip_prefix String.[] s = some s
strip_prefix (String.◌∷◌ c p) String.[] = none
strip_prefix (String.◌∷◌ c p) (String.◌∷◌ d s) = if code c == code d then strip_prefix p s else none

abbrev prepend : Char → Option String → Option String
prepend c none = none
prepend c (some s) = some (String.◌∷◌ c s)

-- strings.TrimSuffix(s, ")"), with `none` where strings.HasSuffix is false
unfoldable pub strip_paren : String → Option String
strip_paren String.[] = none
strip_paren (String.◌∷◌ c String.[]) = if code c == b')' then some String.[] else none
strip_paren (String.◌∷◌ c (String.◌∷◌ d s)) = prepend c (strip_paren (String.◌∷◌ d s))

abbrev or_name : Option String → String → String
or_name none name = name
or_name (some s) name = s

abbrev label : String
label = "Mythic+ Dungeons ("

-- The label does not end in a parenthesis that closes, so the name ends in one exactly when what
-- follows the label does.
unfoldable pub season_display_name : String → String
unfolding strip_prefix strip_paren
season_display_name name = elim (strip_prefix label name) [
  | none ↦ name
  | some rest ↦ or_name (strip_paren rest) name
]

display_test :
    season_display_name "Mythic+ Dungeons (The War Within Season 2)" ≡ "The War Within Season 2"
unfolding season_display_name
display_test = refl

ltz_larger :
    (m a s : ℤ) → ltz m (if ltz a s then s else a) ≡ false → (ltz m a ≡ false) × (ltz m s ≡ false)
ltz_larger m a s h = (ltz_larger_left m a s h, ltz_larger_right m a s h)

pub max_season-bound :
    (a : ℤ) (ss : List ℤ)
    → (ltz (max_season a ss) a ≡ false) × All (λ s. ltz (max_season a ss) s ≡ false) ss
unfolding max_season
max_season-bound a [] = (ltz_irrefl a, tt)
max_season-bound a (s ∷ ss) =
    let (ha, hs) = max_season-bound (if ltz a s then s else a) ss in
    let (h, k) = ltz_larger (max_season (if ltz a s then s else a) ss) a s ha in (h, (k, hs))

-- The tiers that may stand for an expansion.
abbrev pub is_real : Tier → Bool
is_real t = not (str_eq t.name "Current Season")

abbrev next_tier : ℤ → Tier → ℤ
next_tier a t = if str_eq t.name "Current Season" then a else if ltz a t.id then t.id else a

ltz_tier :
    (m a : ℤ) (t : Tier)
    → ltz m (next_tier a t) ≡ false
    → (ltz m a ≡ false) × ((is_real t && ltz m t.id) ≡ false)
ltz_tier m a t h = elim (Bool-cases (str_eq t.name "Current Season")) [
  | inl e ↦ (rw e at h, rw e)
  | inr e ↦ rw e (ltz_larger m a t.id (rw e at h))
]

max_tier-bound :
    (a : ℤ) (ts : List Tier)
    → (ltz (max_tier a ts) a ≡ false)
      × All (λ t. (is_real t && ltz (max_tier a ts) t.id) ≡ false) ts
unfolding max_tier
max_tier-bound a [] = (ltz_irrefl a, tt)
max_tier-bound a (t ∷ ts) =
    let (ha, hs) = max_tier-bound (next_tier a t) ts in
    let (h, k) = ltz_tier (max_tier (next_tier a t) ts) a t ha in (h, (k, hs))

max_tier-among :
    (a : ℤ) (ts : List Tier)
    → (max_tier a ts ≡ a) ⊎ (any (λ t. is_real t && eqz (max_tier a ts) t.id) ts ≡ true)
unfolding max_tier
max_tier-among a [] = inl refl
max_tier-among a (t ∷ ts) = elim (max_tier-among (next_tier a t) ts) [
  | inr h ↦ inr (ground arith)
  | inl h ↦ elim (Bool-cases (str_eq t.name "Current Season")) [
    | inl e ↦ inl (h ∙ rw e)
    | inr e ↦ elim (Bool-cases (ltz a t.id)) [
      | inr g ↦ inl (h ∙ rw (e, g))
      | inl l ↦
          let q : max_tier (next_tier a t) ts ≡ t.id = h ∙ rw (e, l) in
          inr (rw (q, e, eqz_refl t.id))
    ]
  ]
]

-- When the journal answers, the anchored expansion is at least 0 and at least every tier but the
-- pseudo tiers named "Current Season", and it is 0 or the id of such a real tier.
pub expansion_id-largest :
    (client : Client) (ts : List Tier)
    → client.expansion_index ≡ ok ts
    → let e = (resolve_tier_anchor client).expansion_id in
      (ltz e (pos 0) ≡ false)
      × All (λ t. (is_real t && ltz e t.id) ≡ false) ts
      × ((e ≡ pos 0) ⊎ (any (λ t. is_real t && eqz e t.id) ts ≡ true))
unfolding resolve_tier_anchor
expansion_id-largest client ts h =
    rw (h, resolve_tier_anchor)
      (let (low, all) = max_tier-bound (pos 0) ts in (low, all, max_tier-among (pos 0) ts))

-- When the season index answers without a current season, the anchored season is at least 0 and at
-- least every listed season.
pub season_id-largest :
    (client : Client) (x : SeasonIndex)
    → client.season_index ≡ ok x
    → x.current_id ≡ pos 0
    → let s = (resolve_tier_anchor client).season_id in
      (ltz s (pos 0) ≡ false) × All (λ y. ltz s y ≡ false) x.seasons
unfolding resolve_tier_anchor
season_id-largest client x h e =
    rw (h, resolve_tier_anchor) (rw e (max_season-bound (pos 0) x.seasons))
