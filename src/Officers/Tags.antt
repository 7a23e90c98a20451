-- ===== src/Officers/Tags.antt =====
-- What the cleaned tags of a request are.
use apekeeper.Common.{
  ℕ, ◌≤◌, ◌≡◌, refl, Bool, true, false, some, List, [], ◌∷◌, map, length, ok, All, arith,
  Bool-cases, Option-cases, inl, inr, subst,
}
use apekeeper.Domain.Text.{trim_space}
use apekeeper.Sessions.{Bytes, bytes_eq}
use apekeeper.Officers.{is_tag_name, bytes_lt, add_tag, check_tags, clean_tags, officer_tags_max}

-- Each tag comes before the next in the order of the bytes, so that none stands twice.
abbrev pub IsTagSet : List Bytes → Type 0
IsTagSet [] = Unit
IsTagSet (t ∷ ts) = All (λ u. bytes_lt t u ≡ true) ts × IsTagSet ts

bytes_lt_trans :
    (xs ys zs : Bytes) → bytes_lt xs ys ≡ true → bytes_lt ys zs ≡ true → bytes_lt xs zs ≡ true
unfolding bytes_lt
bytes_lt_trans xs ys [] h k = k
bytes_lt_trans xs [] (z ∷ zs) h k = absurd (ground arith)
bytes_lt_trans [] (y ∷ ys) (z ∷ zs) h k = refl
bytes_lt_trans (x ∷ xs) (y ∷ ys) (z ∷ zs) h k = elim (Bool-cases (bytes_lt xs ys)) [
  | inr e ↦ ground arith
  | inl e ↦ elim (Bool-cases (bytes_lt ys zs)) [
    | inr f ↦ ground arith
    | inl f ↦ let r = bytes_lt_trans xs ys zs e f in ground arith
  ]
]

bytes_lt_total :
    (xs ys : Bytes) → bytes_eq xs ys ≡ false → bytes_lt xs ys ≡ false → bytes_lt ys xs ≡ true
unfolding bytes_lt bytes_eq
bytes_lt_total [] [] e h = absurd (ground arith)
bytes_lt_total (x ∷ xs) [] e h = refl
bytes_lt_total [] (y ∷ ys) e h = absurd (ground arith)
bytes_lt_total (x ∷ xs) (y ∷ ys) e h = elim (Bool-cases (bytes_lt xs ys)) [
  | inl f ↦ ground arith
  | inr f ↦ elim (Bool-cases (bytes_eq xs ys)) [
    | inl g ↦ ground arith
    | inr g ↦ let r = bytes_lt_total xs ys g f in ground arith
  ]
]

All-add_tag :
    (P : Bytes → Type 0) (t : Bytes) (us : List Bytes) → P t → All P us → All P (add_tag t us)
unfolding add_tag
All-add_tag P t [] p a = (p, tt)
All-add_tag P t (u ∷ us) p (q, a) = elim (Bool-cases (bytes_eq t u)) [
  | inl e ↦ rw e (q, a)
  | inr e ↦ elim (Bool-cases (bytes_lt t u)) [
    | inl f ↦ rw (e, f) (p, (q, a))
    | inr f ↦ rw (e, f) (q, All-add_tag P t us p a)
  ]
]

All-lt :
    (t u : Bytes) (us : List Bytes)
    → bytes_lt t u ≡ true
    → All (λ v. bytes_lt u v ≡ true) us
    → All (λ v. bytes_lt t v ≡ true) us
All-lt t u [] h a = tt
All-lt t u (v ∷ us) h (p, a) = (bytes_lt_trans t u v h p, All-lt t u us h a)

add_tag-IsTagSet : (t : Bytes) (us : List Bytes) → IsTagSet us → IsTagSet (add_tag t us)
unfolding add_tag
add_tag-IsTagSet t [] h = (tt, tt)
add_tag-IsTagSet t (u ∷ us) (a, h) = elim (Bool-cases (bytes_eq t u)) [
  | inl e ↦ rw e (a, h)
  | inr e ↦ elim (Bool-cases (bytes_lt t u)) [
    | inl f ↦ rw (e, f) ((f, All-lt t u us f a), (a, h))
    | inr f ↦ rw (e, f) (All-add_tag _ t us (bytes_lt_total t u e f) a, add_tag-IsTagSet t us h)
  ]
]

module _ (lower : ℕ → ℕ) (space : ℕ → Bool) where
  check_tags-IsTagSet :
      (tags seen out : List Bytes)
      → IsTagSet seen × All (λ t. is_tag_name t ≡ true) seen
      → check_tags lower space tags seen ≡ some out
      → IsTagSet out × All (λ t. is_tag_name t ≡ true) out
  unfolding check_tags
  check_tags-IsTagSet [] seen out v h =
      subst (λ x. IsTagSet x × All (λ t. is_tag_name t ≡ true) x) (ground arith) v
  check_tags-IsTagSet (t ∷ tags) seen out v h =
      let tag = trim_space lower space (map lower t) in
      elim (Bool-cases (is_tag_name tag)) [
        | inr e ↦ absurd (ground arith)
        | inl e ↦
            check_tags-IsTagSet tags (add_tag tag seen) out
              (add_tag-IsTagSet tag seen v.0, All-add_tag _ tag seen e v.1) (ground arith)
      ]

  -- The tags that a request may store are valid names, sorted and without repetition, and at most
  -- twenty.
  pub clean_tags-IsTagSet :
      (tags out : List Bytes)
      → clean_tags lower space tags ≡ ok out
      → IsTagSet out × All (λ t. is_tag_name t ≡ true) out × (length out ≤ officer_tags_max)
  unfolding clean_tags
  clean_tags-IsTagSet tags out h = elim (Option-cases (check_tags lower space tags [])) [
    | inl e ↦ absurd (ground arith)
    | inr (o, e) ↦
        let q : o ≡ out = ground arith in
        let r = check_tags-IsTagSet tags [] o (tt, tt) e in
        subst (λ x. IsTagSet x × All (λ t. is_tag_name t ≡ true) x × (length x ≤ officer_tags_max))
          q (r.0, r.1, ground arith)
  ]
