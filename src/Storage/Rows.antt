-- ===== src/Storage/Rows.antt =====
-- Tables with a key: INSERT … ON CONFLICT DO UPDATE, and keys that stay unique.
use apekeeper.Common.{
  ◌≡◌, ◌∙◌, Bool, false, if◌then◌else◌, List, [], ◌∷◌, ◌++◌, map, any, keep, All, All-keep,
  Bool-cases, inl, inr, arith,
}

module _ {A : Type 0} (same : A → A → Bool) where
  -- the row of the same key is updated; without one, the new row is inserted
  abbrev pub put_by : (A → A) → A → List A → List A
  put_by update x [] = x ∷ []
  put_by update x (r ∷ rs) =
      let rest = put_by update x rs in if same r x then update r ∷ rs else r ∷ rest

  abbrev pub Distinct : List A → Type 0
  Distinct [] = Unit
  Distinct (x ∷ xs) = All (λ y. same x y ≡ false) xs × Distinct xs

  -- An update that leaves the key alone.
  abbrev pub KeepsKey : (A → A) → Type 0
  KeepsKey f = (x y : A) → (same (f x) y ≡ same x y) × (same y (f x) ≡ same y x)

  pub All-put_by {κ} :
      (P : A → Type κ) (update : A → A) (x : A) (rs : List A)
      → ((r : A) → P r → P (update r))
      → P x
      → All P rs
      → All P (put_by update x rs)
  All-put_by P update x [] f hx h = (hx, tt)
  All-put_by P update x (r ∷ rs) f hx h = elim (Bool-cases (same r x)) [
    | inl e ↦ rw e (f r h.0, h.1)
    | inr e ↦ rw e (h.0, All-put_by P update x rs f hx h.1)
  ]

  apart_from :
      (f : A → A) (x : A) (ys : List A)
      → KeepsKey f
      → All (λ y. same x y ≡ false) ys
      → All (λ y. same (f x) y ≡ false) ys
  apart_from f x [] k h = tt
  apart_from f x (y ∷ ys) k h = ((k x y).0 ∙ h.0, apart_from f x ys k h.1)

  pub Distinct-put_by :
      (f : A → A) (x : A) (rs : List A) → KeepsKey f → Distinct rs → Distinct (put_by f x rs)
  Distinct-put_by f x [] k h = (tt, tt)
  Distinct-put_by f x (r ∷ rs) k h = elim (Bool-cases (same r x)) [
    | inl e ↦ rw e (apart_from f r rs k h.0, h.1)
    | inr e ↦ rw e (
      All-put_by (λ y. same r y ≡ false) f x rs (λ y g. (k y r).1 ∙ g) e h.0,
      Distinct-put_by f x rs k h.1,
    )
  ]

  All-map_key :
      (f : A → A) (x : A) (ys : List A)
      → KeepsKey f
      → All (λ y. same x y ≡ false) ys
      → All (λ y. same (f x) y ≡ false) (map f ys)
  All-map_key f x [] k h = tt
  All-map_key f x (y ∷ ys) k h = ((k x (f y)).0 ∙ (k y x).1 ∙ h.0, All-map_key f x ys k h.1)

  pub Distinct-map : (f : A → A) (xs : List A) → KeepsKey f → Distinct xs → Distinct (map f xs)
  Distinct-map f [] k h = tt
  Distinct-map f (x ∷ xs) k h = (All-map_key f x xs k h.0, Distinct-map f xs k h.1)

  pub Distinct-keep : (p : A → Bool) (xs : List A) → Distinct xs → Distinct (keep p xs)
  Distinct-keep p [] h = tt
  Distinct-keep p (x ∷ xs) h = elim (Bool-cases (p x)) [
    | inl e ↦ rw e (All-keep (λ y. same x y ≡ false) p xs h.0, Distinct-keep p xs h.1)
    | inr e ↦ rw e (Distinct-keep p xs h.1)
  ]

  All-add {κ} : (P : A → Type κ) (xs : List A) (x : A) → All P xs → P x → All P (xs ++ x ∷ [])
  All-add P [] x h hx = (hx, tt)
  All-add P (y ∷ ys) x h hx = (h.0, All-add P ys x h.1 hx)

  pub Distinct-add :
      (xs : List A) (x : A)
      → Distinct xs
      → any (λ old. same old x) xs ≡ false
      → Distinct (xs ++ x ∷ [])
  Distinct-add [] x h e = (tt, tt)
  Distinct-add (y ∷ ys) x h e = (
    All-add (λ z. same y z ≡ false) ys x h.0 (ground arith),
    Distinct-add ys x h.1 (ground arith),
  )
