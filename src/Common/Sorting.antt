-- ===== src/Common/Sorting.antt =====
-- sort.Slice by a Boolean order, as an insertion sort, and what every sort promises. Which order it
-- gives to elements that tie is not specified.
use Prim.Native.Nat.{ℕ, zero, suc}
use mathlib.Core.Path.{◌≡◌, refl}
use mathlib.Core.Logic.{inl, inr}
use mathlib.Core.Bool.{Bool, true, false}
use mathlib.Core.List.{List, [], ◌∷◌}
use native.Mathlib.Omega.{arith}
use apekeeper.Common.Tests.{if◌then◌else◌, Bool-cases}
use apekeeper.Common.Lists.{All, length, take, drop, All-drop}

module _ {ℓ} {A : Type ℓ} (before : A → A → Bool) where
  abbrev pub insert_by : A → List A → List A
  insert_by x [] = x ∷ []
  insert_by x (y ∷ ys) = let rest = insert_by x ys in if before x y then x ∷ y ∷ ys else y ∷ rest

  abbrev pub sort_by : List A → List A
  sort_by [] = []
  sort_by (x ∷ xs) = insert_by x (sort_by xs)

  -- No element comes after one that it should stand before.
  abbrev pub IsSorted : List A → Type 0
  IsSorted [] = Unit
  IsSorted (x ∷ xs) = All (λ y. before y x ≡ false) xs × IsSorted xs

  pub All-insert_by {κ} :
      (P : A → Type κ) (x : A) (xs : List A) → P x → All P xs → All P (insert_by x xs)
  All-insert_by P x [] hx h = (hx, tt)
  All-insert_by P x (y ∷ ys) hx h = elim (Bool-cases (before x y)) [
    | inl e ↦ rw e (hx, h)
    | inr e ↦ rw e (h.0, All-insert_by P x ys hx h.1)
  ]

  pub All-sort_by {κ} : (P : A → Type κ) (xs : List A) → All P xs → All P (sort_by xs)
  All-sort_by P [] h = tt
  All-sort_by P (x ∷ xs) h = All-insert_by P x (sort_by xs) h.0 (All-sort_by P xs h.1)

  length-insert_by : (x : A) (xs : List A) → length (insert_by x xs) ≡ suc (length xs)
  length-insert_by x [] = refl
  length-insert_by x (y ∷ ys) = ground (arith, length-insert_by x ys)

  pub length-sort_by : (xs : List A) → length (sort_by xs) ≡ length xs
  length-sort_by [] = refl
  length-sort_by (x ∷ xs) = omega (arith, length-insert_by x (sort_by xs), length-sort_by xs)

  module _ (asym : (x y : A) → before x y ≡ true → before y x ≡ false)
      (trans : (x y z : A) → before y x ≡ false → before z y ≡ false → before z x ≡ false) where
    All-after :
        (x y : A) (ys : List A)
        → before y x ≡ false
        → All (λ z. before z y ≡ false) ys
        → All (λ z. before z x ≡ false) ys
    All-after x y [] h k = tt
    All-after x y (z ∷ zs) h k = (trans x y z h k.0, All-after x y zs h k.1)

    insert_by-IsSorted : (x : A) (xs : List A) → IsSorted xs → IsSorted (insert_by x xs)
    insert_by-IsSorted x [] h = (tt, tt)
    insert_by-IsSorted x (y ∷ ys) h = elim (Bool-cases (before x y)) [
      | inl e ↦ rw e ((asym x y e, All-after x y ys (asym x y e) h.0), h)
      | inr e ↦
          rw e (All-insert_by (λ z. before z y ≡ false) x ys e h.0, insert_by-IsSorted x ys h.1)
    ]

    pub sort_by-IsSorted : (xs : List A) → IsSorted (sort_by xs)
    sort_by-IsSorted [] = tt
    sort_by-IsSorted (x ∷ xs) = insert_by-IsSorted x (sort_by xs) (sort_by-IsSorted xs)

  All-both :
      (x : A) (ks ds : List A)
      → All (λ d. before d x ≡ false) ds
      → All (λ d. All (λ k. before d k ≡ false) ks) ds
      → All (λ d. All (λ k. before d k ≡ false) (x ∷ ks)) ds
  All-both x ks [] h k = tt
  All-both x ks (d ∷ ds) h k = ((h.0, k.0), All-both x ks ds h.1 k.1)

  -- What a bounded read leaves out does not come before anything that it takes.
  pub drop-after_take :
      (n : ℕ) (xs : List A)
      → IsSorted xs
      → All (λ d. All (λ k. before d k ≡ false) (take n xs)) (drop n xs)
  drop-after_take zero xs h = nothing xs
    where
      nothing : (ys : List A) → All (λ d. All (λ k. before d k ≡ false) []) ys
      nothing [] = tt
      nothing (y ∷ ys) = (tt, nothing ys)
  drop-after_take (suc n) [] h = tt
  drop-after_take (suc n) (x ∷ xs) h =
      All-both x (take n xs) (drop n xs) (All-drop (λ d. before d x ≡ false) n xs h.0)
        (drop-after_take n xs h.1)
