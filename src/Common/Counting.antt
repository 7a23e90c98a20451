-- ===== src/Common/Counting.antt =====
-- Two lists have the same elements, each as often, where every test counts the same in both.
use Prim.Native.Nat.{ℕ, zero, suc, ◌+◌}
use mathlib.Core.Path.{◌≡◌, refl}
use mathlib.Core.Bool.{Bool, true}
use mathlib.Core.List.{List, [], ◌∷◌, ◌++◌}
use native.Mathlib.Omega.{arith}
use apekeeper.Common.Tests.{if◌then◌else◌}
use apekeeper.Common.Lists.{take, drop, length}
use apekeeper.Common.Sorting.{insert_by, sort_by}

module _ {ℓ} {A : Type ℓ} (q : A → Bool) where
  abbrev pub tally : List A → ℕ
  tally [] = 0
  tally (x ∷ xs) = let rest = tally xs in if q x then rest + 1 else rest

  tally-insert_by :
      (before : A → A → Bool) (x : A) (xs : List A) → tally (insert_by before x xs) ≡ tally (x ∷ xs)
  tally-insert_by before x [] = refl
  tally-insert_by before x (y ∷ ys) = let rest = tally-insert_by before x ys in ground arith

  pub tally-sort_by : (before : A → A → Bool) (xs : List A) → tally (sort_by before xs) ≡ tally xs
  tally-sort_by before [] = refl
  tally-sort_by before (x ∷ xs) =
      let rest = tally-sort_by before xs in
      let put = tally-insert_by before x (sort_by before xs) in ground arith

  pub tally-take-drop : (n : ℕ) (xs : List A) → tally (take n xs) + tally (drop n xs) ≡ tally xs
  tally-take-drop zero xs = omega arith
  tally-take-drop (suc n) [] = omega arith
  tally-take-drop (suc n) (x ∷ xs) = let rest = tally-take-drop n xs in ground arith

  pub tally-append : (xs ys : List A) → tally (xs ++ ys) ≡ tally xs + tally ys
  tally-append [] ys = omega arith
  tally-append (x ∷ xs) ys = let rest = tally-append xs ys in ground arith

pub tally-true {ℓ} : {A : Type ℓ} (xs : List A) → tally (λ x. true) xs ≡ length xs
tally-true [] = refl
tally-true (x ∷ xs) = let rest = tally-true xs in omega arith
