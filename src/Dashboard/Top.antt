-- ===== src/Dashboard/Top.antt =====
-- The best ratings of the dashboard.
use apekeeper.Common.{
  ℕ, zero, suc, ◌≤◌, ◌≡◌, refl, ◌∙◌, ap, Bool, true, false, ltz, ltz_irrefl, List, [], ◌∷◌, length,
  take, drop, keep, All, All-take, IsSorted, drop-after_take, length-take, keep-All, is_pos, ℤ,
  Bool-cases, inl, inr, arith,
}
use Prim.Native.Nat.{min}
use apekeeper.Dashboard.{DashboardCharacter, settle, exchange_sort, dashboard}

abbrev pub better : DashboardCharacter → DashboardCharacter → Bool
better a b = ltz b.character.mythic_rating a.character.mythic_rating

better_trans :
    (x y z : DashboardCharacter) → better y x ≡ false → better z y ≡ false → better z x ≡ false
better_trans x y z h k =
    ltz_not_trans x.character.mythic_rating y.character.mythic_rating z.character.mythic_rating h k
  where
    ltz_not_trans : (a b c : ℤ) → ltz a b ≡ false → ltz b c ≡ false → ltz a c ≡ false
    ltz_not_trans a b c h k = ground arith

length-settle :
    (x : DashboardCharacter) (xs : List DashboardCharacter) → length (settle x xs).1 ≡ length xs
unfolding settle
length-settle x [] = refl
length-settle x (y ∷ ys) = ground (arith, length-settle y ys, length-settle x ys)

All-settle :
    (P : DashboardCharacter → Type 0) (x : DashboardCharacter) (xs : List DashboardCharacter)
    → P x
    → All P xs
    → P (settle x xs).0 × All P (settle x xs).1
unfolding settle
All-settle P x [] hx h = (hx, tt)
All-settle P x (y ∷ ys) hx h =
    elim (Bool-cases (ltz x.character.mythic_rating y.character.mythic_rating)) [
      | inl e ↦ let (a, b) = All-settle P y ys h.0 h.1 in rw e (a, (hx, b))
      | inr e ↦ let (a, b) = All-settle P x ys hx h.1 in rw e (a, (h.0, b))
    ]

-- the element in front is the best of all
settle-best :
    (x : DashboardCharacter) (xs : List DashboardCharacter)
    → (better x (settle x xs).0 ≡ false)
      × All (λ y. better y (settle x xs).0 ≡ false) (settle x xs).1
unfolding settle
settle-best x [] = (ltz_irrefl x.character.mythic_rating, tt)
settle-best x (y ∷ ys) = elim (Bool-cases (better y x)) [
  | inl e ↦
      let (a, b) = settle-best y ys in
      let c = better_trans (settle y ys).0 y x a (better_asym y x e) in rw e (c, (c, b))
  | inr e ↦
      let (a, b) = settle-best x ys in
      let c = better_trans (settle x ys).0 x y a e in rw e (a, (c, b))
]
  where
    better_asym : (a b : DashboardCharacter) → better a b ≡ true → better b a ≡ false
    better_asym a b h = ground arith

-- as many of the elements as of the sorted ones pass any test
settle-count :
    (p : DashboardCharacter → Bool) (x : DashboardCharacter) (xs : List DashboardCharacter)
    → length (keep p ((settle x xs).0 ∷ (settle x xs).1)) ≡ length (keep p (x ∷ xs))
unfolding settle
settle-count p x [] = refl
settle-count p x (y ∷ ys) = elim (Bool-cases (better y x)) [
  | inl e ↦ let c = settle-count p y ys in rw e (ground arith)
  | inr e ↦ let c = settle-count p x ys in rw e (ground arith)
]

exchange_sort-count :
    (p : DashboardCharacter → Bool) (n : ℕ) (xs : List DashboardCharacter)
    → length (keep p (exchange_sort n xs)) ≡ length (keep p xs)
unfolding exchange_sort
exchange_sort-count p zero xs = refl
exchange_sort-count p (suc n) [] = refl
exchange_sort-count p (suc n) (x ∷ xs) =
    let c = exchange_sort-count p n (settle x xs).1 in let d = settle-count p x xs in ground arith

All-exchange_sort :
    (P : DashboardCharacter → Type 0) (n : ℕ) (xs : List DashboardCharacter)
    → All P xs
    → All P (exchange_sort n xs)
unfolding exchange_sort
All-exchange_sort P zero xs h = h
All-exchange_sort P (suc n) [] h = tt
All-exchange_sort P (suc n) (x ∷ xs) h =
    let (a, b) = All-settle P x xs h.0 h.1 in (a, All-exchange_sort P n (settle x xs).1 b)

length-exchange_sort :
    (n : ℕ) (xs : List DashboardCharacter) → length (exchange_sort n xs) ≡ length xs
unfolding exchange_sort
length-exchange_sort zero xs = refl
length-exchange_sort (suc n) [] = refl
length-exchange_sort (suc n) (x ∷ xs) =
    omega (arith, length-exchange_sort n (settle x xs).1, length-settle x xs)

-- enough runs of the outer loop sort the list
exchange_sort-IsSorted :
    (n : ℕ) (xs : List DashboardCharacter) → length xs ≤ n → IsSorted better (exchange_sort n xs)
unfolding exchange_sort
exchange_sort-IsSorted zero [] h = tt
exchange_sort-IsSorted zero (x ∷ xs) h = absurd (omega arith)
exchange_sort-IsSorted (suc n) [] h = tt
exchange_sort-IsSorted (suc n) (x ∷ xs) h = (
  All-exchange_sort (λ y. better y (settle x xs).0 ≡ false) n (settle x xs).1 (settle-best x xs).1,
  exchange_sort-IsSorted n (settle x xs).1 (omega (arith, length-settle x xs)),
)

IsSorted-take :
    (n : ℕ) (xs : List DashboardCharacter) → IsSorted better xs → IsSorted better (take n xs)
IsSorted-take zero xs h = tt
IsSorted-take (suc n) [] h = tt
IsSorted-take (suc n) (x ∷ xs) h =
    (All-take (λ y. better y x ≡ false) n xs h.0, IsSorted-take n xs h.1)

-- The characters with a rating, in the order that the loops leave them in.
abbrev pub ranking : List DashboardCharacter → List DashboardCharacter
ranking chars =
    let rated = keep (λ c. is_pos c.character.mythic_rating) chars in
    exchange_sort (length rated) rated

-- The loops put exactly the characters with a rating in order, none before a better one, and the
-- dashboard shows the first ten of them, or all: every one that it leaves out has a rating at most as
-- high as every one that it shows.
pub dashboard-IsTop :
    (now : ℕ) (chars : List DashboardCharacter)
    → let f = dashboard now chars in
      IsSorted better f.top
      × (length f.top ≡ min 10 f.rated_count)
      × All (λ c. is_pos c.character.mythic_rating ≡ true) f.top
      × All (λ d. All (λ k. better d k ≡ false) f.top) (drop 10 (ranking chars))
      × ((p : DashboardCharacter → Bool)
          → length (keep p (ranking chars))
            ≡ length (keep p (keep (λ c. is_pos c.character.mythic_rating) chars)))
unfolding dashboard
dashboard-IsTop now chars =
    let rated = keep (λ c. is_pos c.character.mythic_rating) chars in
    let sorted = exchange_sort-IsSorted (length rated) rated (omega arith) in
    (
      IsSorted-take 10 (ranking chars) sorted,
      length-take 10 (ranking chars) ∙ ap (min 10) (length-exchange_sort (length rated) rated),
      All-take _ 10 (ranking chars) (
          All-exchange_sort (λ c. is_pos c.character.mythic_rating ≡ true) (length rated) rated
            (keep-All (λ c. is_pos c.character.mythic_rating) chars)),
      drop-after_take better 10 (ranking chars) sorted,
      (λ p. exchange_sort-count p (length rated) rated),
    )
