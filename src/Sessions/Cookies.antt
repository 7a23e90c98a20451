-- ===== src/Sessions/Cookies.antt =====
-- The session cookie and the identifier that a Battle.net account is stored under.
use apekeeper.Common.{
  ℕ, zero, suc, ◌+◌, ◌-◌, ◌*◌, ◌/◌, ◌%◌, ◌^◌, ◌<◌, ◌≡◌, ◌≢◌, refl, ◌∙◌, sym, ap, true, false, ◌==◌,
  some, [], ◌∷◌, ◌++◌, All, arith, Bool-cases, Option-cases, inl, inr, pos,
}
use apekeeper.Sessions.{
  Bytes, bytes_eq, split_cookie, is_empty, cookie, session_id, dot, digits, string_int,
}

pub bytes_eq_refl : (xs : Bytes) → bytes_eq xs xs ≡ true
unfolding bytes_eq
bytes_eq_refl [] = refl
bytes_eq_refl (x ∷ xs) = ground (arith, bytes_eq_refl xs)

pub bytes_eq_sound : (xs ys : Bytes) → bytes_eq xs ys ≡ true → xs ≡ ys
unfolding bytes_eq
bytes_eq_sound [] [] h = refl
bytes_eq_sound [] (y ∷ ys) h = ground arith
bytes_eq_sound (x ∷ xs) [] h = ground arith
bytes_eq_sound (x ∷ xs) (y ∷ ys) h = elim (Bool-cases (bytes_eq xs ys)) [
  | inl e ↦ let p : x ≡ y = ground arith in let q = bytes_eq_sound xs ys e in cc
  | inr e ↦ absurd (ground arith)
]

-- no byte is the dot that ends the identifier, as in the tokens of base64.RawURLEncoding
abbrev pub IsDotless : Bytes → Type 0
IsDotless id = All (λ c. (c == dot) ≡ false) id

split_cookie-append :
    (id sig : Bytes) → IsDotless id → split_cookie (id ++ dot ∷ sig) ≡ some (id, sig)
unfolding split_cookie
split_cookie-append [] sig h = refl
split_cookie-append (c ∷ cs) sig (n, h) = rw (n, split_cookie-append cs sig h) refl

split_cookie_sound :
    (value id sig : Bytes)
    → split_cookie value ≡ some (id, sig)
    → (value ≡ id ++ dot ∷ sig) × IsDotless id
unfolding split_cookie
split_cookie_sound [] id sig h = ground arith
split_cookie_sound (c ∷ cs) id sig h = elim (Bool-cases (c == dot)) [
  | inl e ↦
      let a : id ≡ [] = ground arith in
      let b : sig ≡ cs = ground arith in
      let d : c ≡ dot = ground arith in (rw (a, b, d) refl, rw a tt)
  | inr e ↦ elim (Option-cases (split_cookie cs)) [
    | inl f ↦ absurd (ground arith)
    | inr ((i, s), f) ↦
        let r = split_cookie_sound cs i s f in
        let a : id ≡ c ∷ i = ground arith in
        let b : sig ≡ s = ground arith in (rw (a, b, r.0) refl, rw a (e, r.1))
  ]
]

nonempty_of : {i : Bytes} → is_empty i ≡ false → i ≢ []
nonempty_of h z = ground (arith, ap is_empty z)

module _ (sign : Bytes → Bytes) where
  -- The cookie that a sign-in sets for a session is read back as that session, if its identifier
  -- is not empty and has no dot.
  pub session_id-cookie :
      (id : Bytes) → id ≢ [] → IsDotless id → session_id sign (some (cookie sign id)) ≡ some id
  unfolding session_id cookie
  session_id-cookie [] n h = absurd (n refl)
  session_id-cookie (c ∷ cs) n h =
      rw (split_cookie-append (c ∷ cs) (sign (c ∷ cs)) h, bytes_eq_refl (sign (c ∷ cs))) refl

  -- A cookie names a session only if it is the one that is set for it: the session's identifier,
  -- which is not empty and has no dot, with a dot and its signature.
  pub session_id-signed :
      (value id : Bytes)
      → session_id sign (some value) ≡ some id
      → (value ≡ cookie sign id) × (id ≢ []) × IsDotless id
  unfolding session_id cookie
  session_id-signed value id h = elim (Option-cases (split_cookie value)) [
    | inl f ↦ absurd (ground arith)
    | inr ((i, s), f) ↦
        let r = split_cookie_sound value i s f in
        elim (Bool-cases (bytes_eq s (sign i))) [
          | inr g ↦ absurd (ground arith)
          | inl g ↦
              let a : id ≡ i = ground arith in
              let b = bytes_eq_sound s (sign i) g in
              (rw (a, r.0, b) refl, λ z. nonempty_of (ground arith) (sym a ∙ z), rw a r.1)
        ]
  ]

-- the number that decimal digits spell after `a`
unfoldable pub value_from : ℕ → Bytes → ℕ
value_from a [] = a
value_from a (b ∷ bs) = value_from (a * 10 + (b - 48)) bs

value_from-digits :
    (fuel v : ℕ) (b : Bytes) → v < 10 ^ fuel → value_from 0 (digits fuel v b) ≡ value_from v b
unfolding digits value_from
value_from-digits zero v b h = ap (λ x. value_from x b) (omega arith)
value_from-digits (suc fuel) v b h = elim (Bool-cases (v == 0)) [
  | inl e ↦ rw e (ap (λ x. value_from x b) (ground arith))
  | inr e ↦ rw e (
      value_from-digits fuel (v / 10) ((48 + v % 10) ∷ b) (omega arith)
      ∙ ap (λ x. value_from x b) (omega arith))
]

-- The decimal digits of a number that is not negative and fits into an int64 spell that number, so
-- that different Battle.net accounts have different identifiers.
pub string_int-value : (v : ℕ) → v < 2 ^ 63 → value_from 0 (string_int (pos v)) ≡ v
unfolding string_int value_from
string_int-value v h = elim (Bool-cases (v == 0)) [
  | inl e ↦ rw e (ground arith)
  | inr e ↦ rw e (value_from-digits 20 v [] (omega arith))
]
