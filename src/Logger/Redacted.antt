-- ===== src/Logger/Redacted.antt =====
-- What a redacted value tells.
use apekeeper.Common.{
  ◌≡◌, refl, ◌∙◌, ap, String, Bool, true, false, if◌then◌else◌, Bool-cases, inl, inr,
}
use apekeeper.Logger.{
  Json, Items, Fields, null, boolean, number, text, array, object, no_item, item, no_field, field,
  is_sensitive, redacted, redact_json, redact_items, redact_fields,
}

-- Two values that differ at most in what stands under sensitive keys.
unfoldable mutual
  pub Alike : (String → String) → Json → Json → Type 0
  Alike lower (array xs) (array ys) = AlikeItems lower xs ys
  Alike lower (object fs) (object gs) = AlikeFields lower fs gs
  Alike lower j k = j ≡ k

  pub AlikeItems : (String → String) → Items → Items → Type 0
  AlikeItems lower no_item no_item = Unit
  AlikeItems lower (item j xs) (item k ys) = Alike lower j k × AlikeItems lower xs ys
  AlikeItems lower xs ys = ⊥

  pub AlikeFields : (String → String) → Fields → Fields → Type 0
  AlikeFields lower no_field no_field = Unit
  AlikeFields lower (field k i fs) (field l j gs) =
      (k ≡ l) × (if is_sensitive lower k then Unit else Alike lower i j) × AlikeFields lower fs gs
  AlikeFields lower fs gs = ⊥

else_map :
    {A B : Type 0} (b : Bool) → (A → B) → (if b then Unit {0} else A) → if b then Unit {0} else B
else_map true f h = tt
else_map false f h = f h

one_field :
    (lower : String → String) (k : String) (i j : Json) (fs gs : Fields)
    → (if is_sensitive lower k then Unit else (i ≡ j))
    → fs ≡ gs
    → (if is_sensitive lower k then field k (text redacted) fs else field k i fs)
      ≡ (if is_sensitive lower k then field k (text redacted) gs else field k j gs)
one_field lower k i j fs gs h e = elim (Bool-cases (is_sensitive lower k)) [
  | inl s ↦ rw s (ap (field k (text redacted)) e)
  | inr s ↦ rw s (ap (λ x. field k x fs) (rw s at h) ∙ ap (field k j) e)
]

mutual
  unfolding redact_json redact_items redact_fields Alike AlikeItems AlikeFields

  json-Alike :
      (lower : String → String) (j k : Json)
      → Alike lower j k
      → redact_json lower j ≡ redact_json lower k
  json-Alike lower null k h = ap (redact_json lower) h
  json-Alike lower (boolean b) k h = ap (redact_json lower) h
  json-Alike lower (number n) k h = ap (redact_json lower) h
  json-Alike lower (text s) k h = ap (redact_json lower) h
  json-Alike lower (array xs) (array ys) h = ap array (items-AlikeItems lower xs ys h)
  json-Alike lower (array xs) null h = ap (redact_json lower) h
  json-Alike lower (array xs) (boolean b) h = ap (redact_json lower) h
  json-Alike lower (array xs) (number n) h = ap (redact_json lower) h
  json-Alike lower (array xs) (text s) h = ap (redact_json lower) h
  json-Alike lower (array xs) (object fs) h = ap (redact_json lower) h
  json-Alike lower (object fs) (object gs) h = ap object (fields-AlikeFields lower fs gs h)
  json-Alike lower (object fs) null h = ap (redact_json lower) h
  json-Alike lower (object fs) (boolean b) h = ap (redact_json lower) h
  json-Alike lower (object fs) (number n) h = ap (redact_json lower) h
  json-Alike lower (object fs) (text s) h = ap (redact_json lower) h
  json-Alike lower (object fs) (array xs) h = ap (redact_json lower) h

  items-AlikeItems :
      (lower : String → String) (xs ys : Items)
      → AlikeItems lower xs ys
      → redact_items lower xs ≡ redact_items lower ys
  items-AlikeItems lower no_item no_item h = refl
  items-AlikeItems lower (item j xs) (item k ys) h =
      ap (λ x. item x (redact_items lower xs)) (json-Alike lower j k h.0)
      ∙ ap (item (redact_json lower k)) (items-AlikeItems lower xs ys h.1)
  items-AlikeItems lower no_item (item k ys) h = absurd h
  items-AlikeItems lower (item j xs) no_item h = absurd h

  fields-AlikeFields :
      (lower : String → String) (fs gs : Fields)
      → AlikeFields lower fs gs
      → redact_fields lower fs ≡ redact_fields lower gs
  fields-AlikeFields lower no_field no_field h = refl
  fields-AlikeFields lower no_field (field l j gs) h = absurd h
  fields-AlikeFields lower (field k i fs) no_field h = absurd h
  fields-AlikeFields lower (field k i fs) (field l j gs) h =
      one_field lower k (redact_json lower i) (redact_json lower j) (redact_fields lower fs)
        (redact_fields lower gs) (else_map (is_sensitive lower k) (json-Alike lower i j) h.1)
        (fields-AlikeFields lower fs gs h.2)
      ∙ ap (λ x. redact_fields lower (field x j gs)) h.0

-- Values that differ at most under sensitive keys, however deep these stand, are redacted to the
-- same value, so that the log tells nothing of what stands there.
pub redact_json-Alike :
    (lower : String → String) (j k : Json)
    → Alike lower j k
    → redact_json lower j ≡ redact_json lower k
redact_json-Alike lower j k h = json-Alike lower j k h
