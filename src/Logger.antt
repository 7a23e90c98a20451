-- ===== src/Logger.antt =====
-- backend/internal/logger/logger.go: the redaction of structured values. A JSON value is what
-- json.Unmarshal makes of a text; `lower` is strings.ToLower. The redaction of a text that is no JSON
-- and the log of a request are left out.
pub mod Redacted
use Prim.Native.Char.{code}
use apekeeper.Common.{
  String, Bool, true, false, ◌||◌, ◌==◌, if◌then◌else◌, str_eq, ℤ, List, [], ◌∷◌, any,
}

mutual
  pub data Json : Type 0 where
    null : Json
    boolean : Bool → Json
    number : ℤ → Json
    text : String → Json
    array : Items → Json
    object : Fields → Json

  pub data Items : Type 0 where
    no_item : Items
    item : Json → Items → Items

  pub data Fields : Type 0 where
    no_field : Fields
    field : String → Json → Fields → Fields

-- strings.HasPrefix
unfoldable pub has_prefix : String → String → Bool
has_prefix String.[] s = true
has_prefix (String.◌∷◌ c p) String.[] = false
has_prefix (String.◌∷◌ c p) (String.◌∷◌ d s) =
    let rest = has_prefix p s in if code c == code d then rest else false

-- strings.Contains
unfoldable pub contains : String → String → Bool
unfolding has_prefix
contains String.[] part = has_prefix part String.[]
contains (String.◌∷◌ c s) part = has_prefix part (String.◌∷◌ c s) || contains s part

-- sensitiveKeys
abbrev pub sensitive_keys : List String
sensitive_keys =
    "access_token" ∷ "refresh_token" ∷ "client_secret" ∷ "authorization" ∷ "cookie" ∷ "set-cookie"
    ∷ "webhook_url" ∷ "webhook" ∷ "password" ∷ "secret" ∷ []

-- the test of a key of an object
unfoldable pub is_sensitive : (String → String) → String → Bool
unfolding contains
is_sensitive lower k =
    any (λ s. str_eq s (lower k)) sensitive_keys
    || contains (lower k) "token"
    || contains (lower k) "secret"

abbrev pub redacted : String
redacted = "[REDACTED]"

-- redactJSON
unfoldable mutual
  unfolding is_sensitive

  pub redact_json : (String → String) → Json → Json
  redact_json lower null = null
  redact_json lower (boolean b) = boolean b
  redact_json lower (number n) = number n
  redact_json lower (text s) = text s
  redact_json lower (array xs) = array (redact_items lower xs)
  redact_json lower (object fs) = object (redact_fields lower fs)

  pub redact_items : (String → String) → Items → Items
  redact_items lower no_item = no_item
  redact_items lower (item j xs) = item (redact_json lower j) (redact_items lower xs)

  pub redact_fields : (String → String) → Fields → Fields
  redact_fields lower no_field = no_field
  redact_fields lower (field k j fs) =
      let rest = redact_fields lower fs in
      let inner = redact_json lower j in
      if is_sensitive lower k then field k (text redacted) rest else field k inner rest
