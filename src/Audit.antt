-- ===== src/Audit.antt =====
-- `SlogLogger` of internal/audit/audit.go: the line that an event is logged as. The handlers and
-- services log the event itself; the line is what the library slog is given.
pub mod Redaction
use Prim.Native.Char.{code}
use opentrusty.Prelude.{
  Bool, List, String, [], any_row, eqb, false, if◌then◌else◌, leb, map, none, not, some, true, ℕ,
  ◌&&◌, ◌+◌, ◌==◌, ◌||◌, ◌∷◌,
}
use opentrusty.Domain.Audit.{Event, Value, text}

pub data Attr : Type 0 where
  string_attr : String → String → Attr
  time_attr : String → ℕ → Attr
  group_attr : String → List (String × Value) → Attr
  -- `slog.Any` of a map
  map_attr : String → List (String × Value) → Attr

-- `unicode.ToLower` where it is a letter of ASCII: the letters A to Z, the Kelvin sign and the
-- capital I with a dot. The lower case of every other character is not in ASCII, so in no word
-- below; such a character is kept.
unfoldable pub lower_code : ℕ → ℕ
lower_code c =
    if leb 65 c && leb c 90
    then c + 32
    else if eqb c 0x212a
    then 107
    else if eqb c 0x130
    then 105
    else c

-- `strings.ToLower`, as the codes of the characters.
unfoldable pub to_lower : String → List ℕ
unfolding lower_code
to_lower String.[] = []
to_lower (String.◌∷◌ c s) = lower_code (code c) ∷ to_lower s

abbrev pub codes : String → List ℕ
codes String.[] = []
codes (String.◌∷◌ c s) = code c ∷ codes s

-- `strings.Contains`
unfoldable pub begins : List ℕ → List ℕ → Bool
begins s [] = true
begins [] (d ∷ t) = false
begins (c ∷ s) (d ∷ t) = eqb c d && begins s t

unfoldable pub has_part : List ℕ → List ℕ → Bool
unfolding begins
has_part [] t = begins [] t
has_part (c ∷ s) t = begins (c ∷ s) t || has_part s t

abbrev pub secret_words : List String
secret_words =
    "password" ∷ "secret" ∷ "token" ∷ "key" ∷ "authorization" ∷ "hash" ∷ "credential" ∷ "private"
    ∷ "api_key" ∷ []

-- `isSecret`
unfoldable pub is_secret : String → Bool
unfolding has_part to_lower
is_secret key = any_row (λ s. has_part (to_lower key) (codes s)) secret_words

abbrev pub redact : String × Value → String × Value
redact (k, v) = (k, if is_secret k then text "[REDACTED]" else v)

abbrev pub optional : String → String → List Attr → List Attr
optional key s more = if not (s == "") then string_attr key s ∷ more else more

abbrev pub group_of : List (String × Value) → List Attr → List Attr
group_of [] more = more
group_of (x ∷ xs) more = group_attr "metadata" (map redact (x ∷ xs)) ∷ more

-- `SlogLogger.Log` at a time: the attributes of the line.
unfoldable pub line_of : Event → ℕ → List Attr
unfolding is_secret
line_of e now =
    string_attr "audit_type" e.kind
    ∷ string_attr "tenant_id" e.tenant_id
    ∷ string_attr "actor_id" e.actor_id
    ∷ string_attr "resource" e.resource
    ∷ time_attr "timestamp" (elim e.timestamp [ none ↦ now | some t ↦ t ])
    ∷ optional "ip_address" e.ip_address (
        optional "user_agent" e.user_agent
          (group_of e.metadata (string_attr "component" "audit" ∷ [])))
