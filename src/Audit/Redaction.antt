-- ===== src/Audit/Redaction.antt =====
-- What the log shows of the metadata of an event (internal/audit/audit.go).
use Prim.Native.String.{◌++◌ as append}
use mathlib.Core.Option
use opentrusty.Prelude.{
  Bool, List, Option, String, [], eqb, false, if◌then◌else◌, none, some, true, ℕ, ◌&&◌, ◌++◌, ◌==◌,
  ◌||◌, ◌∷◌, ◌≡◌,
}
use opentrusty.Audit.{Attr, codes, group_attr, secret_words, to_lower}
use opentrusty.Domain.Audit.{Value, text}

abbrev same_codes : List ℕ → List ℕ → Bool
same_codes [] [] = true
same_codes (c ∷ s) (d ∷ t) = eqb c d && same_codes s t
same_codes _ _ = false

-- One of the words that make a key secret.
abbrev pub is_secret_word : List ℕ → List String → Bool
is_secret_word w [] = false
is_secret_word w (s ∷ ss) = same_codes w (codes s) || is_secret_word w ss

abbrev pub value_at : String → List (String × Value) → Option Value
value_at key [] = none
value_at key ((k, v) ∷ more) = if k == key then some v else value_at key more

-- The metadata that a line shows.
abbrev pub shown : List Attr → List (String × Value)
shown [] = []
shown (group_attr key items ∷ more) = items
shown (_ ∷ more) = shown more

abbrev hide : Bool → Value → Value
hide b v = if b then text "[REDACTED]" else v

-- The key has one of the secret words in it, in whatever case.
pub record HasWord (key : String) : Type 0 where
  pub before : String
  pub word : String
  pub after : String
  pub parts : append before (append word after) ≡ key
  pub secret : is_secret_word (to_lower word) secret_words ≡ true
