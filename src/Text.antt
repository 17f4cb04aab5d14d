-- ===== src/Text.antt =====
-- The functions of Go's package strings that the program calls, on texts as sequences of code
-- points.
use Prim.Native.Char.{Char, code}
use Prim.Native.String.{◌++◌ as append}
use opentrusty.Prelude.{
  Bool, List, String, [], eqb, false, if◌then◌else◌, leb, ltb, refl, true, ℕ, ◌&&◌, ◌+◌, ◌==◌, ◌||◌,
  ◌∷◌, ◌≡◌,
}

-- `unicode.IsSpace`
unfoldable pub is_space : ℕ → Bool
is_space c =
    leb 9 c && leb c 13
    || eqb c 32
    || eqb c 0x85
    || eqb c 0xa0
    || eqb c 0x1680
    || leb 0x2000 c && leb c 0x200a
    || eqb c 0x2028
    || eqb c 0x2029
    || eqb c 0x202f
    || eqb c 0x205f
    || eqb c 0x3000

abbrev pub snoc : String → Char → String
snoc s c = append s (String.◌∷◌ c String.[])

-- `strings.Fields`, with the word read so far.
unfoldable pub fields_from : String → String → List String
unfolding is_space
fields_from word String.[] = if word == "" then [] else word ∷ []
fields_from word (String.◌∷◌ c s) =
    let next = fields_from "" s in
    let same = fields_from (snoc word c) s in
    if is_space (code c) then (if word == "" then next else word ∷ next) else same

unfoldable pub fields : String → List String
unfolding fields_from
fields s = fields_from "" s

-- `strings.Split(s, " ")`, with the part read so far.
split_from : String → String → List String
split_from part String.[] = part ∷ []
split_from part (String.◌∷◌ c s) =
    let next = split_from "" s in
    let same = split_from (snoc part c) s in if eqb (code c) 32 then part ∷ next else same

unfoldable pub split : String → List String
unfolding split_from
split s = split_from "" s

-- `strings.TrimSpace`
unfoldable pub trim_left : String → String
unfolding is_space
trim_left String.[] = String.[]
trim_left (String.◌∷◌ c s) =
    let rest = trim_left s in if is_space (code c) then rest else String.◌∷◌ c s

unfoldable pub trim_right : String → String
unfolding is_space
trim_right String.[] = String.[]
trim_right (String.◌∷◌ c s) =
    let rest = trim_right s in
    if is_space (code c) && rest == "" then String.[] else String.◌∷◌ c rest

unfoldable pub trim_space : String → String
unfolding trim_left trim_right
trim_space s = trim_left (trim_right s)

-- `len`: the bytes of a text in UTF-8.
unfoldable pub byte_len : String → ℕ
byte_len String.[] = 0
byte_len (String.◌∷◌ c s) =
    (if ltb (code c) 0x80
      then 1
      else if ltb (code c) 0x800
      then 2
      else if ltb (code c) 0x10000
      then 3
      else 4)
    + byte_len s

-- Whether a text begins with another, and `strings.Contains`.
unfoldable pub has_prefix : String → String → Bool
has_prefix s String.[] = true
has_prefix String.[] (String.◌∷◌ d t) = false
has_prefix (String.◌∷◌ c s) (String.◌∷◌ d t) = eqb (code c) (code d) && has_prefix s t

unfoldable pub contains : String → String → Bool
unfolding has_prefix
contains String.[] t = has_prefix String.[] t
contains (String.◌∷◌ c s) t = has_prefix (String.◌∷◌ c s) t || contains s t

-- `strings.Join`
unfoldable pub join : List String → String → String
join [] sep = ""
join (s ∷ []) sep = s
join (s ∷ t ∷ ss) sep = append s (append sep (join (t ∷ ss) sep))

fields_test : fields "  openid\tprofile  email " ≡ "openid" ∷ "profile" ∷ "email" ∷ []
unfolding fields
fields_test = refl

split_test : split "a  b" ≡ "a" ∷ "" ∷ "b" ∷ []
unfolding split
split_test = refl

contains_test : contains "invalid redirect_uri" "redirect" ≡ true
unfolding contains
contains_test = refl
