-- ===== src/Identity/Password.antt =====
-- `PasswordHasher` of internal/identity/service.go. The printing and scanning of numbers by the
-- package fmt is written out; argon2 and base64 are those of the environment.
pub mod Numerals
pub mod Sections
pub mod Scanning
pub mod Layout
pub mod RoundTrip
use Prim.Native.Nat.{bit_or, bit_xor, ◌^◌}
use Prim.Native.Char.{code}
use Prim.Native.String.{◌++◌ as append}
use opentrusty.Prelude.{
  Bool, List, Option, String, [], eqb, false, if◌then◌else◌, leb, ltb, none, not, some, suc, true,
  zero, ℕ, ◌%◌, ◌&&◌, ◌*◌, ◌+◌, ◌-◌, ◌/◌, ◌==◌, ◌∷◌,
}
use opentrusty.Domain.Errors.{message, panicked, wrapped}
use opentrusty.Text.{is_space, join, snoc}
use opentrusty.World.{Env, M, Result, err, ok, or_raise, pure, read_entropy, ◌>>=◌, ◌>>◌}

pub record PasswordHasher : Type 0 where
  pub memory : ℕ
  pub iterations : ℕ
  pub parallelism : ℕ
  pub salt_length : ℕ
  pub key_length : ℕ

abbrev pub digit : ℕ → String
digit d =
    if eqb d 0
    then "0"
    else if eqb d 1
    then "1"
    else if eqb d 2
    then "2"
    else if eqb d 3
    then "3"
    else if eqb d 4
    then "4"
    else if eqb d 5
    then "5"
    else if eqb d 6
    then "6"
    else if eqb d 7
    then "7"
    else if eqb d 8
    then "8"
    else "9"

-- `%d`, on fuel above the number.
unfoldable pub decimal_fuel : ℕ → ℕ → String
decimal_fuel zero n = ""
decimal_fuel (suc f) n =
    let rest = decimal_fuel f (n / 10) in if ltb n 10 then digit n else append rest (digit (n % 10))

unfoldable pub decimal : ℕ → String
unfolding decimal_fuel
decimal n = decimal_fuel (suc n) n

-- The digits at the front of a text, with the value so far and whether there was a digit.
unfoldable pub scan_digits : Bool → ℕ → String → Option (ℕ × String)
scan_digits seen n String.[] = if seen then some (n, "") else none
scan_digits seen n (String.◌∷◌ c s) =
    let rest = scan_digits true (n * 10 + (code c - 48)) s in
    if leb 48 (code c) && leb (code c) 57
    then rest
    else if seen
    then some (n, String.◌∷◌ c s)
    else none

-- Spaces before a number are skipped, a line feed is not.
unfoldable pub skip_space : String → String
skip_space String.[] = String.[]
skip_space (String.◌∷◌ c s) =
    let rest = skip_space s in
    if is_space (code c) && not (eqb (code c) 10) then rest else String.◌∷◌ c s

-- `%d` into an unsigned number of so many bits.
unfoldable pub scan_uint : ℕ → String → Option (ℕ × String)
unfolding scan_digits skip_space
scan_uint bits s = elim (scan_digits false 0 (skip_space s)) [
  | none ↦ none
  | some (n, r) ↦ if ltb n (2 ^ bits) then some (n, r) else none
]

-- A sign before an int.
unfoldable pub drop_sign : String → Bool × String
drop_sign String.[] = (false, String.[])
drop_sign (String.◌∷◌ c s) =
    if eqb (code c) 45
    then (true, s)
    else if eqb (code c) 43
    then (false, s)
    else (false, String.◌∷◌ c s)

-- `%d` into an int of 64 bits; only whether it is scanned matters.
unfoldable pub scan_int : String → Option String
unfolding scan_digits skip_space drop_sign
scan_int s =
    let (negative, t) = drop_sign (skip_space s) in
    elim (scan_digits false 0 t) [
      | none ↦ none
      | some (n, r) ↦ if leb n ((if negative then 2 ^ 63 else 2 ^ 63 - 1)) then some r else none
    ]

-- The text after a fixed prefix.
unfoldable pub scan_text : String → String → Option String
scan_text String.[] s = some s
scan_text (String.◌∷◌ d t) String.[] = none
scan_text (String.◌∷◌ d t) (String.◌∷◌ c s) = if eqb (code d) (code c) then scan_text t s else none

-- `Sscanf(s, "v=%d", &version)`
unfoldable pub scan_version : String → Option String
unfolding scan_text scan_int
scan_version s = elim (scan_text "v=" s) [ none ↦ none | some r ↦ scan_int r ]

infixl 5 ◌>>?◌
abbrev ◌>>?◌ : {A B : Type 0} → Option A → (A → Option B) → Option B
none >>? f = none
some a >>? f = f a

-- `Sscanf(s, "m=%d,t=%d,p=%d", &memory, &iterations, &parallelism)`
unfoldable pub scan_parameters : String → Option (ℕ × ℕ × ℕ)
unfolding scan_text scan_uint
scan_parameters s = scan_text "m=" s >>? λ s₁. scan_uint 32 s₁ >>? λ (m, s₂).
    scan_text ",t=" s₂ >>? λ s₃. scan_uint 32 s₃ >>? λ (t, s₄).
    scan_text ",p=" s₄ >>? λ s₅. scan_uint 8 s₅ >>? λ (p, _). some (m, t, p)

-- The loop that splits at `$` and leaves empty sections out, with the section so far.
unfoldable pub sections_from : String → String → List String
sections_from part String.[] = if part == "" then [] else part ∷ []
sections_from part (String.◌∷◌ c s) =
    let others = sections_from "" s in
    let same = sections_from (snoc part c) s in
    if eqb (code c) 36 then (if part == "" then others else part ∷ others) else same

unfoldable pub sections : String → List String
unfolding sections_from
sections s = sections_from "" s

-- The loop that compares two hashes, with the differences so far.
unfoldable pub difference : ℕ → List ℕ → List ℕ → ℕ
difference d [] bs = d
difference d (a ∷ more) [] = d
difference d (a ∷ more) (b ∷ bs) = difference (bit_or d (bit_xor a b)) more bs

abbrev pub length : {A : Type 0} → List A → ℕ
length [] = 0
length (x ∷ xs) = suc (length xs)

unfoldable pub same_hash : List ℕ → List ℕ → Bool
unfolding difference
same_hash actual expected =
    if eqb (length actual) (length expected) then eqb (difference 0 actual expected) 0 else false

-- The hash that is computed against the one that is expected.
abbrev compares : List ℕ → Result (List ℕ) → Result Bool
compares expected (ok actual) = ok (same_hash actual expected)
compares expected (err e) = err e

-- `if err != nil { return false, fmt.Errorf(m, err) }`
abbrev or_message : {A B : Type 0} → Option A → String → (A → Result B) → Result B
or_message none m k = err (message m)
or_message (some a) m k = k a

unfoldable wrong_format : ℕ → Result Bool
unfolding decimal
wrong_format n =
    err (message (join ("invalid hash format: got " ∷ decimal n ∷ " sections" ∷ []) ""))

abbrev pub lift : {A : Type 0} → Result A → M A
lift r w = (r, w)

module _ ⦃env : Env⦄ where
  -- `argon2.IDKey`, which panics for no iteration and for no thread.
  unfoldable pub id_key : String → List ℕ → ℕ → ℕ → ℕ → ℕ → Result (List ℕ)
  id_key password salt t m p n =
      if ltb t 1
      then err (panicked "argon2: number of rounds too small")
      else if ltb p 1
      then err (panicked "argon2: parallelism degree too low")
      else ok (env.argon2id password salt t m p n)

  -- The text that `Hash` returns for a salt and a key.
  unfoldable pub encode : PasswordHasher → List ℕ → List ℕ → String
  unfolding decimal
  encode h salt key =
      join
        ("$argon2id$v="
          ∷ decimal 19
          ∷ "$m="
          ∷ decimal h.memory
          ∷ ",t="
          ∷ decimal h.iterations
          ∷ ",p="
          ∷ decimal h.parallelism
          ∷ "$"
          ∷ env.base64_raw_std salt
          ∷ "$"
          ∷ env.base64_raw_std key
          ∷ [])
        ""

  unfoldable pub hash : PasswordHasher → String → M String
  unfolding encode id_key
  hash h password = do
    salt ← or_raise (read_entropy h.salt_length) (wrapped "failed to generate salt")
    key ← lift (id_key password salt h.iterations h.memory h.parallelism h.key_length)
    pure (encode h salt key)

  -- The last steps of `Verify`, on the sections.
  unfoldable pub verify_sections : String → List String → Result Bool
  unfolding scan_version scan_parameters same_hash wrong_format id_key
  verify_sections password (name ∷ version ∷ parameters ∷ salt₆₄ ∷ hash₆₄ ∷ []) =
      if not (name == "argon2id")
      then wrong_format 5
      else or_message (scan_version version) "invalid version" (λ _.
        or_message (scan_parameters parameters) "invalid parameters" (λ (m, t, p).
          or_message (env.base64_raw_std_decode salt₆₄) "failed to decode salt" (λ salt.
            or_message (env.base64_raw_std_decode hash₆₄) "failed to decode hash" (λ expected.
              compares expected (id_key password salt t m p (length expected % 2 ^ 32))))))
  verify_sections password found = wrong_format (length found)

  -- The parameters are those of the hash, and not those of the hasher.
  unfoldable pub verify : String → String → Result Bool
  unfolding sections verify_sections
  verify password encoded = verify_sections password (sections encoded)
