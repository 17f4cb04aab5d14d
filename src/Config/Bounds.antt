-- ===== src/Config/Bounds.antt =====
-- The numbers of the configuration (internal/config/config.go).
use Prim.Native.Nat.{◌^◌}
use text.Mathlib.TextLemmas.{append-nil}
use opentrusty.Prelude.{
  ==_iff, Bool-cases, Option, Option-cases, String, ap, arith, eq_of_==, false, inl, inr, negsuc,
  none, pos, refl, some, subst, sym, true, ℕ, ℤ, ◌%◌, ◌<◌, ◌==◌, ◌∙◌, ◌≡◌, ◌≢◌,
}
use opentrusty.Config.{
  Config, SecurityConfig, atoi, load, parse_int, read_config, read_security, to_uint, validate,
}
use opentrusty.Identity.Password.{decimal, drop_sign, scan_digits}
use opentrusty.Identity.Password.Numerals.{all_digits, decimal-Printed, scan_digits-decimal}
use opentrusty.World.{ok}

to_uint_32 : (z : ℤ) → to_uint 32 z < 2 ^ 32
unfolding to_uint
to_uint_32 (pos n) = omega arith
to_uint_32 (negsuc n) = omega arith

to_uint_8 : (z : ℤ) → to_uint 8 z < 2 ^ 8
unfolding to_uint
to_uint_8 (pos n) = omega arith
to_uint_8 (negsuc n) = omega arith

-- The numbers of the hasher have the width of their types.
pub record Fits (s : SecurityConfig) : Type 0 where
  pub memory : s.argon2_memory < 2 ^ 32
  pub iterations : s.argon2_iterations < 2 ^ 32
  pub parallelism : s.argon2_parallelism < 2 ^ 8
  pub salt_length : s.argon2_salt_length < 2 ^ 32
  pub key_length : s.argon2_key_length < 2 ^ 32

drop_sign_digit : (s : String) → all_digits s ≡ true → drop_sign s ≡ (false, s)
unfolding drop_sign
drop_sign_digit String.[] h = refl
drop_sign_digit (String.◌∷◌ c s) h = ground arith

atoi-decimal : (n : ℕ) → n < 2 ^ 63 → atoi (decimal n) ≡ some (pos n)
unfolding atoi
atoi-decimal n h =
    let p = decimal-Printed n in
    let scanned =
      ap (scan_digits false 0) (sym (append-nil (decimal n))) ∙ scan_digits-decimal n "" refl in
    ground (arith, drop_sign_digit (decimal n) p.digits, scanned)

module _ (get : String → String) (duration : String → Option ℤ) where
  read_security-Fits : Fits (read_security get duration)
  unfolding read_security
  read_security-Fits = record {
    memory = to_uint_32 (parse_int get duration "ARGON2_MEMORY" (pos 65_536));
    iterations = to_uint_32 (parse_int get duration "ARGON2_ITERATIONS" (pos 3));
    parallelism = to_uint_8 (parse_int get duration "ARGON2_PARALLELISM" (pos 4));
    salt_length = to_uint_32 (parse_int get duration "ARGON2_SALT_LENGTH" (pos 16));
    key_length = to_uint_32 (parse_int get duration "ARGON2_KEY_LENGTH" (pos 32));
  }

  validate_lem :
      (c : Config)
      → validate get duration c ≡ none
      → (c.database.password ≢ "") × (get "OPENID_KEY_ENCRYPTION_KEY" ≢ "")
  unfolding validate
  validate_lem c h = (
    λ e. ground (arith, (==_iff c.database.password "").1 e),
    λ e. ground (arith, (==_iff (get "OPENID_KEY_ENCRYPTION_KEY") "").1 e),
  )

  load_lem :
      (c : Config)
      → load get duration ≡ ok c
      → (read_config get duration ≡ c) × (validate get duration (read_config get duration) ≡ none)
  unfolding load
  load_lem c h = elim (Option-cases (validate get duration (read_config get duration))) [
    | inl e ↦ (ground arith, e)
    | inr (x, e) ↦ absurd (ground arith)
  ]

  read_config-Fits : Fits (read_config get duration).security
  unfolding read_config
  read_config-Fits = read_security-Fits

  -- A configuration that is loaded has a password for the database, and numbers for the hasher that
  -- have the width of their types; the key that encrypts keys is set.
  pub load-Fits :
      (c : Config)
      → load get duration ≡ ok c
      → (c.database.password ≢ "") × (get "OPENID_KEY_ENCRYPTION_KEY" ≢ "") × Fits c.security
  load-Fits c h =
      let (same, valid) = load_lem c h in
      let (password, key) = validate_lem (read_config get duration) valid in
      subst
        (λ d. (d.database.password ≢ "") × (get "OPENID_KEY_ENCRYPTION_KEY" ≢ "") × Fits d.security)
        same (password, key, read_config-Fits)

  -- A variable that holds a number below 2 ^ 63 is read as that number. As a number of 32 or of 8
  -- bits it is the remainder, so that a parallelism of 256 is 0.
  pub parse_int-decimal :
      (key : String) (n : ℕ) (d : ℤ)
      → n < 2 ^ 63
      → get key ≡ decimal n
      → (parse_int get duration key d ≡ pos n)
        × (to_uint 32 (parse_int get duration key d) ≡ n % 2 ^ 32)
        × (to_uint 8 (parse_int get duration key d) ≡ n % 2 ^ 8)
  unfolding parse_int to_uint
  parse_int-decimal key n d h e =
      let p = decimal-Printed n in
      let set : (get key == "") ≡ false = elim (Bool-cases (get key == "")) [
        | inl empty ↦ absurd (p.some_digit (sym e ∙ eq_of_== (get key) "" empty))
        | inr full ↦ full
      ] in
      let read : parse_int get duration key d ≡ pos n =
        ground (arith, ap atoi e, atoi-decimal n h) in
      (read, ap (to_uint 32) read, ap (to_uint 8) read)
