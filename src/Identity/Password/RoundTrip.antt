-- ===== src/Identity/Password/RoundTrip.antt =====
-- From `Hash` to `Verify` (internal/identity/service.go).
use Prim.Native.String.{◌++◌ as append}
use Prim.Native.Nat.{◌^◌}
use text.Mathlib.TextLemmas.{cons-append, cons-ne-nil}
use opentrusty.Prelude.{
  AreBytes, Bool-cases, List, String, [], ap, arith, eq_of_==, false, inl, inr, refl, some, subst,
  sym, true, ℕ, ◌%◌, ◌<◌, ◌==◌, ◌∙◌, ◌∷◌, ◌≡◌, ◌≤◌,
}
use opentrusty.Identity.Password.{
  PasswordHasher, decimal, drop_sign, encode, hash, id_key, length, scan_digits, scan_int,
  scan_text, scan_version, sections, skip_space, verify, verify_sections,
}
use opentrusty.Identity.Password.Layout.{
  decimal_version, join-sectioned, sectioned, sections-sectioned,
}
use opentrusty.Identity.Password.Numerals.{decimal-Printed}
use opentrusty.Identity.Password.Scanning.{parameters, same_hash_refl, scan_parameters-parameters}
use opentrusty.Identity.Password.Sections.{all_digits-is_plain, is_plain, is_plain-append}
use opentrusty.Text.{is_space, join}
use opentrusty.World.{Env, World, ok}

module _ ⦃env : Env⦄ where
  -- What the library of base64 is asked for at these bytes: a text with no `$` that is not empty and
  -- that is decoded to them.
  pub record IsReadable (bs : List ℕ) : Type 0 where
    pub plain : is_plain (env.base64_raw_std bs) ≡ true
    pub full : (env.base64_raw_std bs == "") ≡ false
    pub decoded : env.base64_raw_std_decode (env.base64_raw_std bs) ≡ some bs

  -- The key that argon2 derives for a hasher.
  abbrev pub key_of : PasswordHasher → String → List ℕ → List ℕ
  key_of h password salt =
      env.argon2id password salt h.iterations h.memory h.parallelism h.key_length

  encode-sectioned :
      (h : PasswordHasher) (salt key : List ℕ)
      → encode h salt key
        ≡ sectioned
            (parameters h.memory h.iterations h.parallelism)
            (env.base64_raw_std salt)
            (env.base64_raw_std key)
  unfolding encode
  encode-sectioned h salt key =
      let s = env.base64_raw_std salt in
      let k = env.base64_raw_std key in
      ap
        (λ v.
          join
            ("$argon2id$v="
              ∷ v
              ∷ "$m="
              ∷ decimal h.memory
              ∷ ",t="
              ∷ decimal h.iterations
              ∷ ",p="
              ∷ decimal h.parallelism
              ∷ "$"
              ∷ s
              ∷ "$"
              ∷ k
              ∷ [])
            "")
        decimal_version
      ∙ join-sectioned (decimal h.memory) (decimal h.iterations) (decimal h.parallelism) s k

  -- The section of the parameters.
  parameters_plain : (m t p : ℕ) → is_plain (parameters m t p) ≡ true
  parameters_plain m t p =
      let digits : (n : ℕ) → is_plain (decimal n) ≡ true =
        λ n. all_digits-is_plain (decimal n) (decimal-Printed n).digits in
      let s₄ = append ",p=" (decimal p) in
      let s₃ = append (decimal t) s₄ in
      let s₂ = append ",t=" s₃ in
      let s₁ = append (decimal m) s₂ in
      ground (
        arith,
        is_plain-append "m=" s₁,
        is_plain-append (decimal m) s₂,
        is_plain-append ",t=" s₃,
        is_plain-append (decimal t) s₄,
        is_plain-append ",p=" (decimal p),
        digits m,
        digits t,
        digits p,
      )

  parameters_full : (m t p : ℕ) → (parameters m t p == "") ≡ false
  parameters_full m t p =
      let rest =
        append (decimal m) (append ",t=" (append (decimal t) (append ",p=" (decimal p)))) in
      elim (Bool-cases (append "m=" rest == "")) [
        | inl e ↦ absurd (
            cons-ne-nil "m" (append "=" rest)
              (sym (cons-append "m" "=" rest) ∙ eq_of_== (append "m=" rest) "" e))
        | inr e ↦ e
      ]

  -- A hasher whose numbers have the width of their types.
  pub record HasWidths (h : PasswordHasher) : Type 0 where
    pub memory : h.memory < 2 ^ 32
    pub iterations : h.iterations < 2 ^ 32
    pub parallelism : h.parallelism < 2 ^ 8
    pub key_length : h.key_length < 2 ^ 32

  -- A hasher for which argon2 does not panic.
  pub record Runs (h : PasswordHasher) : Type 0 where
    pub iterates : 1 ≤ h.iterations
    pub has_thread : 1 ≤ h.parallelism

  id_key-Runs :
      (h : PasswordHasher) (password : String) (salt : List ℕ) (n : ℕ)
      → Runs h
      → id_key password salt h.iterations h.memory h.parallelism n
        ≡ ok (env.argon2id password salt h.iterations h.memory h.parallelism n)
  unfolding id_key
  id_key-Runs h password salt n runs =
      let i = runs.iterates in let p = runs.has_thread in ground arith

  -- A hash that is made was derived.
  hash_lem :
      (h : PasswordHasher) (password encoded : String) (w w' : World)
      → hash h password w ≡ (ok encoded, w')
      → Runs h
        × (encode h
              (env.random w.events h.salt_length)
              (key_of h password (env.random w.events h.salt_length))
            ≡ encoded)
  unfolding hash id_key
  hash_lem h password encoded w w' e =
      (record { iterates = ground arith; has_thread = ground arith }, ground arith)

  scanned_version : scan_version "v=19" ≡ some ""
  unfolding scan_version scan_text scan_int skip_space is_space drop_sign scan_digits
  scanned_version = refl

  verify_sections_lem :
      (h : PasswordHasher) (password : String) (salt : List ℕ)
      → HasWidths h
      → Runs h
      → IsReadable salt
      → IsReadable (key_of h password salt)
      → AreBytes (key_of h password salt)
      → length (key_of h password salt) ≡ h.key_length
      → verify_sections password (
          "argon2id"
          ∷ "v=19"
          ∷ parameters h.memory h.iterations h.parallelism
          ∷ env.base64_raw_std salt
          ∷ env.base64_raw_std (key_of h password salt)
          ∷ [])
        ≡ ok true
  unfolding verify_sections
  verify_sections_lem h password salt fits runs rs rk bytes long =
      let key = key_of h password salt in
      let width : length key % 2 ^ 32 ≡ h.key_length =
        let small = fits.key_length in ground arith in
      ground (
        arith,
        scanned_version,
        scan_parameters-parameters h.memory h.iterations h.parallelism fits.memory fits.iterations
            fits.parallelism,
        rs.decoded,
        rk.decoded,
        ap (id_key password salt h.iterations h.memory h.parallelism) width,
        id_key-Runs h password salt h.key_length runs,
        same_hash_refl key bytes,
      )

  -- A password is verified against the text that the hasher made of it.
  pub verify-encode :
      (h : PasswordHasher) (password : String) (salt : List ℕ)
      → HasWidths h
      → Runs h
      → IsReadable salt
      → IsReadable (key_of h password salt)
      → AreBytes (key_of h password salt)
      → length (key_of h password salt) ≡ h.key_length
      → verify password (encode h salt (key_of h password salt)) ≡ ok true
  unfolding verify
  verify-encode h password salt fits runs rs rk bytes long =
      let p = parameters h.memory h.iterations h.parallelism in
      let s = env.base64_raw_std salt in
      let k = env.base64_raw_std (key_of h password salt) in
      ap (λ x. verify_sections password (sections x))
        (encode-sectioned h salt (key_of h password salt))
      ∙ ap (verify_sections password) (
          sections-sectioned p s k (parameters_plain h.memory h.iterations h.parallelism)
            (parameters_full h.memory h.iterations h.parallelism) rs.plain rs.full rk.plain rk.full)
      ∙ verify_sections_lem h password salt fits runs rs rk bytes long

  -- A text that `Hash` returns for a password is one that `Verify` accepts for it: the widths of the
  -- numbers of the hasher are those of their types, the texts of the salt and of the key are decoded
  -- to them, are not empty and have no `$`, and the key is of the bytes and of the length that were asked for.
  pub verify-hash :
      (h : PasswordHasher) (password encoded : String) (w w' : World)
      → HasWidths h
      → IsReadable (env.random w.events h.salt_length)
      → IsReadable (key_of h password (env.random w.events h.salt_length))
      → AreBytes (key_of h password (env.random w.events h.salt_length))
      → length (key_of h password (env.random w.events h.salt_length)) ≡ h.key_length
      → hash h password w ≡ (ok encoded, w')
      → verify password encoded ≡ ok true
  verify-hash h password encoded w w' fits rs rk bytes long e =
      let salt = env.random w.events h.salt_length in
      let (runs, same) = hash_lem h password encoded w w' e in
      subst (λ x. verify password x ≡ ok true) same
        (verify-encode h password salt fits runs rs rk bytes long)
