-- ===== src/Oauth2/Encryption.antt =====
-- `encrypt` and `decrypt` of internal/oauth2/service.go. AES in Galois/Counter Mode is that of the
-- standard library: for a key of one of its lengths a cipher, which seals and opens with a nonce.
use opentrusty.Prelude.{
  List, Option, [], ap, arith, ltb, refl, some, suc, zero, ℕ, ◌++◌, ◌∷◌, ◌≡◌, ◌≤◌,
}
use opentrusty.Domain.Errors.{message}
use opentrusty.Identity.Password.{length}
use opentrusty.World.{Env, M, World, ok, one_row, pure, raise_if, read_entropy, ◌>>=◌, ◌>>◌}

pub record Gcm : Type 0 where
  pub nonce_size : ℕ
  pub seal : List ℕ → List ℕ → List ℕ
  pub open_sealed : List ℕ → List ℕ → Option (List ℕ)

-- `data[:n]` and `data[n:]`, for as many bytes as there are.
abbrev split_at : ℕ → List ℕ → List ℕ × List ℕ
split_at zero bs = ([], bs)
split_at (suc n) [] = ([], [])
split_at (suc n) (b ∷ bs) = let (front, back) = split_at n bs in (b ∷ front, back)

module _ ⦃env : Env⦄ (new_gcm : List ℕ → Option Gcm) where
  -- The nonce stands before the ciphertext.
  unfoldable pub encrypt : List ℕ → List ℕ → M (List ℕ)
  encrypt key plaintext = do
    gcm ← one_row (new_gcm key) (message "crypto/aes: invalid key size")
    nonce ← read_entropy gcm.nonce_size
    pure (nonce ++ gcm.seal nonce plaintext)

  unfoldable pub decrypt : List ℕ → List ℕ → M (List ℕ)
  decrypt key ciphertext = do
    gcm ← one_row (new_gcm key) (message "crypto/aes: invalid key size")
    raise_if (ltb (length ciphertext) gcm.nonce_size) (message "ciphertext too short")
    let (nonce, sealed) = split_at gcm.nonce_size ciphertext
    one_row (gcm.open_sealed nonce sealed) (message "cipher: message authentication failed")

  split_at-append : (xs ys : List ℕ) → split_at (length xs) (xs ++ ys) ≡ (xs, ys)
  split_at-append [] ys = refl
  split_at-append (x ∷ xs) ys = ap (λ p. (x ∷ p.0, p.1)) (split_at-append xs ys)

  length-append_le : (xs ys : List ℕ) → length xs ≤ length (xs ++ ys)
  length-append_le [] ys = omega arith
  length-append_le (x ∷ xs) ys = omega (arith, length-append_le xs ys)

  -- What was encrypted is decrypted with the same key, whatever the nonce, if the cipher opens what
  -- it sealed with the nonce and the source of random bytes gives as many as it is asked for.
  pub decrypt-encrypt :
      (gcm : Gcm) (key plaintext ciphertext : List ℕ) (w w' v : World)
      → new_gcm key ≡ some gcm
      → ((nonce bytes : List ℕ) → gcm.open_sealed nonce (gcm.seal nonce bytes) ≡ some bytes)
      → length (env.random w.events gcm.nonce_size) ≡ gcm.nonce_size
      → encrypt key plaintext w ≡ (ok ciphertext, w')
      → decrypt key ciphertext v ≡ (ok plaintext, v)
  unfolding encrypt decrypt
  decrypt-encrypt gcm key plaintext ciphertext w w' v made opens long e =
      let nonce = env.random w.events gcm.nonce_size in
      let sealed = gcm.seal nonce plaintext in
      let written : nonce ++ sealed ≡ ciphertext = ground arith in
      ground (
        arith,
        length-append_le nonce sealed,
        ap (λ n. split_at n (nonce ++ sealed)) long,
        split_at-append nonce sealed,
        opens nonce plaintext,
      )
