-- ===== src/Oidc/KeySet/Bytes.antt =====
-- The bytes that `bigIntToBytes` (internal/oidc/service.go) writes a number in.
use opentrusty.Prelude.{
  AreBytes, List, [], arith, refl, subst, suc, zero, ℕ, ◌%◌, ◌*◌, ◌+◌, ◌/◌, ◌∷◌, ◌≡◌, ◌≤◌,
}
use opentrusty.Oidc.KeySet.{big_int_to_bytes, bytes_from}

-- The number that bytes stand for, the first byte the highest, after a number read so far.
abbrev value_after : ℕ → List ℕ → ℕ
value_after n [] = n
value_after n (b ∷ bs) = value_after (n * 256 + b) bs

abbrev pub value : List ℕ → ℕ
value bs = value_after 0 bs

bytes_from_value :
    (fuel n : ℕ) (res : List ℕ)
    → n ≤ fuel
    → value_after 0 (bytes_from fuel n res) ≡ value_after n res
unfolding bytes_from
bytes_from_value zero n res enough = ground arith
bytes_from_value (suc fuel) zero res enough = ground arith
bytes_from_value (suc fuel) (suc m) res enough =
    let n = suc m in
    let back = bytes_from_value fuel (n / 256) (n % 256 ∷ res) (ground arith) in
    let whole : n / 256 * 256 + n % 256 ≡ n = omega arith in ground (arith, back, whole)

bytes_from-AreBytes : (fuel n : ℕ) (res : List ℕ) → AreBytes res → AreBytes (bytes_from fuel n res)
unfolding bytes_from
bytes_from-AreBytes zero n res h = h
bytes_from-AreBytes (suc fuel) zero res h = h
bytes_from-AreBytes (suc fuel) (suc m) res h =
    let more = bytes_from fuel (suc m / 256) (suc m % 256 ∷ res) in
    let step : more ≡ bytes_from (suc fuel) (suc m) res = ground arith in
    subst AreBytes step
      (bytes_from-AreBytes fuel (suc m / 256) (suc m % 256 ∷ res) (omega arith, h))

-- The bytes of a number are below 256 and, read back with the highest first, are the number.
pub big_int_to_bytes-value :
    (n : ℕ) → (value (big_int_to_bytes n) ≡ n) × AreBytes (big_int_to_bytes n)
unfolding big_int_to_bytes
big_int_to_bytes-value zero = (refl, (omega arith, tt))
big_int_to_bytes-value (suc m) =
    let step : bytes_from (suc m) (suc m) [] ≡ big_int_to_bytes (suc m) = ground arith in
    subst (λ bs. (value bs ≡ suc m) × AreBytes bs) step
      (bytes_from_value (suc m) (suc m) [] (omega arith), bytes_from-AreBytes (suc m) (suc m) [] tt)
