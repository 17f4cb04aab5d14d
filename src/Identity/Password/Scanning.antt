-- ===== src/Identity/Password/Scanning.antt =====
-- The scanning of the sections of a hash, and the comparison of two hashes
-- (internal/identity/service.go).
use Prim.Native.String.{◌++◌ as append}
use Prim.Native.Nat.{bit_or, bit_xor, ◌^◌}
use text.Mathlib.TextLemmas.{append-nil, cons-append, nil-append}
use opentrusty.Prelude.{
  AreBytes, Bool, Bool-cases, List, String, [], ap, arith, eqb, inl, inr, refl, some, suc, sym,
  true, zero, ℕ, ◌&&◌, ◌<◌, ◌∙◌, ◌∷◌, ◌≡◌, ◌≢◌,
}
use opentrusty.Identity.Password.{
  decimal, difference, same_hash, scan_parameters, scan_text, scan_uint, skip_space,
}
use opentrusty.Identity.Password.Numerals.{all_digits, decimal-Printed, scan_digits-decimal, stops}
use opentrusty.Text.{is_space}

scan_text-append : (t s : String) → scan_text t (append t s) ≡ some s
unfolding scan_text
scan_text-append String.[] s = ap some (nil-append s)
scan_text-append (String.◌∷◌ d t) s =
    ap (scan_text (String.◌∷◌ d t)) (cons-append d t s) ∙ ground (arith, scan_text-append t s)

skip_space_digit :
    (s t : String) → all_digits s ≡ true → s ≢ "" → skip_space (append s t) ≡ append s t
unfolding skip_space is_space
skip_space_digit String.[] t h full = absurd (full refl)
skip_space_digit (String.◌∷◌ c s) t h full =
    let e = cons-append c s t in ap skip_space e ∙ (ground (arith, e) ∙ sym e)

scan_uint-decimal :
    (bits n : ℕ) (t : String)
    → n < 2 ^ bits
    → stops t ≡ true
    → scan_uint bits (append (decimal n) t) ≡ some (n, t)
unfolding scan_uint
scan_uint-decimal bits n t h e =
    let p = decimal-Printed n in
    ground (arith, skip_space_digit (decimal n) t p.digits p.some_digit, scan_digits-decimal n t e)

-- The third section of a hash.
abbrev pub parameters : ℕ → ℕ → ℕ → String
parameters m t p =
    append "m=" (append (decimal m) (append ",t=" (append (decimal t) (append ",p=" (decimal p)))))

pub scan_parameters-parameters :
    (m t p : ℕ)
    → m < 2 ^ 32
    → t < 2 ^ 32
    → p < 2 ^ 8
    → scan_parameters (parameters m t p) ≡ some (m, t, p)
unfolding scan_parameters
scan_parameters-parameters m t p hm ht hp =
    let s₅ = decimal p in
    let s₄ = append ",p=" s₅ in
    let s₃ = append (decimal t) s₄ in
    let s₂ = append ",t=" s₃ in
    let s₁ = append (decimal m) s₂ in
    let last : scan_uint 8 (decimal p) ≡ some (p, "") =
      ap (scan_uint 8) (sym (append-nil (decimal p))) ∙ scan_uint-decimal 8 p "" hp refl in
    ground (
      arith,
      scan_text-append "m=" s₁,
      scan_uint-decimal 32 m s₂ hm (ap stops (cons-append "," "t=" s₃)),
      scan_text-append ",t=" s₃,
      scan_uint-decimal 32 t s₄ ht (ap stops (cons-append "," "p=" s₅)),
      scan_text-append ",p=" s₅,
      last,
    )

abbrev all_below : ℕ → (ℕ → Bool) → Bool
all_below zero test = true
all_below (suc n) test = test n && all_below n test

all_below_sound :
    (n : ℕ) (test : ℕ → Bool) (x : ℕ) → all_below n test ≡ true → x < n → test x ≡ true
all_below_sound zero test x h below = absurd (omega arith)
all_below_sound (suc n) test x h below = elim (Bool-cases (eqb x n)) [
  | inl e ↦ ground arith
  | inr e ↦ all_below_sound n test x (ground arith) (ground arith)
]

no_difference : (x : ℕ) → x < 256 → eqb (bit_or 0 (bit_xor x x)) 0 ≡ true
no_difference x h = all_below_sound 256 (λ y. eqb (bit_or 0 (bit_xor y y)) 0) x refl h

difference_refl : (bs : List ℕ) → AreBytes bs → difference 0 bs bs ≡ 0
unfolding difference
difference_refl [] h = refl
difference_refl (b ∷ bs) h =
    ground (arith, no_difference b h.0, difference_refl bs h.1, ap (λ d. difference d bs bs))

pub same_hash_refl : (bs : List ℕ) → AreBytes bs → same_hash bs bs ≡ true
unfolding same_hash
same_hash_refl bs h = ground (arith, difference_refl bs h)
