-- ===== src/Identity/Password/Numerals.antt =====
-- Numbers printed by `%d` and read back (fmt and strconv, as internal/identity/service.go and
-- internal/config/config.go call them).
use Prim.Native.Char.{Char, code}
use Prim.Native.String.{◌++◌ as append}
use text.Mathlib.TextLemmas.{append-ne-nil_of_right_ne-nil, cons-append, cons-ne-nil, nil-append}
use opentrusty.Prelude.{
  Bool, Bool-cases, String, ap, arith, false, inl, inr, leb, ltb, not, refl, some, suc, sym, true,
  zero, ℕ, ◌%◌, ◌&&◌, ◌*◌, ◌+◌, ◌-◌, ◌/◌, ◌<◌, ◌∙◌, ◌≡◌, ◌≢◌,
}
use opentrusty.Identity.Password.{decimal, decimal_fuel, digit, scan_digits}

abbrev pub is_digit : ℕ → Bool
is_digit c = leb 48 c && leb c 57

abbrev pub all_digits : String → Bool
all_digits String.[] = true
all_digits (String.◌∷◌ c s) = is_digit (code c) && all_digits s

-- The number that digits stand for, after a number read so far.
abbrev pub value_of : ℕ → String → ℕ
value_of n String.[] = n
value_of n (String.◌∷◌ c s) = value_of (n * 10 + (code c - 48)) s

digit_lem : (d : ℕ) → d < 10 → (c : Char) × (digit d ≡ String.◌∷◌ c String.[]) × (code c ≡ 48 + d)
digit_lem zero h = ("0", refl, refl)
digit_lem (suc zero) h = ("1", refl, refl)
digit_lem (suc (suc zero)) h = ("2", refl, refl)
digit_lem (suc (suc (suc zero))) h = ("3", refl, refl)
digit_lem (suc (suc (suc (suc zero)))) h = ("4", refl, refl)
digit_lem (suc (suc (suc (suc (suc zero))))) h = ("5", refl, refl)
digit_lem (suc (suc (suc (suc (suc (suc zero)))))) h = ("6", refl, refl)
digit_lem (suc (suc (suc (suc (suc (suc (suc zero))))))) h = ("7", refl, refl)
digit_lem (suc (suc (suc (suc (suc (suc (suc (suc zero)))))))) h = ("8", refl, refl)
digit_lem (suc (suc (suc (suc (suc (suc (suc (suc (suc zero))))))))) h = ("9", refl, refl)
digit_lem (suc (suc (suc (suc (suc (suc (suc (suc (suc (suc d)))))))))) h = absurd (omega arith)

value_of-append : (s t : String) (n : ℕ) → value_of n (append s t) ≡ value_of (value_of n s) t
value_of-append String.[] t n = ap (value_of n) (nil-append t)
value_of-append (String.◌∷◌ c s) t n =
    ap (value_of n) (cons-append c s t) ∙ value_of-append s t (n * 10 + (code c - 48))

all_digits-append : (s t : String) → all_digits (append s t) ≡ (all_digits s && all_digits t)
all_digits-append String.[] t = ap all_digits (nil-append t)
all_digits-append (String.◌∷◌ c s) t =
    ap all_digits (cons-append c s t) ∙ ground (arith, all_digits-append s t)

value_of-digit : (n d : ℕ) → d < 10 → value_of n (digit d) ≡ n * 10 + d
value_of-digit n d h = let (c, e, f) = digit_lem d h in ap (value_of n) e ∙ ground (arith, f)

all_digits-digit : (d : ℕ) → d < 10 → all_digits (digit d) ≡ true
all_digits-digit d h = let (c, e, f) = digit_lem d h in ap all_digits e ∙ ground (arith, f)

-- What is printed on fuel that is above the number.
pub record Printed (s : String) (n : ℕ) : Type 0 where
  pub number : value_of 0 s ≡ n
  pub digits : all_digits s ≡ true
  pub some_digit : s ≢ ""

digit-Printed : (d : ℕ) → d < 10 → Printed (digit d) d
digit-Printed d h = record {
  number = ground (arith, value_of-digit 0 d h);
  digits = all_digits-digit d h;
  some_digit = let (c, e, f) = digit_lem d h in λ x. cons-ne-nil c "" (sym e ∙ x);
}

decimal_fuel-Printed : (f n : ℕ) → n < f → Printed (decimal_fuel f n) n
unfolding decimal_fuel
decimal_fuel-Printed zero n h = absurd (omega arith)
decimal_fuel-Printed (suc f) n h = elim (Bool-cases (ltb n 10)) [
  | inl e ↦
      let p : Printed (digit n) n = digit-Printed n (ground arith) in
      record {
        number = ground (arith, p.number);
        digits = ground (arith, p.digits);
        some_digit = λ x. p.some_digit (ground arith);
      }
  | inr e ↦
      let small : n % 10 < 10 = omega arith in
      let p = decimal_fuel-Printed f (n / 10) (ground arith) in
      let top = decimal_fuel f (n / 10) in
      record {
        number = ground (
          arith,
          value_of-append top (digit (n % 10)) 0,
          value_of-digit (value_of 0 top) (n % 10) small,
          p.number,
        );
        digits = ground (
          arith,
          all_digits-append top (digit (n % 10)),
          all_digits-digit (n % 10) small,
          p.digits,
        );
        some_digit = λ x.
            append-ne-nil_of_right_ne-nil top (digit-Printed (n % 10) small).some_digit
              (ground (arith, x));
      }
]

pub decimal-Printed : (n : ℕ) → Printed (decimal n) n
unfolding decimal
decimal-Printed n = decimal_fuel-Printed (suc n) n (omega arith)

-- A text that goes on with no digit.
abbrev pub stops : String → Bool
stops String.[] = true
stops (String.◌∷◌ c s) = not (is_digit (code c))

scan_digits_stop : (n : ℕ) (t : String) → stops t ≡ true → scan_digits true n t ≡ some (n, t)
unfolding scan_digits
scan_digits_stop n String.[] h = ground arith
scan_digits_stop n (String.◌∷◌ c s) h = ground arith

scan_digits-append :
    (s t : String) (n : ℕ)
    → all_digits s ≡ true
    → stops t ≡ true
    → scan_digits true n (append s t) ≡ some (value_of n s, t)
unfolding scan_digits
scan_digits-append String.[] t n h e =
    ap (scan_digits true n) (nil-append t) ∙ scan_digits_stop n t e
scan_digits-append (String.◌∷◌ c s) t n h e =
    ap (scan_digits true n) (cons-append c s t)
    ∙ ground (arith, scan_digits-append s t (n * 10 + (code c - 48)) (ground arith) e)

scan_digits-Printed :
    (s t : String) (n : ℕ)
    → Printed s n
    → stops t ≡ true
    → scan_digits false 0 (append s t) ≡ some (n, t)
unfolding scan_digits
scan_digits-Printed String.[] t n p e = absurd (p.some_digit refl)
scan_digits-Printed (String.◌∷◌ c s) t n p e =
    let step = scan_digits-append s t (code c - 48) in
    let d = p.digits in
    let v = p.number in
    ap (scan_digits false 0) (cons-append c s t) ∙ ground (arith, step (ground arith) e)

-- A number that is printed is read back, and the reading stops where the digits end.
pub scan_digits-decimal :
    (n : ℕ) (t : String) → stops t ≡ true → scan_digits false 0 (append (decimal n) t) ≡ some (n, t)
scan_digits-decimal n t e = scan_digits-Printed (decimal n) t n (decimal-Printed n) e
