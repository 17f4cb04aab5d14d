-- ===== src/Identity/Password/Sections.antt =====
-- The sections of the text that `Hash` returns (internal/identity/service.go).
use Prim.Native.Char.{Char, code}
use Prim.Native.String.{◌++◌ as append}
use text.Mathlib.TextLemmas.{append-nil, append_assoc, cons-append, nil-append}
use opentrusty.Prelude.{
  Bool, String, [], ap, arith, eqb, false, not, refl, true, ◌&&◌, ◌==◌, ◌∙◌, ◌∷◌, ◌≡◌,
}
use opentrusty.Identity.Password.{sections_from}
use opentrusty.Identity.Password.Numerals.{all_digits}
use opentrusty.Text.{snoc}

-- No section begins or ends inside the text.
abbrev pub is_plain : String → Bool
is_plain String.[] = true
is_plain (String.◌∷◌ c s) = not (eqb (code c) 36) && is_plain s

snoc-append : (s : String) (c : Char) (t : String) → append (snoc s c) t ≡ append s (String.◌∷◌ c t)
snoc-append s c t =
    append_assoc s (String.◌∷◌ c String.[]) t
    ∙ ap (append s) (cons-append c String.[] t ∙ ap (String.◌∷◌ c) (nil-append t))

pub is_plain-append : (s t : String) → is_plain (append s t) ≡ (is_plain s && is_plain t)
is_plain-append String.[] t = ap is_plain (nil-append t)
is_plain-append (String.◌∷◌ c s) t =
    ap is_plain (cons-append c s t) ∙ ground (arith, is_plain-append s t)

pub all_digits-is_plain : (s : String) → all_digits s ≡ true → is_plain s ≡ true
all_digits-is_plain String.[] h = refl
all_digits-is_plain (String.◌∷◌ c s) h = ground (arith, all_digits-is_plain s)

-- A section that is followed by another.
pub sections_from-append :
    (part s rest : String)
    → is_plain s ≡ true
    → (append part s == "") ≡ false
    → sections_from part (append s (append "$" rest)) ≡ append part s ∷ sections_from "" rest
unfolding sections_from
sections_from-append part String.[] rest plain full =
    let whole : append part "" ≡ part = append-nil part in
    let skip : sections_from part (append "" (append "$" rest))
        ≡ sections_from part (String.◌∷◌ "$" rest) =
      ap (sections_from part) (
        nil-append (append "$" rest)
        ∙ cons-append "$" "" rest
        ∙ ap (String.◌∷◌ "$") (nil-append rest)) in
    skip ∙ ground (arith, whole)
sections_from-append part (String.◌∷◌ c s) rest plain full =
    let same = snoc-append part c s in
    let step = sections_from-append (snoc part c) s rest (ground arith) (ground (arith, same)) in
    ap (sections_from part) (cons-append c s (append "$" rest)) ∙ ground (arith, step, same)

-- The last section.
pub sections_from_last :
    (part s : String)
    → is_plain s ≡ true
    → (append part s == "") ≡ false
    → sections_from part s ≡ append part s ∷ []
unfolding sections_from
sections_from_last part String.[] plain full =
    let whole : append part "" ≡ part = append-nil part in ground (arith, whole)
sections_from_last part (String.◌∷◌ c s) plain full =
    let same = snoc-append part c s in
    let step = sections_from_last (snoc part c) s (ground arith) (ground (arith, same)) in
    ground (arith, step, same)
