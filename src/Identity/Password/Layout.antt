-- ===== src/Identity/Password/Layout.antt =====
-- The text that `Hash` returns, by its sections (internal/identity/service.go).
use Prim.Native.String.{◌++◌ as append}
use text.Mathlib.TextLemmas.{append_assoc, cons-append, nil-append}
use opentrusty.Prelude.{String, [], ap, arith, false, refl, sym, true, ◌==◌, ◌∙◌, ◌∷◌, ◌≡◌}
use opentrusty.Identity.Password.{decimal, sections, sections_from}
use opentrusty.Identity.Password.Sections.{is_plain, sections_from-append, sections_from_last}
use opentrusty.Text.{join}

-- The text of a hash by its sections.
abbrev pub sectioned : String → String → String → String
sectioned p s k = append "$" (
    append "argon2id"
      (append "$" (append "v=19" (append "$" (append p (append "$" (append s (append "$" k))))))))

pub decimal_version : decimal 19 ≡ "19"
unfolding decimal
decimal_version = refl

prefix_lem :
    (y : String)
    → append "$" (append "argon2id" (append "$" (append "v=19" y))) ≡ append "$argon2id$v=19" y
prefix_lem y =
    ap (λ x. append "$" (append "argon2id" x)) (sym (append_assoc "$" "v=19" y))
    ∙ ap (append "$") (sym (append_assoc "argon2id" "$v=19" y))
    ∙ sym (append_assoc "$" "argon2id$v=19" y)

parameters_lem :
    (m t p rest : String)
    → append (append "m=" (append m (append ",t=" (append t (append ",p=" p))))) rest
      ≡ append "m=" (append m (append ",t=" (append t (append ",p=" (append p rest)))))
parameters_lem m t p rest = simp append_assoc

pub join-sectioned :
    (m t p s k : String)
    → join ("$argon2id$v=" ∷ "19" ∷ "$m=" ∷ m ∷ ",t=" ∷ t ∷ ",p=" ∷ p ∷ "$" ∷ s ∷ "$" ∷ k ∷ []) ""
      ≡ sectioned (append "m=" (append m (append ",t=" (append t (append ",p=" p))))) s k
unfolding join
join-sectioned m t p s k =
    let tail = append "$" (append s (append "$" k)) in
    let rest = append m (append ",t=" (append t (append ",p=" (append p tail)))) in
    let written : join
          ("$argon2id$v=" ∷ "19" ∷ "$m=" ∷ m ∷ ",t=" ∷ t ∷ ",p=" ∷ p ∷ "$" ∷ s ∷ "$" ∷ k ∷ []) ""
        ≡ append "$argon2id$v=" (append "19" (append "$m=" rest)) =
      simp nil-append in
    written
    ∙ sym (append_assoc "$argon2id$v=" "19" (append "$m=" rest))
    ∙ ap (append "$argon2id$v=19") (append_assoc "$" "m=" rest)
    ∙ ap (λ x. append "$argon2id$v=19" (append "$" x)) (sym (parameters_lem m t p tail))
    ∙ sym (prefix_lem _)

sections_first : (rest : String) → sections_from "" (append "$" rest) ≡ sections_from "" rest
unfolding sections_from
sections_first rest =
    ap (sections_from "") (cons-append "$" "" rest ∙ ap (String.◌∷◌ "$") (nil-append rest))

section_next :
    (s rest : String)
    → is_plain s ≡ true
    → (s == "") ≡ false
    → sections_from "" (append s (append "$" rest)) ≡ s ∷ sections_from "" rest
section_next s rest plain full =
    let e = nil-append s in
    ground (arith, sections_from-append "" s rest plain (ground (arith, e)), e)

section_last : (s : String) → is_plain s ≡ true → (s == "") ≡ false → sections_from "" s ≡ s ∷ []
section_last s plain full =
    let e = nil-append s in ground (arith, sections_from_last "" s plain (ground (arith, e)), e)

pub sections-sectioned :
    (p s k : String)
    → is_plain p ≡ true
    → (p == "") ≡ false
    → is_plain s ≡ true
    → (s == "") ≡ false
    → is_plain k ≡ true
    → (k == "") ≡ false
    → sections (sectioned p s k) ≡ "argon2id" ∷ "v=19" ∷ p ∷ s ∷ k ∷ []
unfolding sections
sections-sectioned p s k hp ep hs es hk ek =
    let from_s = append s (append "$" k) in
    let from_p = append p (append "$" from_s) in
    let from_v = append "v=19" (append "$" from_p) in
    sections_first (append "argon2id" (append "$" from_v))
    ∙ section_next "argon2id" from_v refl refl
    ∙ ap (λ x. "argon2id" ∷ x) (section_next "v=19" from_p refl refl)
    ∙ ap (λ x. "argon2id" ∷ "v=19" ∷ x) (section_next p from_s hp ep)
    ∙ ap (λ x. "argon2id" ∷ "v=19" ∷ p ∷ x) (section_next s k hs es)
    ∙ ap (λ x. "argon2id" ∷ "v=19" ∷ p ∷ s ∷ x) (section_last k hk ek)
