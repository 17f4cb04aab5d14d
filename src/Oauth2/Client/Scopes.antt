-- ===== src/Oauth2/Client/Scopes.antt =====
-- What a client may ask for (`ValidateRedirectURI` and `ValidateScope` of
-- internal/oauth2/models.go).
use opentrusty.Prelude.{
  ==_iff, Bool-cases, List, String, [], arith, eq_of_==, inl, inr, refl, true, ◌==◌, ◌||◌, ◌↔◌, ◌∷◌,
  ◌≡◌, ◌⊎◌,
}
use opentrusty.Domain.Oauth2.{Client}
use opentrusty.Oauth2.Client.{allows, allows_all, lists, validate_redirect_uri, validate_scope}
use opentrusty.Text.{fields}

-- The text is one of the list.
abbrev pub IsIn : String → List String → Type 0
IsIn s [] = ⊥
IsIn s (t ∷ ts) = (s ≡ t) ⊎ IsIn s ts

-- Every text of the list is allowed: by its name, or by the wildcard.
abbrev pub AllAllowed : List String → List String → Type 0
AllAllowed allowed [] = Unit
AllAllowed allowed (s ∷ ss) = (IsIn s allowed ⊎ IsIn "*" allowed) × AllAllowed allowed ss

pub lists-IsIn : (ts : List String) (s : String) → (lists ts s ≡ true) ↔ IsIn s ts
unfolding lists
lists-IsIn [] s = (λ h. absurd (ground arith), λ h. absurd h)
lists-IsIn (t ∷ ts) s =
    let (p, q) = lists-IsIn ts s in
    (
      (λ h. elim (Bool-cases (t == s)) [
        | inl e ↦ inl (ground (arith, ==_iff t s))
        | inr e ↦ inr (p (ground arith))
      ]),
      (λ h. elim h [ inl e ↦ ground (arith, ==_iff t s) | inr r ↦ ground (arith, q r) ]),
    )

-- A redirect URI is accepted exactly when it is one of the registered ones.
pub validate_redirect_uri_iff :
    (c : Client) (uri : String) → (validate_redirect_uri c uri ≡ true) ↔ IsIn uri c.redirect_uris
unfolding validate_redirect_uri
validate_redirect_uri_iff c uri = lists-IsIn c.redirect_uris uri

allows-lists :
    (items : List String) (s : String) → allows items s ≡ (lists items s || lists items "*")
unfolding allows lists
allows-lists [] s = refl
allows-lists (a ∷ more) s = ground (arith, allows-lists more s)

allows_iff :
    (items : List String) (s : String) → (allows items s ≡ true) ↔ (IsIn s items ⊎ IsIn "*" items)
allows_iff items s =
    let (p, q) = lists-IsIn items s in
    let (p', q') = lists-IsIn items "*" in
    (
      (λ h. elim (Bool-cases (lists items s)) [
        | inl e ↦ inl (p e)
        | inr e ↦ inr (p' (ground (arith, allows-lists items s)))
      ]),
      (λ h. elim h [
        | inl a ↦ ground (arith, allows-lists items s, q a)
        | inr a ↦ ground (arith, allows-lists items s, q' a)
      ]),
    )

allows_all_iff : (allowed ss : List String) → (allows_all allowed ss ≡ true) ↔ AllAllowed allowed ss
unfolding allows_all
allows_all_iff allowed [] = (λ h. tt, λ h. refl)
allows_all_iff allowed (s ∷ ss) =
    let (p, q) = allows_iff allowed s in
    let (p', q') = allows_all_iff allowed ss in
    ((λ h. (p (ground arith), p' (ground arith))), (λ h. ground (arith, q h.0, q' h.1)))

-- A scope is accepted exactly when each of its space-separated words is allowed, by name or by the
-- wildcard; the empty scope has no word.
pub validate_scope_iff :
    (c : Client) (scope : String)
    → (validate_scope c scope ≡ true) ↔ AllAllowed c.allowed_scopes (fields scope)
unfolding validate_scope fields
validate_scope_iff c scope = elim (Bool-cases (scope == "")) [
  | inl e ↦ rw (eq_of_== scope "" e) (λ h. tt, λ h. refl)
  | inr e ↦ rw e (allows_all_iff c.allowed_scopes (fields scope))
]
