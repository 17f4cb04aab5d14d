-- ===== src/World/Laws.antt =====
-- A sequence that ends well is taken apart: each step ended well.
use opentrusty.Prelude.{arith, false, inl, inr, refl, ℕ, ◌≡◌, ◌⊎◌}
use opentrusty.Domain.Errors.{Error}
use opentrusty.World.{Env, M, Result, World, err, ok, or_raise, ◌>>=◌}

-- No statement fails.
abbrev pub IsCalm : Env → Type 0
IsCalm env = (n : ℕ) → env.outage n ≡ false

pub Outcome-cases :
    {A : Type 0} (p : Result A × World)
    → ((a : A) × (w : World) × (p ≡ (ok a, w))) ⊎ ((e : Error) × (w : World) × (p ≡ (err e, w)))
Outcome-cases (ok a, w) = inl (a, w, refl)
Outcome-cases (err e, w) = inr (e, w, refl)

pub >>=-eq-ok :
    {A B : Type 0} (m : M A) (f : A → M B) (w : World) {b : B} {w' : World}
    → (m >>= f) w ≡ (ok b, w')
    → (a : A) × (u : World) × (m w ≡ (ok a, u)) × (f a u ≡ (ok b, w'))
>>=-eq-ok m f w h = elim (Outcome-cases (m w)) [
  | inl (a, u, e) ↦ (a, u, e, ground arith)
  | inr (x, u, e) ↦ absurd (ground arith)
]

pub or_raise-eq-ok :
    {A : Type 0} (m : M A) (f : Error → Error) (w : World) {a : A} {w' : World}
    → or_raise m f w ≡ (ok a, w')
    → m w ≡ (ok a, w')
or_raise-eq-ok m f w h = elim (Outcome-cases (m w)) [
  | inl (a, u, e) ↦ ground arith
  | inr (x, u, e) ↦ absurd (ground arith)
]
