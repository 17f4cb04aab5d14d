-- ===== src/World/Frame.antt =====
-- Steps that leave a part of the state as it is.
use opentrusty.Prelude.{arith, inl, inr, ◌≡◌}
use opentrusty.Domain.Errors.{Error}
use opentrusty.World.{M, World, or_raise, ◌>>=◌}
use opentrusty.World.Laws.{Outcome-cases}

-- Whatever its outcome, the step leaves the part of the state that `f` reads as it is.
abbrev pub Keeps : {A B : Type 0} → (World → B) → M A → Type 0
Keeps f m = (w : World) → f (m w).1 ≡ f w

module _ {A B C : Type 0} (f : World → C) where
  pub Keeps->>= :
      (m : M A) (k : A → M B) → Keeps f m → ((a : A) → Keeps f (k a)) → Keeps f (m >>= k)
  Keeps->>= m k hm hk w = elim (Outcome-cases (m w)) [
    | inl (a, u, e) ↦ ground (arith, hm w, hk a u)
    | inr (x, u, e) ↦ ground (arith, hm w)
  ]

pub Keeps-or_raise :
    {A C : Type 0} (f : World → C) (m : M A) (g : Error → Error)
    → Keeps f m
    → Keeps f (or_raise m g)
Keeps-or_raise f m g hm w = elim (Outcome-cases (m w)) [
  | inl (a, u, e) ↦ ground (arith, hm w)
  | inr (x, u, e) ↦ ground (arith, hm w)
]
