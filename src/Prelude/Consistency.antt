-- ===== src/Prelude/Consistency.antt =====
-- Tables each of whose rows passes a test and no two of whose rows clash.
use mathlib.Core.Path.{◌≡◌, refl}
use mathlib.Core.Bool.{Bool, true, false, not, ◌&&◌, ◌||◌}
use mathlib.Core.List.{List, [], ◌∷◌, ◌++◌}
use native.Mathlib.Omega.{arith}
use opentrusty.Prelude.Rows.{any_row, delete_rows, update_rows}

module _ {A : Type 0} where
  any_row-snoc :
      (test : A → Bool) (rows : List A) (a : A)
      → any_row test (rows ++ a ∷ []) ≡ (any_row test rows || test a)
  any_row-snoc test [] a = ground arith
  any_row-snoc test (r ∷ more) a = ground (arith, any_row-snoc test more a)

  any_row-delete :
      (test drop : A → Bool) (rows : List A)
      → any_row test rows ≡ false
      → any_row test (delete_rows drop rows) ≡ false
  any_row-delete test drop [] h = refl
  any_row-delete test drop (r ∷ more) h = ground (arith, any_row-delete test drop more)

  any_row-update :
      (test wide : A → Bool) (change : A → A)
      → ((r : A) → test (change r) ≡ test r)
      → (rows : List A) → any_row test (update_rows wide change rows) ≡ any_row test rows
  any_row-update test wide change h [] = refl
  any_row-update test wide change h (r ∷ more) =
      ground (arith, h r, any_row-update test wide change h more)

  any_row-same :
      (test other : A → Bool)
      → ((r : A) → test r ≡ other r)
      → (rows : List A) → any_row test rows ≡ any_row other rows
  any_row-same test other h [] = refl
  any_row-same test other h (r ∷ more) = ground (arith, h r, any_row-same test other h more)

  -- A row passes neither of two tests.
  pub any_row_or :
      (test other : A → Bool) (rows : List A)
      → any_row test rows ≡ false
      → any_row other rows ≡ false
      → any_row (λ r. test r || other r) rows ≡ false
  any_row_or test other [] h e = refl
  any_row_or test other (r ∷ more) h e = ground (arith, any_row_or test other more)

  abbrev pub consistent : (A → Bool) → (A → A → Bool) → List A → Bool
  consistent good clash [] = true
  consistent good clash (a ∷ more) =
      good a && not (any_row (clash a) more) && consistent good clash more

  module _ (good : A → Bool) (clash : A → A → Bool) where
    pub consistent-append :
        ((a b : A) → clash a b ≡ true → clash b a ≡ true)
        → (rows : List A) (a : A) → consistent good clash rows ≡ true
        → good a ≡ true
        → any_row (clash a) rows ≡ false
        → consistent good clash (rows ++ a ∷ []) ≡ true
    consistent-append sym_clash [] a h well fresh = ground arith
    consistent-append sym_clash (r ∷ more) a h well fresh =
        ground
          (arith, consistent-append sym_clash more a, any_row-snoc (clash r) more a, sym_clash r a)

    pub consistent-delete :
        (drop : A → Bool) (rows : List A)
        → consistent good clash rows ≡ true
        → consistent good clash (delete_rows drop rows) ≡ true
    consistent-delete drop [] h = refl
    consistent-delete drop (r ∷ more) h =
        ground (arith, consistent-delete drop more, any_row-delete (clash r) drop more)

    -- An update that no clash sees.
    pub consistent-update :
        (wide : A → Bool) (change : A → A)
        → ((a : A) → good (change a) ≡ good a)
        → ((a b : A) → clash (change a) b ≡ clash a b)
        → ((a b : A) → clash a (change b) ≡ clash a b)
        → (rows : List A) → consistent good clash rows ≡ true
        → consistent good clash (update_rows wide change rows) ≡ true
    consistent-update wide change g l r [] h = refl
    consistent-update wide change g l r (a ∷ more) h = ground (
      arith,
      consistent-update wide change g l r more,
      any_row-update (clash a) wide change (r a) more,
      any_row-update (clash (change a)) wide change (r (change a)) more,
      any_row-same (clash (change a)) (clash a) (l a) more,
      g a,
    )
