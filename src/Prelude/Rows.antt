-- ===== src/Prelude/Rows.antt =====
-- The rows of a table: what a WHERE clause selects, changes and removes.
use mathlib.Core.Path.{◌≡◌, refl}
use mathlib.Core.Bool.{Bool, true, false, not, ◌||◌}
use mathlib.Core.Option.{Option, none, some}
use mathlib.Core.List.{List, [], ◌∷◌, ◌++◌}
use native.Mathlib.Omega.{arith}
use opentrusty.Prelude.Tests.{if◌then◌else◌}

module _ {A : Type 0} where
  -- `SELECT … WHERE test` into one row.
  abbrev pub find_row : (A → Bool) → List A → Option A
  find_row test [] = none
  find_row test (r ∷ rs) = if test r then some r else find_row test rs

  -- `SELECT … WHERE test` into many rows.
  abbrev pub find_rows : (A → Bool) → List A → List A
  find_rows test [] = []
  find_rows test (r ∷ rs) = let rest = find_rows test rs in if test r then r ∷ rest else rest

  -- `SELECT EXISTS (… WHERE test)`; also whether an UPDATE affects a row.
  abbrev pub any_row : (A → Bool) → List A → Bool
  any_row test [] = false
  any_row test (r ∷ rs) = test r || any_row test rs

  -- `UPDATE … SET change WHERE test`
  abbrev pub update_rows : (A → Bool) → (A → A) → List A → List A
  update_rows test change [] = []
  update_rows test change (r ∷ rs) = (if test r then change r else r) ∷ update_rows test change rs

  -- `DELETE … WHERE test`
  abbrev pub delete_rows : (A → Bool) → List A → List A
  delete_rows test rs = find_rows (λ r. not (test r)) rs

  pub any-delete_rows : (test : A → Bool) (rs : List A) → any_row test (delete_rows test rs) ≡ false
  any-delete_rows test [] = refl
  any-delete_rows test (r ∷ rs) = ground (arith, any-delete_rows test rs)

  pub find-delete_rows :
      (test : A → Bool) (rs : List A) → find_row test (delete_rows test rs) ≡ none
  find-delete_rows test [] = refl
  find-delete_rows test (r ∷ rs) = ground (arith, find-delete_rows test rs)

  -- A row that is found passes the test.
  pub find_row_passes :
      (test : A → Bool) (rs : List A) (r : A) → find_row test rs ≡ some r → test r ≡ true
  find_row_passes test [] r h = cc
  find_row_passes test (q ∷ rs) r h = ground (arith, find_row_passes test rs r)

  pub find-any : (test : A → Bool) (rs : List A) → find_row test rs ≡ none → any_row test rs ≡ false
  find-any test [] h = refl
  find-any test (r ∷ rs) h = ground (arith, find-any test rs)

  -- Any test passes where a narrower one does.
  pub find_row-any_row :
      (test wide : A → Bool)
      → ((r : A) → test r ≡ true → wide r ≡ true)
      → (rs : List A) → any_row wide rs ≡ false
      → find_row test rs ≡ none
  find_row-any_row test wide h [] e = refl
  find_row-any_row test wide h (r ∷ rs) e = ground (arith, h r, find_row-any_row test wide h rs)

  pub find_row-append_new :
      (test : A → Bool) (rs : List A) (r : A)
      → find_row test rs ≡ none
      → test r ≡ true
      → find_row test (rs ++ r ∷ []) ≡ some r
  find_row-append_new test [] r h e = ground arith
  find_row-append_new test (q ∷ rs) r h e = ground (arith, find_row-append_new test rs r)

  pub find_row-append_old :
      (test : A → Bool) (rs qs : List A) (r : A)
      → find_row test rs ≡ some r
      → find_row test (rs ++ qs) ≡ some r
  find_row-append_old test [] qs r h = cc
  find_row-append_old test (q ∷ rs) qs r h = ground (arith, find_row-append_old test rs qs r)

  -- An update that leaves the test alone changes the row that is found.
  pub find_row-update_rows :
      (test wide : A → Bool) (change : A → A)
      → ((r : A) → test (change r) ≡ test r)
      → (rs : List A) (r : A) → find_row test rs ≡ some r
      → find_row test (update_rows wide change rs) ≡ some (if wide r then change r else r)
  find_row-update_rows test wide change h [] r e = cc
  find_row-update_rows test wide change h (q ∷ rs) r e =
      ground (arith, h q, find_row-update_rows test wide change h rs r)

  -- An update of rows that the test does not select is not seen by it.
  pub find_row-update_rows_other :
      (test wide : A → Bool) (change : A → A)
      → ((r : A) → test (change r) ≡ test r)
      → ((r : A) → wide r ≡ true → test r ≡ false)
      → (rs : List A) → find_row test (update_rows wide change rs) ≡ find_row test rs
  find_row-update_rows_other test wide change h k [] = refl
  find_row-update_rows_other test wide change h k (r ∷ rs) =
      ground (arith, h r, k r, find_row-update_rows_other test wide change h k rs)

-- A row that is found stays found when other rows are deleted.
pub find_row-delete_rows_other :
    {A : Type 0} (test drop : A → Bool) (rs : List A) (r : A)
    → find_row test rs ≡ some r
    → drop r ≡ false
    → find_row test (delete_rows drop rs) ≡ some r
find_row-delete_rows_other test drop [] r h e = cc
find_row-delete_rows_other test drop (q ∷ rs) r h e =
    ground (arith, find_row-delete_rows_other test drop rs r)

-- A test that no row passes.
pub any_row_of_none :
    {A : Type 0} (test : A → Bool)
    → ((r : A) → test r ≡ false)
    → (rs : List A) → any_row test rs ≡ false
any_row_of_none test h [] = refl
any_row_of_none test h (r ∷ rs) = ground (arith, h r, any_row_of_none test h rs)

pub any_row-append_new :
    {A : Type 0} (test : A → Bool) (rs : List A) (r : A)
    → test r ≡ true
    → any_row test (rs ++ r ∷ []) ≡ true
any_row-append_new test [] r h = ground arith
any_row-append_new test (q ∷ rs) r h = ground (arith, any_row-append_new test rs r)

pub any_row-find_row :
    {A : Type 0} (test : A → Bool) (rs : List A) (r : A)
    → find_row test rs ≡ some r
    → any_row test rs ≡ true
any_row-find_row test [] r h = cc
any_row-find_row test (q ∷ rs) r h = ground (arith, any_row-find_row test rs r)
