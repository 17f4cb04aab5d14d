-- ===== src/Store/Keys.antt =====
-- `KeyRepository` of internal/store/postgres/key_repository.go
pub mod Newest
use opentrusty.Prelude.{
  Bool, List, Option, String, [], any_row, find_rows, if◌then◌else◌, ltb, none, some, ℕ, ◌++◌, ◌==◌,
  ◌∷◌,
}
use opentrusty.Domain.Errors.{database, no_rows, wrapped}
use opentrusty.Domain.Oauth2.{Key}
use opentrusty.World.{
  Env, M, World, gets, modify, one_row, or_raise, pure, raise, statement, stored_time, time_now,
  ◌>>=◌, ◌>>◌,
}

abbrev set_keys : List Key → World → World
set_keys rs w = record w { keys = rs }

abbrev pub has_id : String → Key → Bool
has_id id k = k.id == id

abbrev pub is_valid_at : ℕ → Key → Bool
is_valid_at now k = ltb (stored_time now) k.expires_at

-- ORDER BY created_at DESC; of two keys that are as old the one that was stored first comes first.
unfoldable pub insert_newest : Key → List Key → List Key
insert_newest k [] = k ∷ []
insert_newest k (d ∷ ds) =
    let rest = insert_newest k ds in if ltb k.created_at d.created_at then d ∷ rest else k ∷ d ∷ ds

unfoldable pub newest_first : List Key → List Key
unfolding insert_newest
newest_first [] = []
newest_first (k ∷ ks) = insert_newest k (newest_first ks)

-- LIMIT 1
abbrev pub first_row : List Key → Option Key
first_row [] = none
first_row (k ∷ ks) = some k

-- The columns of times are TIMESTAMPs.
abbrev pub to_row : Key → Key
to_row k = record k { created_at = stored_time k.created_at; expires_at = stored_time k.expires_at }

module _ ⦃env : Env⦄ where
  unfoldable pub create : Key → M (Unit {0})
  create k = do
    or_raise statement (wrapped "failed to create key")
    rows ← gets (λ w. w.keys)
    if any_row (has_id k.id) rows
        then raise (wrapped "failed to create key" database)
        else modify (set_keys (rows ++ to_row k ∷ []))

  -- The error of the driver is left as it is.
  unfoldable pub get_active_key : M Key
  unfolding newest_first
  get_active_key = do
    now ← time_now
    statement
    rows ← gets (λ w. w.keys)
    one_row (first_row (newest_first (find_rows (is_valid_at now) rows))) no_rows

  unfoldable pub list_valid_keys : M (List Key)
  unfolding newest_first
  list_valid_keys = do
    now ← time_now
    or_raise statement (wrapped "failed to list keys")
    rows ← gets (λ w. w.keys)
    pure (newest_first (find_rows (is_valid_at now) rows))
