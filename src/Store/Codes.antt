-- ===== src/Store/Codes.antt =====
-- `AuthorizationCodeRepository` of internal/store/postgres/code_repository.go
use opentrusty.Prelude.{
  Bool, List, String, [], any_row, delete_rows, find_row, if◌then◌else◌, ltb, some, true,
  update_rows, ℕ, ◌++◌, ◌==◌, ◌||◌, ◌∷◌,
}
use opentrusty.Domain.Errors.{code_not_found, database, wrapped}
use opentrusty.Domain.Oauth2.{AuthorizationCode}
use opentrusty.World.{
  Env, M, World, gets, modify, one_row, or_raise, raise, statement, stored_time, time_now, ◌>>=◌,
  ◌>>◌,
}

abbrev pub has_code : String → AuthorizationCode → Bool
has_code code r = r.code == code

abbrev set_codes : List AuthorizationCode → World → World
set_codes rs w = record w { codes = rs }

-- The keys of the table: `id`, and UNIQUE on `code`.
abbrev pub conflicts : AuthorizationCode → AuthorizationCode → Bool
conflicts c r = r.id == c.id || r.code == c.code

abbrev pub mark : ℕ → AuthorizationCode → AuthorizationCode
mark now r = record r { is_used = true; used_at = some (stored_time now) }

-- The columns of times are TIMESTAMPs.
abbrev pub to_row : AuthorizationCode → AuthorizationCode
to_row c = record c { expires_at = stored_time c.expires_at; created_at = stored_time c.created_at }

module _ ⦃env : Env⦄ where
  unfoldable pub create : AuthorizationCode → M (Unit {0})
  create c = do
    or_raise statement (wrapped "failed to create authorization code")
    rows ← gets (λ w. w.codes)
    if any_row (conflicts c) rows
        then raise (wrapped "failed to create authorization code" database)
        else modify (set_codes (rows ++ to_row c ∷ []))

  unfoldable pub get_by_code : String → M AuthorizationCode
  get_by_code code = do
    or_raise statement (wrapped "failed to get authorization code")
    rows ← gets (λ w. w.codes)
    one_row (find_row (has_code code) rows) code_not_found

  -- The statement does not ask whether the code is used already.
  unfoldable pub mark_as_used : String → M (Unit {0})
  mark_as_used code = do
    now ← time_now
    or_raise statement (wrapped "failed to mark code as used")
    rows ← gets (λ w. w.codes)
    if any_row (has_code code) rows
        then modify (set_codes (update_rows (has_code code) (mark now) rows))
        else raise code_not_found

  unfoldable pub delete : String → M (Unit {0})
  delete code = do
    or_raise statement (wrapped "failed to delete code")
    rows ← gets (λ w. w.codes)
    modify (set_codes (delete_rows (has_code code) rows))

  unfoldable pub delete_expired : M (Unit {0})
  delete_expired = do
    now ← time_now
    or_raise statement (wrapped "failed to delete expired codes")
    rows ← gets (λ w. w.codes)
    modify (set_codes (delete_rows (λ r. ltb r.expires_at (stored_time now)) rows))
