-- ===== src/Store/AccessTokens.antt =====
-- `AccessTokenRepository` of internal/store/postgres/token_repository.go
use opentrusty.Prelude.{
  Bool, List, String, [], any_row, delete_rows, find_row, if◌then◌else◌, ltb, some, true,
  update_rows, ℕ, ◌++◌, ◌==◌, ◌||◌, ◌∷◌,
}
use opentrusty.Domain.Errors.{database, token_not_found, wrapped}
use opentrusty.Domain.Oauth2.{AccessToken}
use opentrusty.World.{
  Env, M, World, gets, modify, one_row, or_raise, raise, statement, stored_time, time_now, ◌>>=◌,
  ◌>>◌,
}

abbrev pub has_hash : String → AccessToken → Bool
has_hash hash r = r.token_hash == hash

abbrev set_tokens : List AccessToken → World → World
set_tokens rs w = record w { access_tokens = rs }

-- The keys of the table: `id`, and UNIQUE on `token_hash`.
abbrev pub conflicts : AccessToken → AccessToken → Bool
conflicts t r = r.id == t.id || r.token_hash == t.token_hash

abbrev pub mark : ℕ → AccessToken → AccessToken
mark now r = record r { is_revoked = true; revoked_at = some (stored_time now) }

-- The columns of times are TIMESTAMPs.
abbrev pub to_row : AccessToken → AccessToken
to_row c = record c { expires_at = stored_time c.expires_at; created_at = stored_time c.created_at }

module _ ⦃env : Env⦄ where
  unfoldable pub create : AccessToken → M (Unit {0})
  create t = do
    or_raise statement (wrapped "failed to create access token")
    rows ← gets (λ w. w.access_tokens)
    if any_row (conflicts t) rows
        then raise (wrapped "failed to create access token" database)
        else modify (set_tokens (rows ++ to_row t ∷ []))

  unfoldable pub get_by_token_hash : String → M AccessToken
  get_by_token_hash hash = do
    or_raise statement (wrapped "failed to get access token")
    rows ← gets (λ w. w.access_tokens)
    one_row (find_row (has_hash hash) rows) token_not_found

  unfoldable pub revoke : String → M (Unit {0})
  revoke hash = do
    now ← time_now
    or_raise statement (wrapped "failed to revoke access token")
    rows ← gets (λ w. w.access_tokens)
    if any_row (has_hash hash) rows
        then modify (set_tokens (update_rows (has_hash hash) (mark now) rows))
        else raise token_not_found

  unfoldable pub delete_expired : M (Unit {0})
  delete_expired = do
    now ← time_now
    or_raise statement (wrapped "failed to delete expired access tokens")
    rows ← gets (λ w. w.access_tokens)
    modify (set_tokens (delete_rows (λ r. ltb r.expires_at (stored_time now)) rows))
