-- ===== src/Store/RefreshTokens.antt =====
-- `RefreshTokenRepository` of internal/store/postgres/token_repository.go
use opentrusty.Prelude.{
  Bool, List, String, [], any_row, delete_rows, find_row, if◌then◌else◌, ltb, some, true,
  update_rows, ℕ, ◌++◌, ◌==◌, ◌||◌, ◌∷◌,
}
use opentrusty.Domain.Errors.{database, token_not_found, wrapped}
use opentrusty.Domain.Oauth2.{RefreshToken}
use opentrusty.World.{
  Env, M, World, gets, modify, one_row, or_raise, raise, statement, stored_time, time_now, ◌>>=◌,
  ◌>>◌,
}

abbrev pub has_hash : String → RefreshToken → Bool
has_hash hash r = r.token_hash == hash

abbrev set_tokens : List RefreshToken → World → World
set_tokens rs w = record w { refresh_tokens = rs }

-- The keys of the table: `id`, and UNIQUE on `token_hash`.
abbrev pub conflicts : RefreshToken → RefreshToken → Bool
conflicts t r = r.id == t.id || r.token_hash == t.token_hash

abbrev pub mark : ℕ → RefreshToken → RefreshToken
mark now r = record r { is_revoked = true; revoked_at = some (stored_time now) }

-- The columns of times are TIMESTAMPs.
abbrev pub to_row : RefreshToken → RefreshToken
to_row c = record c { expires_at = stored_time c.expires_at; created_at = stored_time c.created_at }

module _ ⦃env : Env⦄ where
  unfoldable pub create : RefreshToken → M (Unit {0})
  create t = do
    or_raise statement (wrapped "failed to create refresh token")
    rows ← gets (λ w. w.refresh_tokens)
    if any_row (conflicts t) rows
        then raise (wrapped "failed to create refresh token" database)
        else modify (set_tokens (rows ++ to_row t ∷ []))

  unfoldable pub get_by_token_hash : String → M RefreshToken
  get_by_token_hash hash = do
    or_raise statement (wrapped "failed to get refresh token")
    rows ← gets (λ w. w.refresh_tokens)
    one_row (find_row (has_hash hash) rows) token_not_found

  unfoldable pub revoke : String → M (Unit {0})
  revoke hash = do
    now ← time_now
    or_raise statement (wrapped "failed to revoke refresh token")
    rows ← gets (λ w. w.refresh_tokens)
    if any_row (has_hash hash) rows
        then modify (set_tokens (update_rows (has_hash hash) (mark now) rows))
        else raise token_not_found

  unfoldable pub delete_expired : M (Unit {0})
  delete_expired = do
    now ← time_now
    or_raise statement (wrapped "failed to delete expired refresh tokens")
    rows ← gets (λ w. w.refresh_tokens)
    modify (set_tokens (delete_rows (λ r. ltb r.expires_at (stored_time now)) rows))
