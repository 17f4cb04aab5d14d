-- ===== src/Store/Clients.antt =====
-- `ClientRepository` of internal/store/postgres/client_repository.go. The JSONB columns hold the
-- lists themselves: a list of texts survives json.Marshal and json.Unmarshal.
use opentrusty.Prelude.{
  Bool, List, Option, String, [], any_row, false, find_row, find_rows, if◌then◌else◌, is_some, ltb,
  none, not, some, true, update_rows, ℕ, ◌&&◌, ◌++◌, ◌==◌, ◌||◌, ◌∷◌,
}
use opentrusty.Domain.Errors.{client_not_found, database, wrapped}
use opentrusty.Domain.Oauth2.{Client}
use opentrusty.World.{
  Env, M, World, gets, modify, one_row, or_raise, pure, raise, stamped_statement, statement,
  time_now, ◌>>=◌, ◌>>◌,
}

abbrev pub is_live : Client → Bool
is_live c = not (is_some c.deleted_at)

abbrev pub has_client_id : String → Client → Bool
has_client_id cid r = r.client_id == cid && is_live r

abbrev pub has_id : String → Client → Bool
has_id id r = r.id == id && is_live r

-- The keys of the table: `id`, and UNIQUE on `client_id`.
abbrev pub conflicts : Client → Client → Bool
conflicts c r = r.id == c.id || r.client_id == c.client_id

abbrev set_clients : List Client → World → World
set_clients rs w = record w { clients = rs }

-- The columns that `Update` sets, and `updated_at`, which a trigger sets.
abbrev pub overwrite : Client → ℕ → Client → Client
overwrite c now r = record r {
  client_name = c.client_name;
  client_uri = c.client_uri;
  logo_uri = c.logo_uri;
  redirect_uris = c.redirect_uris;
  allowed_scopes = c.allowed_scopes;
  grant_types = c.grant_types;
  response_types = c.response_types;
  token_endpoint_auth_method = c.token_endpoint_auth_method;
  access_token_lifetime = c.access_token_lifetime;
  refresh_token_lifetime = c.refresh_token_lifetime;
  id_token_lifetime = c.id_token_lifetime;
  is_trusted = c.is_trusted;
  is_active = c.is_active;
  updated_at = some now;
}

-- `ORDER BY created_at DESC`: a row goes before the first row that is not newer.
abbrev newer : Option ℕ → Option ℕ → Bool
newer none b = false
newer (some a) none = true
newer (some a) (some b) = ltb b a

insert_newest : Client → List Client → List Client
insert_newest c [] = c ∷ []
insert_newest c (d ∷ ds) =
    let rest = insert_newest c ds in
    if newer d.created_at c.created_at then d ∷ rest else c ∷ d ∷ ds

unfoldable pub newest_first : List Client → List Client
unfolding insert_newest
newest_first [] = []
newest_first (c ∷ cs) = insert_newest c (newest_first cs)

module _ ⦃env : Env⦄ where
  unfoldable pub create : Client → M (Unit {0})
  create c = do
    or_raise statement (wrapped "failed to create client")
    rows ← gets (λ w. w.clients)
    if any_row (conflicts c) rows
        then raise (wrapped "failed to create client" database)
        else modify (set_clients (rows ++ (record c { deleted_at = none }) ∷ []))

  unfoldable pub get_by_client_id : String → M Client
  get_by_client_id cid = do
    or_raise statement (wrapped "failed to get client")
    rows ← gets (λ w. w.clients)
    one_row (find_row (has_client_id cid) rows) client_not_found

  unfoldable pub get_by_id : String → M Client
  get_by_id id = do
    or_raise statement (wrapped "failed to get client")
    rows ← gets (λ w. w.clients)
    one_row (find_row (has_id id) rows) client_not_found

  -- `client_secret_hash` is not among the columns that are set.
  unfoldable pub update : Client → M (Unit {0})
  update c = do
    now ← or_raise stamped_statement (wrapped "failed to update client")
    rows ← gets (λ w. w.clients)
    if any_row (has_id c.id) rows
        then modify (set_clients (update_rows (has_id c.id) (overwrite c now) rows))
        else raise client_not_found

  unfoldable pub delete : String → M (Unit {0})
  delete id = do
    now ← time_now
    stamp ← or_raise stamped_statement (wrapped "failed to delete client")
    rows ← gets (λ w. w.clients)
    if any_row (has_id id) rows
        then modify (
            set_clients (
              update_rows (has_id id)
                (λ r. record r { deleted_at = some now; updated_at = some stamp }) rows))
        else raise client_not_found

  unfoldable pub list_by_owner : String → M (List Client)
  list_by_owner owner = do
    or_raise statement (wrapped "failed to query clients")
    rows ← gets (λ w. w.clients)
    pure (find_rows (λ r. r.owner_id == owner && is_live r) rows)

  unfoldable pub list_by_tenant : String → M (List Client)
  list_by_tenant tenant = do
    or_raise statement (wrapped "failed to query clients")
    rows ← gets (λ w. w.clients)
    pure (newest_first (find_rows (λ r. r.tenant_id == tenant && is_live r) rows))
