-- ===== src/Store/Tenants.antt =====
-- `TenantRepository` of internal/store/postgres/tenant_repository.go
use opentrusty.Prelude.{
  Bool, List, Option, String, [], any_row, find_row, find_rows, if◌then◌else◌, is_some, ltb, map,
  none, not, some, suc, update_rows, zero, ℕ, ◌&&◌, ◌++◌, ◌==◌, ◌∷◌,
}
use opentrusty.Domain.Errors.{database, tenant_not_found, wrapped}
use opentrusty.Domain.Tenants.{Tenant, TenantRow}
use opentrusty.World.{
  Env, M, World, gets, modify, or_raise, pure, raise, statement, time_now, ◌>>=◌, ◌>>◌,
}

abbrev is_live : TenantRow → Bool
is_live r = not (is_some r.deleted_at)

abbrev pub has_id : String → TenantRow → Bool
has_id id r = r.tenant.id == id && is_live r

abbrev pub has_name : String → TenantRow → Bool
has_name name r = r.tenant.name == name && is_live r

abbrev set_tenants : List TenantRow → World → World
set_tenants rs w = record w { tenants = rs }

tenant_or_raise : Option TenantRow → M Tenant
tenant_or_raise none = raise tenant_not_found
tenant_or_raise (some r) = pure r.tenant

-- ORDER BY created_at DESC; rows of one time in the order of the table.
insert_newest : Tenant → List Tenant → List Tenant
insert_newest t [] = t ∷ []
insert_newest t (d ∷ ds) =
    let rest = insert_newest t ds in if ltb t.created_at d.created_at then d ∷ rest else t ∷ d ∷ ds

unfoldable pub newest_first : List Tenant → List Tenant
unfolding insert_newest
newest_first [] = []
newest_first (t ∷ ts) = insert_newest t (newest_first ts)

-- LIMIT and OFFSET
unfoldable pub window : ℕ → ℕ → List Tenant → List Tenant
window zero offset ts = []
window (suc limit) offset [] = []
window (suc limit) zero (t ∷ ts) = t ∷ window limit zero ts
window (suc limit) (suc offset) (t ∷ ts) = window (suc limit) offset ts

module _ ⦃env : Env⦄ where
  -- The identifier is the primary key; a name may be taken twice.
  unfoldable pub create : Tenant → M (Unit {0})
  create t = do
    or_raise statement (wrapped "failed to create tenant")
    rows ← gets (λ w. w.tenants)
    if any_row (λ r. r.tenant.id == t.id) rows
        then raise (wrapped "failed to create tenant" database)
        else modify (set_tenants (rows ++ (record { tenant = t; deleted_at = none }) ∷ []))

  unfoldable pub get_by_id : String → M Tenant
  unfolding tenant_or_raise
  get_by_id id = do
    or_raise statement (wrapped "failed to get tenant")
    rows ← gets (λ w. w.tenants)
    tenant_or_raise (find_row (has_id id) rows)

  unfoldable pub get_by_name : String → M Tenant
  unfolding tenant_or_raise
  get_by_name name = do
    or_raise statement (wrapped "failed to get tenant")
    rows ← gets (λ w. w.tenants)
    tenant_or_raise (find_row (has_name name) rows)

  unfoldable pub update : Tenant → M (Unit {0})
  update t = do
    now ← time_now
    or_raise statement (wrapped "failed to update tenant")
    rows ← gets (λ w. w.tenants)
    let change : TenantRow → TenantRow = λ r. record {
      tenant = record {
        id = r.tenant.id;
        name = t.name;
        status = t.status;
        created_at = r.tenant.created_at;
        updated_at = now;
      };
      deleted_at = r.deleted_at;
    }
    if any_row (has_id t.id) rows
        then modify (set_tenants (update_rows (has_id t.id) change rows))
        else raise tenant_not_found

  unfoldable pub delete : String → M (Unit {0})
  delete id = do
    now ← time_now
    or_raise statement (wrapped "failed to delete tenant")
    rows ← gets (λ w. w.tenants)
    if any_row (has_id id) rows
        then modify
            (set_tenants (update_rows (has_id id) (λ r. record r { deleted_at = some now }) rows))
        else raise tenant_not_found

  unfoldable pub list : ℕ → ℕ → M (List Tenant)
  unfolding newest_first window
  list limit offset = do
    or_raise statement (wrapped "failed to list tenants")
    rows ← gets (λ w. w.tenants)
    pure (window limit offset (newest_first (map (λ r. r.tenant) (find_rows is_live rows))))
