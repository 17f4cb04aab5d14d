-- ===== src/Store/Assignments.antt =====
-- `AssignmentRepository` of internal/store/postgres/authz_repository.go
use opentrusty.Prelude.{
  Bool, List, Option, String, [], any_row, delete_rows, find_rows, if◌then◌else◌, is_some, map, not,
  same_text?, ◌&&◌, ◌++◌, ◌==◌, ◌||◌, ◌∷◌,
}
use opentrusty.Domain.Authz.{Assignment, scope_client, scope_platform, scope_tenant}
use opentrusty.Domain.Errors.{database, wrapped}
use opentrusty.World.{
  Env, M, World, gets, modify, or_raise, pure, raise, skip, statement, ◌>>=◌, ◌>>◌,
}

abbrev set_assignments : List Assignment → World → World
set_assignments rs w = record w { assignments = rs }

-- UNIQUE (user_id, role_id, scope, scope_context_id): rows with no context do not conflict.
abbrev pub duplicates : Assignment → Assignment → Bool
duplicates a r =
    r.user_id == a.user_id
    && r.role_id == a.role_id
    && r.scope == a.scope
    && is_some a.scope_context_id
    && same_text? r.scope_context_id a.scope_context_id

-- CHECK: one of the three scopes, with no context for the platform and a context for the others.
abbrev pub is_well_scoped : Assignment → Bool
is_well_scoped a =
    if a.scope == scope_platform
    then not (is_some a.scope_context_id)
    else (a.scope == scope_tenant || a.scope == scope_client) && is_some a.scope_context_id

abbrev pub holds : String → String → Option String → Assignment → Bool
holds role scope context r =
    r.role_id == role && r.scope == scope && same_text? r.scope_context_id context

module _ ⦃env : Env⦄ where
  -- `ON CONFLICT … DO NOTHING` covers the UNIQUE key, and not the primary key.
  unfoldable pub grant : Assignment → M (Unit {0})
  grant a = do
    or_raise statement (wrapped "failed to grant role")
    rows ← gets (λ w. w.assignments)
    if not (is_well_scoped a)
        then raise (wrapped "failed to grant role" database)
        else if any_row (duplicates a) rows
        then skip
        else if any_row (λ r. r.id == a.id) rows
        then raise (wrapped "failed to grant role" database)
        else modify (set_assignments (rows ++ a ∷ []))

  unfoldable pub revoke : String → String → String → Option String → M (Unit {0})
  revoke user role scope context = do
    or_raise statement (wrapped "failed to revoke role")
    rows ← gets (λ w. w.assignments)
    modify
        (set_assignments (delete_rows (λ r. r.user_id == user && holds role scope context r) rows))

  unfoldable pub list_for_user : String → M (List Assignment)
  list_for_user user = do
    or_raise statement (wrapped "failed to list user assignments")
    rows ← gets (λ w. w.assignments)
    pure (find_rows (λ r. r.user_id == user) rows)

  unfoldable pub list_by_role : String → String → Option String → M (List String)
  list_by_role role scope context = do
    or_raise statement (wrapped "failed to list users by role")
    rows ← gets (λ w. w.assignments)
    pure (map (λ r. r.user_id) (find_rows (holds role scope context) rows))

  unfoldable pub check_exists : String → String → Option String → M Bool
  check_exists role scope context = do
    or_raise statement (wrapped "failed to check assignment existence")
    rows ← gets (λ w. w.assignments)
    pure (any_row (holds role scope context) rows)
