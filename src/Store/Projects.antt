-- ===== src/Store/Projects.antt =====
-- `ProjectRepository` of internal/store/postgres/authz_repository.go
use opentrusty.Prelude.{
  Bool, List, String, [], any_row, find_row, find_rows, if◌then◌else◌, is_some, none, not, some,
  update_rows, ◌&&◌, ◌++◌, ◌==◌, ◌∷◌,
}
use opentrusty.Domain.Authz.{Project}
use opentrusty.Domain.Errors.{database, project_not_found, wrapped}
use opentrusty.World.{
  Env, M, World, gets, modify, one_row, or_raise, pure, raise, stamped_statement, statement,
  time_now, ◌>>=◌, ◌>>◌,
}

abbrev pub is_live : Project → Bool
is_live p = not (is_some p.deleted_at)

abbrev pub has_id : String → Project → Bool
has_id id p = p.id == id && is_live p

abbrev set_projects : List Project → World → World
set_projects rs w = record w { projects = rs }

module _ ⦃env : Env⦄ where
  unfoldable pub create : Project → M (Unit {0})
  create c = do
    or_raise statement (wrapped "failed to create project")
    rows ← gets (λ w. w.projects)
    if any_row (λ p. p.id == c.id) rows
        then raise (wrapped "failed to create project" database)
        else modify (set_projects (rows ++ (record c { deleted_at = none }) ∷ []))

  unfoldable pub get_by_id : String → M Project
  get_by_id id = do
    or_raise statement (wrapped "failed to get project")
    rows ← gets (λ w. w.projects)
    one_row (find_row (has_id id) rows) project_not_found

  unfoldable pub get_by_name : String → M Project
  get_by_name name = do
    or_raise statement (wrapped "failed to get project")
    rows ← gets (λ w. w.projects)
    one_row (find_row (λ p. p.name == name && is_live p) rows) project_not_found

  unfoldable pub update : Project → M (Unit {0})
  update c = do
    now ← or_raise stamped_statement (wrapped "failed to update project")
    rows ← gets (λ w. w.projects)
    if any_row (has_id c.id) rows
        then modify (
            set_projects (
              update_rows (has_id c.id)
                (λ p. record p { name = c.name; description = c.description; updated_at = now })
                rows))
        else raise project_not_found

  unfoldable pub delete : String → M (Unit {0})
  delete id = do
    now ← time_now
    stamp ← or_raise stamped_statement (wrapped "failed to delete project")
    rows ← gets (λ w. w.projects)
    if any_row (has_id id) rows
        then modify (
            set_projects (
              update_rows (has_id id) (λ p. record p { deleted_at = some now; updated_at = stamp })
                rows))
        else raise project_not_found

  unfoldable pub list_by_owner : String → M (List Project)
  list_by_owner owner = do
    or_raise statement (wrapped "failed to list projects")
    rows ← gets (λ w. w.projects)
    pure (find_rows (λ p. p.owner_id == owner && is_live p) rows)

  -- The statement joins the table `user_project_roles`, which no migration creates.
  unfoldable pub list_by_user : String → M (List Project)
  list_by_user user = do
    or_raise statement (wrapped "failed to list user projects")
    raise (wrapped "failed to list user projects" database)
