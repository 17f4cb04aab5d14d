-- ===== src/Tests/ClientRuns.antt =====
-- Alice manages the clients of the tenant t1.
use opentrusty.Store.Clients
use opentrusty.Store.Assignments
use opentrusty.Store.Roles
use opentrusty.Prelude.{[], find_row, refl, some, true, ◌∷◌, ◌≡◌}
use opentrusty.Authz.{any_grant, grants, has_permission, in_scope}
use opentrusty.Authz.Decision.{is_granted}
use opentrusty.Authz.Permissions.{tenant_manage_clients}
use opentrusty.Domain.Authz.{scope_tenant}
use opentrusty.Domain.Oauth2.{Client}
use opentrusty.Http.{Context, Reply}
use opentrusty.Http.Clients.{
  may_manage_clients, own_client, regenerate_client_secret, remove_client,
}
use opentrusty.Http.Clients.Removal.{remove_client_sound}
use opentrusty.Http.Clients.Secrets.{HasHash, regenerate-HasHash}
use opentrusty.Oauth2.Service.{delete_client, get_client}
use opentrusty.Tests.Scene.{app, demo, scene}
use opentrusty.World.{Result, World}

abbrev managed : World
managed = record scene { permissions = (record { id = "p1"; name = tenant_manage_clients }) ∷ [] }

abbrev alice_at_t1 : Context
alice_at_t1 = record { user_id = "alice"; session_id = "s1"; tenant_id = "t1" }

abbrev removed : Result Reply × World
removed = remove_client ⦃env = demo⦄ alice_at_t1 "c1" managed

remove_client_sound_example :
    (is_granted managed "alice" scope_tenant (some "t1") tenant_manage_clients ≡ true)
    × ((client : Client) × (find_row (Clients.has_id "c1") managed.clients ≡ some client)
        × (client.tenant_id ≡ "t1"))
unfolding remove_client own_client may_manage_clients get_client delete_client Clients.get_by_id
    Clients.delete has_permission any_grant in_scope grants Assignments.list_for_user
    Roles.get_by_id Roles.role_names
remove_client_sound_example =
    remove_client_sound ⦃env = demo⦄ alice_at_t1 "c1" managed removed.1 refl

regenerate-HasHash_example :
    HasHash "app" "bb." (regenerate_client_secret ⦃env = demo⦄ alice_at_t1 "c1" scene).1
regenerate-HasHash_example =
    regenerate-HasHash ⦃env = demo⦄ "app" "bb." alice_at_t1 "c1" scene (app, refl, refl)
