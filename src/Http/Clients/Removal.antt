-- ===== src/Http/Clients/Removal.antt =====
-- Who deletes a client by `DeleteClient` (internal/transport/http/oauth2_client_handler.go).
use opentrusty.Store.Clients
use opentrusty.Store.Roles
use opentrusty.Store.Assignments
use opentrusty.Prelude.{
  ==_iff, List, Option, Option-cases, String, [], arith, false, find_row, find_rows, inl, inr, refl,
  some, true, ◌==◌, ◌∷◌, ◌≡◌,
}
use opentrusty.Authz.{any_grant, has_permission}
use opentrusty.Authz.Decision.{has_permission-is_granted, is_granted}
use opentrusty.Authz.Permissions.{tenant_manage_clients}
use opentrusty.Domain.Authz.{Assignment, scope_tenant}
use opentrusty.Domain.Oauth2.{Client}
use opentrusty.Http.{Context, no_content, untouched}
use opentrusty.Http.Clients.{may_manage_clients, own_client, remove_client}
use opentrusty.Oauth2.Service.{get_client}
use opentrusty.World.{Env, World, ok, tick}
use opentrusty.World.Laws.{Outcome-cases}

module _ ⦃env : Env⦄ where
  any_grant_keeps :
      (items : List Assignment) (scope : String) (context : Option String) (permission : String)
      (w : World)
      → (any_grant items scope context permission w).1.clients ≡ w.clients
  unfolding any_grant Roles.get_by_id
  any_grant_keeps [] scope context permission w = refl
  any_grant_keeps (a ∷ more) scope context permission w = ground (
    arith,
    any_grant_keeps more scope context permission (tick w),
    any_grant_keeps more scope context permission w,
  )

  may_manage_clients_keeps :
      (c : Context) (w : World) → (may_manage_clients c w).1.clients ≡ w.clients
  unfolding may_manage_clients has_permission Assignments.list_for_user
  may_manage_clients_keeps c w = ground (
    arith,
    any_grant_keeps (find_rows (λ a. a.user_id == c.user_id) w.assignments) scope_tenant
        (some c.tenant_id) tenant_manage_clients (tick w),
  )

  pub may_manage_clients_sound :
      (c : Context) (w w' : World)
      → may_manage_clients c w ≡ (ok true, w')
      → is_granted w c.user_id scope_tenant (some c.tenant_id) tenant_manage_clients ≡ true
  unfolding may_manage_clients
  may_manage_clients_sound c w w' h =
      elim (Outcome-cases
        (has_permission c.user_id scope_tenant (some c.tenant_id) tenant_manage_clients w)) [
          | inr (x, u, f) ↦ absurd (ground arith)
          | inl (b, u, f) ↦
              has_permission-is_granted scope_tenant (some c.tenant_id) tenant_manage_clients
                c.user_id w u (ground arith)
        ]

  -- A client that is deleted is one of the tenant of the context, and the tables grant the user of
  -- the context the management of clients at that tenant.
  pub remove_client_sound :
      (c : Context) (id : String) (w w' : World)
      → remove_client c id w ≡ (ok (record { cookie = untouched; body = no_content }), w')
      → (is_granted w c.user_id scope_tenant (some c.tenant_id) tenant_manage_clients ≡ true)
        × ((client : Client) × (find_row (Clients.has_id id) w.clients ≡ some client)
            × (client.tenant_id ≡ c.tenant_id))
  unfolding remove_client own_client get_client Clients.get_by_id
  remove_client_sound c id w w' h = elim (Outcome-cases (may_manage_clients c w)) [
    | inr (x, u, f) ↦ absurd (ground arith)
    | inl (false, u, f) ↦ absurd (ground arith)
    | inl (true, u, f) ↦
        let k = may_manage_clients_keeps c w in
        elim (Option-cases (find_row (Clients.has_id id) u.clients)) [
          | inl missing ↦ absurd (ground arith)
          | inr (client, e) ↦ (
            may_manage_clients_sound c w u f,
            (client, ground arith, ground (arith, ==_iff client.tenant_id c.tenant_id)),
          )
        ]
  ]
