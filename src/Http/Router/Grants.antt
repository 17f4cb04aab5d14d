-- ===== src/Http/Router/Grants.antt =====
-- Which requests change the roles, their assignments or the clients through the routes of the
-- administrators.
use opentrusty.Store.Sessions as Repo
use opentrusty.Prelude.{
  List, Option-cases, String, ap, arith, false, find_row, inl, inr, none, not, refl, some, suc,
  true, ◌≡◌, ◌≢◌, ◌≤◌, ◌⊎◌,
}
use opentrusty.Authz.Tables.{tables}
use opentrusty.Domain.Sessions.{SessionRow}
use opentrusty.Http.{Context, Handler, Request, auth_middleware, csrf_middleware, pass, stop}
use opentrusty.Http.Gatekeeping.{auth_middleware_sound}
use opentrusty.Http.Router.{
  AdminRoute, Payload, Provider, Route, at_tenant, route, serve, serve_admin, serve_route, to_admin,
  to_assign_role, to_create_tenant, to_delete_client, to_register_client, to_revoke_role, with_csrf,
  with_session,
}
use opentrusty.Http.Router.Entitled.{
  assign_role_entitled, create_tenant_entitled, entitled, entitled-changes_tables,
  entitled_of_tables, register_client_entitled, remove_client_entitled, revoke_role_entitled,
}
use opentrusty.Http.Router.Frames.{auth_middleware-Keeps, serve_admin-Keeps}
use opentrusty.Http.Router.Methods.{csrf_passes, route-IsWrite}
use opentrusty.Http.Router.Public.{is_admin_route, serve_public-Keeps}
use opentrusty.World.{Env, World}
use opentrusty.World.Laws.{Outcome-cases}

module _ ⦃env : Env⦄ where
  serve_admin-entitled :
      (h : Handler) (r : Request) (b : Payload) (c : Context) (a : AdminRoute) (w : World)
      → (tables (serve_admin h r b c a w).1 ≡ tables w) ⊎ (entitled w c.user_id a ≡ true)
  unfolding serve_admin
  serve_admin-entitled h r b c to_create_tenant w = create_tenant_entitled c b.tenant_name w
  serve_admin-entitled h r b c (to_assign_role t u) w =
      assign_role_entitled (at_tenant c t) t u b.role w
  serve_admin-entitled h r b c (to_revoke_role t u role) w =
      revoke_role_entitled (at_tenant c t) t u role w
  serve_admin-entitled h r b c (to_register_client t) w =
      register_client_entitled (at_tenant c t) b.registration w
  serve_admin-entitled h r b c (to_delete_client t id) w =
      remove_client_entitled (at_tenant c t) id w
  serve_admin-entitled h r b c a w = inl (serve_admin-Keeps h r b c a refl w)

  serve_route-entitled :
      (h : Handler) (p : Provider) (r : Request) (b : Payload) (a : AdminRoute) (w : World)
      → (tables (serve_route h p r b (to_admin a) w).1 ≡ tables w)
        ⊎ ((row : SessionRow) × (find_row (Repo.has_id r.session_cookie) w.sessions ≡ some row)
            × (env.clock (suc w.events) ≤ row.expires_at)
            × (csrf_middleware r ≡ none)
            × (entitled w row.user_id a ≡ true))
  unfolding serve_route with_session with_csrf
  serve_route-entitled h p r b a w =
      let k = auth_middleware-Keeps h r w in
      elim (Outcome-cases (auth_middleware h r w)) [
        | inr (x, u, e) ↦ inl (ground arith)
        | inl (stop refused, u, e) ↦ inl (ground arith)
        | inl (pass c, u, e) ↦ elim (Option-cases (csrf_middleware r)) [
          | inr (refused, f) ↦ inl (ground arith)
          | inl f ↦ elim (serve_admin-entitled h r b c a u) [
            | inl same ↦ inl (ground arith)
            | inr granted ↦
                let (row, found, live, busy, user, tenant, header) =
                  auth_middleware_sound h r w u c e in
                inr (
                  row,
                  found,
                  live,
                  f,
                  ground (arith, entitled_of_tables u w c.user_id a (ground arith)),
                )
          ]
        ]
      ]

  -- A user of a stored session that has not expired, in a request with the CSRF header, whom the
  -- tables grant what the route of the request asks for.
  pub record MayChange (h : Handler) (r : Request) (path : List String) (w : World) : Type 0 where
    pub asked : AdminRoute
    pub routed : route h.mode r.method path ≡ to_admin asked
    pub session : SessionRow
    pub stored : find_row (Repo.has_id r.session_cookie) w.sessions ≡ some session
    pub live : env.clock (suc w.events) ≤ session.expires_at
    pub header : r.csrf_header ≢ ""
    pub granted : entitled w session.user_id asked ≡ true

  serve_admin_route :
      (h : Handler) (p : Provider) (r : Request) (b : Payload) (path : List String) (a : AdminRoute)
      (w : World)
      → route h.mode r.method path ≡ to_admin a
      → (tables (serve h p r b path w).1 ≡ tables w) ⊎ MayChange h r path w
  unfolding serve
  serve_admin_route h p r b path a w e = elim (serve_route-entitled h p r b a w) [
    | inl same ↦ inl (rw e same)
    | inr (row, found, live, passed, granted) ↦
        let changes = entitled-changes_tables w row.user_id a granted in
        let write = route-IsWrite h.mode r.method path (rw e (ap not changes)) in
        inr (record {
          asked = a;
          routed = e;
          session = row;
          stored = found;
          live = live;
          header = csrf_passes r passed write;
          granted = granted;
        })
  ]

  route-cases : (t : Route) → (is_admin_route t ≡ false) ⊎ ((a : AdminRoute) × (t ≡ to_admin a))
  route-cases (to_admin a) = inr (a, refl)
  route-cases t = inl refl

  serve_public :
      (h : Handler) (p : Provider) (r : Request) (b : Payload) (path : List String) (w : World)
      → is_admin_route (route h.mode r.method path) ≡ false
      → tables (serve h p r b path w).1 ≡ tables w
  unfolding serve
  serve_public h p r b path w e = serve_public-Keeps h p r b (route h.mode r.method path) e w

  -- Whatever is requested, and however it is answered, the roles, their assignments, and the
  -- identifiers, tenants, secrets and marks of deletion of the clients are as they were, or the
  -- request has the CSRF header and the identifier of a stored session that has not expired, of a
  -- user whom the tables grant what its route asks for: the management of tenants on the platform
  -- to make a tenant, and, at the tenant of the path, that of users to assign or revoke a role and
  -- that of clients to make or delete one.
  pub serve_entitled :
      (h : Handler) (p : Provider) (r : Request) (b : Payload) (path : List String) (w : World)
      → (tables (serve h p r b path w).1 ≡ tables w) ⊎ MayChange h r path w
  serve_entitled h p r b path w = elim (route-cases (route h.mode r.method path)) [
    | inl e ↦ inl (serve_public h p r b path w e)
    | inr (a, e) ↦ serve_admin_route h p r b path a w e
  ]
