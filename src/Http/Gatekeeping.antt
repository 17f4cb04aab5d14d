-- ===== src/Http/Gatekeeping.antt =====
-- Which requests pass `AuthMiddleware` (internal/transport/http/middleware.go).
use opentrusty.Session as Sessions
use opentrusty.Session.Lookup as Lookup
use opentrusty.Store.Sessions as Repo
use opentrusty.Prelude.{==_iff, arith, find_row, inl, inr, some, suc, ◌-◌, ◌≡◌, ◌≢◌, ◌≤◌}
use opentrusty.Domain.Sessions.{Session, SessionRow}
use opentrusty.Http.{
  Context, Handler, Request, admit_session, auth_middleware, context_of, pass, reject_tenant_header,
  tenant_or_empty,
}
use opentrusty.World.{Env, World, ok}
use opentrusty.World.Laws.{Outcome-cases}

module _ ⦃env : Env⦄ where
  admit_session_sound :
      (h : Handler) (r : Request) (sess : Session) (w w' : World) (c : Context)
      → admit_session h r sess w ≡ (ok (pass c), w')
      → (c ≡ context_of sess)
        × (r.tenant_header ≡ "")
        × ((h.mode ≡ "admin") → sess.namespace ≡ "admin")
  unfolding admit_session reject_tenant_header
  admit_session_sound h r sess w w' c e = (
    ground (arith, ==_iff r.tenant_header ""),
    ground (arith, ==_iff r.tenant_header ""),
    λ m. ground (arith, ==_iff sess.namespace "admin", ==_iff h.mode "admin"),
  )

  -- A request that passes has the identifier of a live session, and gets the user and the tenant of
  -- that session, and no other: it has no header that names a tenant.
  pub auth_middleware_sound :
      (h : Handler) (r : Request) (w w' : World) (c : Context)
      → auth_middleware h r w ≡ (ok (pass c), w')
      → (row : SessionRow) × (find_row (Repo.has_id r.session_cookie) w.sessions ≡ some row)
        × (env.clock (suc w.events) ≤ row.expires_at)
        × (env.clock (suc (suc w.events)) - row.last_seen_at ≤ h.session_service.idle_timeout)
        × (c.user_id ≡ row.user_id)
        × (c.tenant_id ≡ tenant_or_empty row.tenant_id)
        × (r.tenant_header ≡ "")
  unfolding auth_middleware
  auth_middleware_sound h r w w' c e =
      elim (Outcome-cases (Sessions.get h.session_service r.session_cookie w)) [
        | inr (x, u, f) ↦ absurd (ground arith)
        | inl (sess, u, f) ↦
            let (row, found, same, live, busy, moved) =
              Lookup.get_live h.session_service r.session_cookie w u sess f in
            let (ctx, no_header, space) = admit_session_sound h r sess u w' c (ground arith) in
            (row, found, ground arith, ground arith, ground arith, ground arith, no_header)
      ]

  -- In the mode of the administrators no request passes, whatever is stored.
  pub auth_middleware_admin_mode :
      (h : Handler) (r : Request) (w w' : World) (c : Context)
      → h.mode ≡ "admin"
      → auth_middleware h r w ≢ (ok (pass c), w')
  unfolding auth_middleware
  auth_middleware_admin_mode h r w w' c mode e =
      elim (Outcome-cases (Sessions.get h.session_service r.session_cookie w)) [
        | inr (x, u, f) ↦ ground arith
        | inl (sess, u, f) ↦
            let (row, found, same, live, busy, moved) =
              Lookup.get_live h.session_service r.session_cookie w u sess f in
            let (ctx, no_header, space) = admit_session_sound h r sess u w' c (ground arith) in
            let admin = space mode in ground (arith, ==_iff "" "admin")
      ]
