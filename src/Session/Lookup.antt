-- ===== src/Session/Lookup.antt =====
-- Which sessions `Get` (internal/session/service.go) hands out.
use opentrusty.Store.Sessions as Repo
use opentrusty.Prelude.{
  Option-cases, String, arith, delete_rows, false, find-delete_rows, find_row, inl, inr, none, some,
  suc, ℕ, ◌-◌, ◌<◌, ◌≡◌, ◌≤◌, ◌⊎◌,
}
use opentrusty.Domain.Errors.{session_expired}
use opentrusty.Domain.Sessions.{Session, SessionRow}
use opentrusty.Session.{Service, get}
use opentrusty.World.{Env, World, err, ok, tick}

module _ ⦃env : Env⦄ where
  -- A session that is handed out is stored under its id, not expired and not idle for too long at
  -- the readings of the clock, and the table is unchanged.
  pub get_live :
      (s : Service) (sid : String) (w w' : World) (sess : Session)
      → get s sid w ≡ (ok sess, w')
      → (r : SessionRow) × (find_row (Repo.has_id sid) w.sessions ≡ some r)
        × (Repo.scan r ≡ sess)
        × (env.clock (suc w.events) ≤ sess.expires_at)
        × (env.clock (suc (suc w.events)) - sess.last_seen_at ≤ s.idle_timeout)
        × (w' ≡ tick (tick (tick w)))
  unfolding get Repo.get Repo.delete
  get_live s sid w w' sess h = elim (Option-cases (find_row (Repo.has_id sid) w.sessions)) [
    | inl e ↦ absurd (ground arith)
    | inr (r, e) ↦ (r, ground arith, ground arith, ground arith, ground arith, ground arith)
  ]

  -- A stored session that is not expired and not idle for too long is handed out, if the statement
  -- does not fail; its namespace is empty, whatever it was created with.
  pub get_complete :
      (s : Service) (sid : String) (w : World) (r : SessionRow)
      → env.outage w.events ≡ false
      → find_row (Repo.has_id sid) w.sessions ≡ some r
      → env.clock (suc w.events) ≤ r.expires_at
      → env.clock (suc (suc w.events)) - r.last_seen_at ≤ s.idle_timeout
      → get s sid w ≡ (ok (Repo.scan r), tick (tick (tick w)))
  unfolding get Repo.get
  get_complete s sid w r up f live busy = ground arith

  -- A session that has expired, or was idle for too long, is refused and, if the statements do not
  -- fail, no longer stored.
  pub get_stale :
      (s : Service) (sid : String) (w : World) (r : SessionRow)
      → ((n : ℕ) → env.outage n ≡ false)
      → find_row (Repo.has_id sid) w.sessions ≡ some r
      → (r.expires_at < env.clock (suc w.events))
        ⊎ (s.idle_timeout < env.clock (suc (suc w.events)) - r.last_seen_at)
      → let (res, w') = get s sid w in
        (res ≡ err session_expired)
        × (w'.sessions ≡ delete_rows (Repo.has_id sid) w.sessions)
        × (find_row (Repo.has_id sid) w'.sessions ≡ none)
  unfolding get Repo.get Repo.delete
  get_stale s sid w r calm f old = ground (
    arith,
    calm w.events,
    calm (suc (suc w.events)),
    calm (suc (suc (suc w.events))),
    find-delete_rows (Repo.has_id sid) w.sessions,
  )
