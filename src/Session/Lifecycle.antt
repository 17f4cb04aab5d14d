-- ===== src/Session/Lifecycle.antt =====
-- Creation, refresh and destruction of sessions (internal/session/service.go).
use opentrusty.Store.Sessions as Repo
use opentrusty.Prelude.{
  ==_refl, List, Option, String, [], any-delete_rows, any_row, arith, delete_rows, false, find_row,
  find_row-any_row, find_row-append_new, find_row-delete_rows_other, find_row-update_rows,
  find_row_passes, inl, inr, ltb, none, refl, some, suc, update_rows, ℕ, ◌++◌, ◌+◌, ◌-◌, ◌==◌, ◌∷◌,
  ◌≡◌, ◌≤◌,
}
use opentrusty.Domain.Sessions.{Session, SessionRow}
use opentrusty.Session.{
  Service, cleanup_expired, create, destroy_all_for_user, generate_session_id, get, refresh,
}
use opentrusty.Session.Lookup.{get_complete, get_live}
use opentrusty.World.{Env, World, ok, stored_time, tick}
use opentrusty.World.Laws.{Outcome-cases}

module _ ⦃env : Env⦄ where
  -- A session that was created has a new id and the owner and the expiry asked for, and is added to
  -- the table.
  pub create_lem :
      (s : Service) (tenant : Option String) (user ip agent namespace : String) (w w' : World)
      (sess : Session)
      → create s tenant user ip agent namespace w ≡ (ok sess, w')
      → (sess.id ≡ env.base64_url (env.random w.events 32))
        × (sess.user_id ≡ user)
        × (sess.tenant_id ≡ tenant)
        × (sess.expires_at ≡ env.clock (suc w.events) + s.lifetime)
        × (find_row (Repo.has_id sess.id) w.sessions ≡ none)
        × (w'.sessions ≡ w.sessions ++ Repo.to_row sess ∷ [])
  unfolding create Repo.create generate_session_id
  create_lem s tenant user ip agent namespace w w' sess h = (
    ground arith,
    ground arith,
    ground arith,
    ground arith,
    find_row-any_row (Repo.has_id sess.id) (Repo.has_id sess.id) (λ r e. e) w.sessions
        (ground arith),
    ground arith,
  )

  -- What is left of a session that was stored: the times without what is below a microsecond, and
  -- no namespace.
  abbrev pub read_back : Session → Session
  read_back sess = record sess {
    expires_at = stored_time sess.expires_at;
    created_at = stored_time sess.created_at;
    last_seen_at = stored_time sess.last_seen_at;
    namespace = "";
  }

  -- A session that was created is handed out under its id as long as it is live, by the times that
  -- are stored, if the statement does not fail; its namespace is lost and its times are cut to the
  -- microsecond.
  pub get-create :
      (s : Service) (tenant : Option String) (user ip agent namespace : String) (w w' : World)
      (sess : Session)
      → create s tenant user ip agent namespace w ≡ (ok sess, w')
      → env.outage w'.events ≡ false
      → env.clock (suc w'.events) ≤ stored_time sess.expires_at
      → env.clock (suc (suc w'.events)) - stored_time sess.last_seen_at ≤ s.idle_timeout
      → get s sess.id w' ≡ (ok (read_back sess), tick (tick (tick w')))
  get-create s tenant user ip agent namespace w w' sess h up live busy =
      let (_, _, _, _, fresh, added) = create_lem s tenant user ip agent namespace w w' sess h in
      get_complete s sess.id w' (Repo.to_row sess) up
        (rw added (
          find_row-append_new (Repo.has_id sess.id) w.sessions (Repo.to_row sess) fresh
            (==_refl sess.id)))
        live busy

  refreshed :
      (sid : String) (rows : List SessionRow) (r : SessionRow) (now : ℕ)
      → find_row (Repo.has_id sid) rows ≡ some r
      → find_row
          (Repo.has_id sid)
          (update_rows (Repo.has_id r.id) (λ q. record q { last_seen_at = now }) rows)
        ≡ some (record r { last_seen_at = now })
  refreshed sid rows r now f = ground (
    arith,
    find_row_passes (Repo.has_id sid) rows r f,
    ==_refl r.id,
    find_row-update_rows (Repo.has_id sid) (Repo.has_id r.id) (λ q. record q { last_seen_at = now })
        (λ q. refl) rows r f,
  )

  -- A refresh succeeds on live sessions only; it moves the time of the last use to the reading of
  -- the clock and leaves the expiry as it is.
  pub refresh_lem :
      (s : Service) (sid : String) (w w' : World)
      → refresh s sid w ≡ (ok tt, w')
      → (r : SessionRow) × (find_row (Repo.has_id sid) w.sessions ≡ some r)
        × (env.clock (suc w.events) ≤ r.expires_at)
        × (env.clock (suc (suc w.events)) - r.last_seen_at ≤ s.idle_timeout)
        × (find_row (Repo.has_id sid) w'.sessions
            ≡ some (record r { last_seen_at = stored_time (env.clock (suc (suc (suc w.events)))) }))
  unfolding refresh Repo.update
  refresh_lem s sid w w' h = elim (Outcome-cases (get s sid w)) [
    | inr (x, u, e) ↦ absurd (ground arith)
    | inl (sess, u, e) ↦
        let (r, f, same, live, busy, same_world) = get_live s sid w u sess e in
        (
          r,
          f,
          ground arith,
          ground arith,
          ground (
            arith,
            refreshed sid w.sessions r (stored_time (env.clock (suc (suc (suc w.events))))) f,
          ),
        )
  ]

  -- After the destruction of a user's sessions the user has none, and the others stay.
  pub destroy_all_for_user_lem :
      (uid : String) (w w' : World)
      → destroy_all_for_user uid w ≡ (ok tt, w')
      → (any_row (λ r. r.user_id == uid) w'.sessions ≡ false)
        × ((sid : String) (r : SessionRow)
            → find_row (Repo.has_id sid) w.sessions ≡ some r
            → (r.user_id == uid) ≡ false
            → find_row (Repo.has_id sid) w'.sessions ≡ some r)
  unfolding destroy_all_for_user Repo.delete_by_user_id
  destroy_all_for_user_lem uid w w' h =
      let e : w'.sessions ≡ delete_rows (λ r. r.user_id == uid) w.sessions = ground arith in
      (
        rw e (any-delete_rows (λ r. r.user_id == uid) w.sessions),
        λ sid r f other. rw e (
            find_row-delete_rows_other (Repo.has_id sid) (λ r. r.user_id == uid) w.sessions r f
              other),
      )

  -- The cleanup deletes the sessions that have expired, and no other.
  pub cleanup_expired_lem :
      (w w' : World)
      → cleanup_expired w ≡ (ok tt, w')
      → (any_row (λ r. ltb r.expires_at (stored_time (env.clock w.events))) w'.sessions ≡ false)
        × ((sid : String) (r : SessionRow)
            → find_row (Repo.has_id sid) w.sessions ≡ some r
            → stored_time (env.clock w.events) ≤ r.expires_at
            → find_row (Repo.has_id sid) w'.sessions ≡ some r)
  unfolding cleanup_expired Repo.delete_expired
  cleanup_expired_lem w w' h =
      let e : w'.sessions
          ≡ delete_rows (λ r. ltb r.expires_at (stored_time (env.clock w.events))) w.sessions =
        ground arith in
      (
        rw e
            (any-delete_rows (λ r. ltb r.expires_at (stored_time (env.clock w.events))) w.sessions),
        λ sid r f live. rw e (
            find_row-delete_rows_other (Repo.has_id sid)
              (λ q. ltb q.expires_at (stored_time (env.clock w.events))) w.sessions r f
              (ground arith)),
      )
