-- ===== src/Store/Sessions.antt =====
-- internal/store/postgres/session_repository.go
pub mod AsMap
use opentrusty.Prelude.{
  Bool, List, Option, String, [], any_row, delete_rows, find_row, if◌then◌else◌, ltb, none, some,
  update_rows, ◌++◌, ◌==◌, ◌∷◌,
}
use opentrusty.Domain.Errors.{database, session_not_found, wrapped}
use opentrusty.Domain.Sessions.{Session, SessionRow}
use opentrusty.World.{
  Env, M, World, gets, modify, or_raise, pure, raise, statement, stored_time, time_now, ◌>>=◌, ◌>>◌,
}

abbrev pub has_id : String → SessionRow → Bool
has_id sid r = r.id == sid

-- The columns are TIMESTAMPs, written by a process in UTC.
abbrev pub to_row : Session → SessionRow
to_row s = record {
  id = s.id;
  tenant_id = s.tenant_id;
  user_id = s.user_id;
  ip_address = s.ip_address;
  user_agent = s.user_agent;
  expires_at = stored_time s.expires_at;
  created_at = stored_time s.created_at;
  last_seen_at = stored_time s.last_seen_at;
}

-- The columns that are scanned; `Namespace` keeps Go's zero value.
abbrev pub scan : SessionRow → Session
scan r = record {
  id = r.id;
  tenant_id = r.tenant_id;
  user_id = r.user_id;
  ip_address = r.ip_address;
  user_agent = r.user_agent;
  expires_at = r.expires_at;
  created_at = r.created_at;
  last_seen_at = r.last_seen_at;
  namespace = "";
}

abbrev set_sessions : List SessionRow → World → World
set_sessions rs w = record w { sessions = rs }

scan_or_raise : Option SessionRow → M Session
scan_or_raise none = raise session_not_found
scan_or_raise (some r) = pure (scan r)

module _ ⦃env : Env⦄ where
  -- The primary key refuses a second row with the same id.
  unfoldable pub create : Session → M (Unit {0})
  create s = do
    or_raise statement (wrapped "failed to create session")
    rows ← gets (λ w. w.sessions)
    if any_row (has_id s.id) rows
        then raise (wrapped "failed to create session" database)
        else modify (set_sessions (rows ++ to_row s ∷ []))

  unfoldable pub get : String → M Session
  unfolding scan_or_raise
  get sid = do
    or_raise statement (wrapped "failed to get session")
    rows ← gets (λ w. w.sessions)
    scan_or_raise (find_row (has_id sid) rows)

  unfoldable pub update : Session → M (Unit {0})
  update s = do
    or_raise statement (wrapped "failed to update session")
    rows ← gets (λ w. w.sessions)
    if any_row (has_id s.id) rows
        then modify (
            set_sessions (
              update_rows (has_id s.id)
                (λ r. record r { last_seen_at = stored_time s.last_seen_at }) rows))
        else raise session_not_found

  unfoldable pub delete : String → M (Unit {0})
  delete sid = do
    or_raise statement (wrapped "failed to delete session")
    rows ← gets (λ w. w.sessions)
    modify (set_sessions (delete_rows (has_id sid) rows))

  unfoldable pub delete_by_user_id : String → M (Unit {0})
  delete_by_user_id uid = do
    or_raise statement (wrapped "failed to delete user sessions")
    rows ← gets (λ w. w.sessions)
    modify (set_sessions (delete_rows (λ r. r.user_id == uid) rows))

  unfoldable pub delete_expired : M (Unit {0})
  delete_expired = do
    now ← time_now
    or_raise statement (wrapped "failed to delete expired sessions")
    rows ← gets (λ w. w.sessions)
    modify (set_sessions (delete_rows (λ r. ltb r.expires_at (stored_time now)) rows))
