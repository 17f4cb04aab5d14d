-- ===== src/Session.antt =====
-- `Service` of internal/session/service.go.
pub mod Lookup
pub mod Lifecycle
use opentrusty.Store.Sessions as Repo
use opentrusty.Prelude.{Bool, Option, String, if◌then◌else◌, ltb, ℕ, ◌+◌, ◌-◌}
use opentrusty.Domain.Errors.{session_expired, session_not_found, wrapped}
use opentrusty.Domain.Sessions.{Session}
use opentrusty.World.{Env, M, attempt, or_raise, pure, raise, read_random, time_now, ◌>>=◌, ◌>>◌}

pub record Service : Type 0 where
  pub lifetime : ℕ
  pub idle_timeout : ℕ

module _ ⦃env : Env⦄ where
  -- `IsExpired`
  unfoldable pub is_expired : Session → M Bool
  is_expired s = do now ← time_now; pure (ltb s.expires_at now)

  -- `IsIdle`: a difference below zero is not above the timeout.
  unfoldable pub is_idle : Session → ℕ → M Bool
  is_idle s idle_timeout = do now ← time_now; pure (ltb idle_timeout (now - s.last_seen_at))

  unfoldable pub generate_session_id : M String
  generate_session_id = do b ← read_random 32; pure (env.base64_url b)

  unfoldable pub create : Service → Option String → String → String → String → String → M Session
  unfolding generate_session_id
  create s tenant_id user_id ip_address user_agent namespace = do
    sid ← generate_session_id
    expiry ← time_now
    created ← time_now
    seen ← time_now
    let sess : Session = record {
      id = sid;
      tenant_id = tenant_id;
      user_id = user_id;
      ip_address = ip_address;
      user_agent = user_agent;
      expires_at = expiry + s.lifetime;
      created_at = created;
      last_seen_at = seen;
      namespace = namespace;
    }
    or_raise (Repo.create sess) (wrapped "failed to create session")
    pure sess

  unfoldable pub get : Service → String → M Session
  unfolding is_expired is_idle
  get s sid = do
    sess ← or_raise (Repo.get sid) (λ _. session_not_found)
    expired ← is_expired sess
    if expired then (do attempt (Repo.delete sid); raise session_expired) else (do
      idle ← is_idle sess s.idle_timeout
      if idle then (do attempt (Repo.delete sid); raise session_expired) else pure sess)

  unfoldable pub refresh : Service → String → M (Unit {0})
  refresh s sid = do
    sess ← get s sid
    now ← time_now
    Repo.update (record sess { last_seen_at = now })

  unfoldable pub destroy : String → M (Unit {0})
  destroy sid = Repo.delete sid

  unfoldable pub destroy_all_for_user : String → M (Unit {0})
  destroy_all_for_user user_id = Repo.delete_by_user_id user_id

  unfoldable pub cleanup_expired : M (Unit {0})
  cleanup_expired = Repo.delete_expired
