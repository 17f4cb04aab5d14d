-- ===== src/Identity/Login.antt =====
-- What `Authenticate` (internal/identity/service.go) accepts and what it writes.
use opentrusty.Store.Users
use opentrusty.Identity.Password
use opentrusty.Prelude.{
  Bool, Bool-cases, Option-cases, String, [], arith, false, find_row, inl, inr, none, refl, some,
  suc, true, update_rows, ℕ, ◌<◌, ◌==◌, ◌≡◌, ◌≢◌,
}
use opentrusty.Domain.Audit.{event}
use opentrusty.Domain.Errors.{account_locked, invalid_credentials, is_panic}
use opentrusty.Domain.Identity.{Credentials, User}
use opentrusty.Identity.Service.{
  Service, authenticate, authenticate_user, is_locked, lockout_end, record_failure, record_success,
  rejects, tenant_of, unknown_user,
}
use opentrusty.World.{Env, Result, World, attempt_unless_panic, err, log, ok, tick}

-- The credentials of a user verify a password.
unfoldable pub Verifies : ⦃env : Env⦄ → World → String → String → Type 0
Verifies w uid password =
    (c : Credentials) × (find_row (Users.owned_by uid) w.credentials ≡ some c)
    × (Password.verify password c.password_hash ≡ ok true)

abbrev pub panics : Result Bool → Bool
panics (ok b) = false
panics (err e) = is_panic e

module _ ⦃env : Env⦄ where
  record_failure_refuses :
      (s : Service) (tenant : String) (u : User) (w : World)
      → (record_failure s tenant u w).0 ≡ err invalid_credentials
  unfolding record_failure lockout_end Users.update_lockout
  record_failure_refuses s tenant u w = ground arith

  record_success_keeps :
      (tenant : String) (r : User) (w : World)
      → record_success tenant (Users.scan r) w
        ≡ (ok (Users.scan r), (log (event "login_success" tenant r.id "login" []) w).1)
  unfolding record_success
  record_success_keeps tenant r w = ground arith

  rejects-ok : (v : Result Bool) → rejects v ≡ false → v ≡ ok true
  rejects-ok (ok b) h = ground arith
  rejects-ok (err e) h = ground arith

  refused :
      (v : Result Bool) (w : World)
      → v ≢ ok true
      → panics v ≡ false
      → (x : Result Bool) × (attempt_unless_panic (Password.lift v) w ≡ (ok x, w))
        × (rejects x ≡ true)
  refused (ok true) w wrong runs = absurd (wrong refl)
  refused (ok false) w wrong runs = (ok false, refl, refl)
  refused (err e) w wrong runs = (err e, ground arith, refl)

  authenticate_user_sound :
      (s : Service) (tenant password : String) (r u : User) (w w' : World)
      → authenticate_user s tenant (Users.scan r) password w ≡ (ok u, w')
      → (Users.scan r ≡ u)
        × Verifies w u.id password
        × (w' ≡ (log (event "login_success" tenant r.id "login" []) (tick w)).1)
  unfolding authenticate_user is_locked Users.get_credentials Verifies
  authenticate_user_sound s tenant password r u w w' h =
      elim (Option-cases (find_row (Users.owned_by r.id) w.credentials)) [
        | inl e ↦ absurd (ground arith)
        | inr (c, e) ↦ elim (Bool-cases (rejects (Password.verify password c.password_hash))) [
          | inl bad ↦
              absurd (ground (arith, record_failure_refuses s tenant (Users.scan r) (tick w)))
          | inr good ↦
              let same : (Users.scan r ≡ u)
                  × (w' ≡ (log (event "login_success" tenant r.id "login" []) (tick w)).1) =
                ground (arith, record_success_keeps tenant r (tick w)) in
              (
                same.0,
                (c, ground arith, rejects-ok (Password.verify password c.password_hash) good),
                same.1,
              )
        ]
      ]

  -- Who is logged in is stored under the e-mail address and the tenant, not deleted, and has
  -- credentials that the password verifies against; only an event is logged and two calls counted.
  pub authenticate_sound :
      (s : Service) (tenant email password : String) (w w' : World) (u : User)
      → authenticate s tenant email password w ≡ (ok u, w')
      → (r : User) × (find_row (Users.has_email (tenant_of tenant) email) w.users ≡ some r)
        × (Users.scan r ≡ u)
        × Verifies w u.id password
        × (w' ≡ (log (event "login_success" tenant r.id "login" []) (tick (tick w))).1)
  unfolding authenticate unknown_user Users.get_by_email Verifies
  authenticate_sound s tenant email password w w' u h =
      elim (Option-cases (find_row (Users.has_email (tenant_of tenant) email) w.users)) [
        | inl e ↦ absurd (ground arith)
        | inr (r, e) ↦
            let (same, found, logged) =
              authenticate_user_sound s tenant password r u (tick w) w' (ground arith) in
            (r, e, same, found, logged)
      ]

  -- The answer is never that the account is locked, whatever is stored of its lockout.
  pub authenticate_never_locked :
      (s : Service) (tenant email password : String) (w : World)
      → (authenticate s tenant email password w).0 ≢ err account_locked
  unfolding authenticate unknown_user authenticate_user is_locked record_success Users.get_by_email
      Users.get_credentials
  authenticate_never_locked s tenant email password w h =
      elim (Option-cases (find_row (Users.has_email (tenant_of tenant) email) w.users)) [
        | inl e ↦ ground arith
        | inr (r, e) ↦ elim (Option-cases (find_row (Users.owned_by r.id) w.credentials)) [
          | inl m ↦ ground arith
          | inr (c, f) ↦ ground (
            arith,
            record_failure_refuses s tenant (Users.scan r) (tick (tick w)),
            record_success_keeps tenant r (tick (tick w)),
          )
        ]
      ]

  -- If no statement fails, the limit of failures is above 1 and argon2 does not panic on the stored
  -- hash, a wrong password of a stored user with credentials is answered by ErrInvalidCredentials,
  -- the stored counter of failures is set to 1 and the lockout cleared, however many failures are
  -- stored.
  pub authenticate_wrong_password :
      (s : Service) (tenant email password : String) (w : World) (r : User) (c : Credentials)
      → ((n : ℕ) → env.outage n ≡ false)
      → 1 < s.lockout_max_attempts
      → find_row (Users.has_email (tenant_of tenant) email) w.users ≡ some r
      → find_row (Users.owned_by r.id) w.credentials ≡ some c
      → Password.verify password c.password_hash ≢ ok true
      → panics (Password.verify password c.password_hash) ≡ false
      → let (res, w') = authenticate s tenant email password w in
        (res ≡ err invalid_credentials)
        × (w'.users
            ≡ update_rows
                (λ q. q.id == r.id)
                (Users.set_lockout 1 none (env.clock (suc (suc w.events))))
                w.users)
  unfolding authenticate unknown_user authenticate_user is_locked record_failure lockout_end
      Users.get_by_email Users.get_credentials Users.update_lockout
  authenticate_wrong_password s tenant email password w r c calm limit e f wrong runs =
      let u = tick (tick w) in
      let (v, checked, bad) = refused (Password.verify password c.password_hash) u wrong runs in
      ground (arith, calm w.events, calm (suc w.events), calm (suc (suc w.events)))
