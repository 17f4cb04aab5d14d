-- ===== src/World.antt =====
-- The state of the program, its calls out of the program, and the monad in which the services and
-- the repositories are written.
pub mod Laws
pub mod Frame
use opentrusty.Prelude.{
  Bool, List, Option, String, [], if◌then◌else◌, none, some, suc, ℕ, ◌*◌, ◌++◌, ◌/◌, ◌∷◌,
}
use opentrusty.Domain.Audit.{Event}
use opentrusty.Domain.Authz.{Assignment, PermissionRow, Project, RolePermission, RoleRow}
use opentrusty.Domain.Errors.{Error, database, entropy, is_panic, protocol}
use opentrusty.Domain.Identity.{Credentials, User}
use opentrusty.Domain.Oauth2.{AccessToken, AuthorizationCode, Claims, Client, Key, RefreshToken}
use opentrusty.Domain.Sessions.{SessionRow}
use opentrusty.Domain.Tenants.{TenantRow}

-- What the program calls outside its own code. The n-th call of the program out of itself (a
-- statement, a reading of the clock, an identifier, a read of random bytes) is answered by the
-- n-th entry. `outage n` says that the n-th call, a statement, fails for a reason that the tables
-- do not show; `no_entropy` is the same for a read of random bytes. Times are nanoseconds.
pub record Env : Type 0 where
  pub clock : ℕ → ℕ
  pub outage : ℕ → Bool
  pub uuid : ℕ → String
  pub random : ℕ → ℕ → List ℕ
  pub no_entropy : ℕ → Bool
  pub sha256 : String → List ℕ
  pub sha256_bytes : List ℕ → List ℕ
  pub base64_raw_url : List ℕ → String
  pub base64_url : List ℕ → String
  pub base64_raw_std : List ℕ → String
  pub base64_raw_std_decode : String → Option (List ℕ)
  -- the argon2 library: password, salt, iterations, memory, parallelism, length of the key
  pub argon2id : String → List ℕ → ℕ → ℕ → ℕ → ℕ → List ℕ
  -- the JWT library: a signed token for a key id and claims, or a failure
  pub sign_rs256 : String → Claims → Option String

-- `time.Second`
abbrev pub second : ℕ
second = 1_000_000_000

-- What a column of the type TIMESTAMP keeps of a time: the microseconds.
abbrev pub stored_time : ℕ → ℕ
stored_time t = t / 1000 * 1000

-- The tables of the database, the audit log, and the number of calls made so far.
pub record World : Type 0 where
  pub events : ℕ
  pub sessions : List SessionRow
  pub tenants : List TenantRow
  pub users : List User
  pub credentials : List Credentials
  pub roles : List RoleRow
  pub permissions : List PermissionRow
  pub role_permissions : List RolePermission
  pub assignments : List Assignment
  pub clients : List Client
  pub codes : List AuthorizationCode
  pub access_tokens : List AccessToken
  pub refresh_tokens : List RefreshToken
  pub projects : List Project
  pub keys : List Key
  pub audit_log : List Event

pub data Result (A : Type 0) : Type 0 where
  ok : A → Result A
  err : Error → Result A

-- The code of a protocol error.
abbrev pub error_code : {A : Type 0} → Result A → Option String
error_code (err (protocol e)) = some e.code
error_code _ = none

-- What was written before an error stays written.
abbrev pub M : Type 0 → Type 0
M A = World → Result A × World

infixl 5 ◌>>=◌ ◌>>◌
abbrev pub ◌>>=◌ : {A B : Type 0} → M A → (A → M B) → M B
◌>>=◌ m f w = let (r, w') = m w in elim r [ ok a ↦ f a w' | err e ↦ (err e, w') ]

abbrev pub ◌>>◌ : {A B : Type 0} → M A → M B → M B
m >> k = m >>= λ _. k

module _ {A : Type 0} where
  abbrev pub pure : A → M A
  pure a w = (ok a, w)

  abbrev pub raise : Error → M A
  raise e w = (err e, w)

  -- `if err != nil { return f(err) }`
  abbrev pub or_raise : M A → (Error → Error) → M A
  or_raise m f w = let (r, w') = m w in elim r [ ok a ↦ (ok a, w') | err e ↦ (err (f e), w') ]

  -- `x, err := m`, with the error left to the caller.
  abbrev pub attempt : M A → M (Result A)
  attempt m w = let (r, w') = m w in (ok r, w')

  -- The same two of a call that may panic: a panic goes through.
  abbrev pub or_raise_unless_panic : M A → (Error → Error) → M A
  or_raise_unless_panic m f w =
      let (r, w') = m w in
      elim r [ ok a ↦ (ok a, w') | err e ↦ (err (if is_panic e then e else f e), w') ]

  abbrev pub attempt_unless_panic : M A → M (Result A)
  attempt_unless_panic m w =
      let (r, w') = m w in
      elim r [ ok a ↦ (ok (ok a), w') | err e ↦ (if is_panic e then err e else ok (err e), w') ]

  -- A query of one row: no row is the error `e`.
  abbrev pub one_row : Option A → Error → M A
  one_row none e w = (err e, w)
  one_row (some a) e w = (ok a, w)

abbrev pub gets : {A : Type 0} → (World → A) → M A
gets f w = (ok (f w), w)

abbrev pub modify : (World → World) → M (Unit {0})
modify f w = (ok tt, f w)

abbrev pub skip : M (Unit {0})
skip w = (ok tt, w)

-- `if test { return e }`
abbrev pub raise_if : Bool → Error → M (Unit {0})
raise_if test e w = (if test then err e else ok tt, w)

abbrev pub tick : World → World
tick w = record w { events = suc w.events }

-- `auditLogger.Log`
abbrev pub log : Event → M (Unit {0})
log e w = (ok tt, record w { audit_log = w.audit_log ++ e ∷ [] })

module _ ⦃env : Env⦄ where
  -- `time.Now()`
  abbrev pub time_now : M ℕ
  time_now w = (ok (env.clock w.events), tick w)

  -- A statement reaches the database, or fails.
  abbrev pub statement : M (Unit {0})
  statement w = (if env.outage w.events then err database else ok tt, tick w)

  -- The same for a statement that names CURRENT_TIMESTAMP or NOW(), by itself or in a trigger.
  abbrev pub stamped_statement : M ℕ
  stamped_statement w =
      (if env.outage w.events then err database else ok (env.clock w.events), tick w)

  -- `id.NewUUIDv7()`
  abbrev pub new_uuid : M String
  new_uuid w = (ok (env.uuid w.events), tick w)

  -- `rand.Read` into n bytes.
  abbrev pub read_entropy : ℕ → M (List ℕ)
  read_entropy n w =
      (if env.no_entropy w.events then err entropy else ok (env.random w.events n), tick w)

  -- `rand.Read` into n bytes, with its error ignored.
  abbrev pub read_random : ℕ → M (List ℕ)
  read_random n w = (ok (env.random w.events n), tick w)
