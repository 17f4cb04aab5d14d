-- ===== src/Identity/Bootstrap/Once.antt =====
-- What a run of `Bootstrap` (internal/identity/bootstrap.go) leaves.
use opentrusty.Store.Assignments
use opentrusty.Identity.Service as Accounts
use opentrusty.Prelude.{
  ==_iff, Bool, Bool-cases, String, any_row, any_row-append_new, any_row_of_none, arith, false, inl,
  inr, none, suc, true, ◌≡◌, ◌≢◌, ◌⊎◌,
}
use opentrusty.Domain.Authz.{Assignment, scope_platform}
use opentrusty.Domain.Identity.{User}
use opentrusty.Identity.Bootstrap.{assign_admin, bootstrap, find_or_create, platform_admin_id}
use opentrusty.World.{Env, World, ok, tick}
use opentrusty.World.Laws.{Outcome-cases}

-- The user with the role of the platform admin on the platform.
abbrev pub is_admin : Assignment → Bool
is_admin = Assignments.holds platform_admin_id scope_platform none

module _ ⦃env : Env⦄ where
  -- A run changes no table if the variable is empty or there is an admin.
  pub bootstrap_skips :
      (s : Accounts.Service) (email tenant : String) (w : World)
      → env.outage w.events ≡ false
      → (email ≡ "") ⊎ (any_row is_admin w.assignments ≡ true)
      → (bootstrap s email tenant w ≡ (ok tt, w)) ⊎ (bootstrap s email tenant w ≡ (ok tt, tick w))
  unfolding bootstrap Assignments.check_exists
  bootstrap_skips s email tenant w up h = ground (arith, ==_iff email "")

  assign_admin_lem :
      (tenant email : String) (u : User) (w w' : World)
      → assign_admin tenant email u w ≡ (ok tt, w')
      → any_row is_admin w'.assignments ≡ true
  unfolding assign_admin Assignments.grant
  assign_admin_lem tenant email u w w' h =
      let a : Assignment = record {
        id = env.uuid w.events;
        user_id = u.id;
        role_id = platform_admin_id;
        scope = scope_platform;
        scope_context_id = none;
        granted_at = env.clock (suc w.events);
        granted_by = "";
      } in
      ground (
        arith,
        any_row_of_none (Assignments.duplicates a) (λ r. ground arith) w.assignments,
        any_row-append_new is_admin w.assignments a (ground arith),
      )

  -- A bootstrap that succeeds for an address that is not empty leaves a platform admin, and then
  -- the next one, for any address that is not empty, succeeds and changes nothing but the count of
  -- calls, if its statement does not fail.
  pub bootstrap_once :
      (s : Accounts.Service) (email tenant email₂ tenant₂ : String) (w w' : World)
      → email ≢ ""
      → email₂ ≢ ""
      → bootstrap s email tenant w ≡ (ok tt, w')
      → env.outage w'.events ≡ false
      → (any_row is_admin w'.assignments ≡ true)
        × (bootstrap s email₂ tenant₂ w' ≡ (ok tt, tick w'))
  unfolding bootstrap Assignments.check_exists
  bootstrap_once s email tenant email₂ tenant₂ w w' e e₂ h up =
      elim (Bool-cases (any_row is_admin w.assignments)) [
        | inl some_admin ↦ ground (arith, ==_iff email "", ==_iff email₂ "")
        | inr no_admin ↦ elim (Outcome-cases (find_or_create s tenant email (tick w))) [
          | inr (x, v, f) ↦ absurd (ground (arith, ==_iff email ""))
          | inl (u, v, f) ↦
              ground
                (arith, ==_iff email "", ==_iff email₂ "", assign_admin_lem tenant email u v w')
        ]
      ]
