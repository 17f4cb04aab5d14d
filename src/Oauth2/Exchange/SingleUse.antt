-- ===== src/Oauth2/Exchange/SingleUse.antt =====
-- A code that is presented again, after other calls of the service (`ExchangeCodeForToken` of
-- internal/oauth2/service.go).
use opentrusty.Store.Codes
use opentrusty.Prelude.{
  String, [], ap, arith, find_row, find_row-append_old, find_row-update_rows, find_row_passes,
  if◌then◌else◌, refl, some, suc, true, ◌∷◌, ◌≡◌, ◌≢◌,
}
use opentrusty.Domain.Oauth2.{AuthorizationCode, AuthorizeRequest, TokenRequest, TokenResponse}
use opentrusty.Oauth2.Authorize.{create_authorization_code}
use opentrusty.Oauth2.Exchange.{exchange_code_for_token}
use opentrusty.Oauth2.Exchange.Changes.{
  Change, added, authorize_Change, exchange_Change, marked, nothing, refresh_keep, revoke_keep,
}
use opentrusty.Oauth2.Exchange.Grant.{exchange_code_for_token_lem}
use opentrusty.Oauth2.Refresh.{refresh_access_token}
use opentrusty.Oauth2.Service.{Service, revoke_refresh_token}
use opentrusty.World.{Env, World, ok}

-- The code is stored, and used.
abbrev pub IsSpent : String → World → Type 0
IsSpent code w =
    (r : AuthorizationCode) × (find_row (Codes.has_code code) w.codes ≡ some r) × (r.is_used ≡ true)

Change-IsSpent : (code : String) (w w' : World) → Change w w' → IsSpent code w → IsSpent code w'
Change-IsSpent code w w' (nothing e) (r, f, u) = (r, rw e f, u)
Change-IsSpent code w w' (added c e) (r, f, u) =
    (r, rw e (find_row-append_old (Codes.has_code code) w.codes (c ∷ []) r f), u)
Change-IsSpent code w w' (marked other t e) (r, f, u) = (
  (if Codes.has_code other r then Codes.mark t r else r),
  rw e (
      find_row-update_rows (Codes.has_code code) (Codes.has_code other) (Codes.mark t) (λ q. refl)
        w.codes r f),
  ground arith,
)

-- One call of the service, however it ends, or anything that leaves the codes alone.
pub data Step ⦃env : Env⦄ (w w' : World) : Type 0 where
  authorize :
      (req : AuthorizeRequest) (user : String)
      → w' ≡ (create_authorization_code req user w).1
      → Step w w'
  exchange :
      (s : Service) (req : TokenRequest) → w' ≡ (exchange_code_for_token s req w).1 → Step w w'
  refresh : (req : TokenRequest) → w' ≡ (refresh_access_token req w).1 → Step w w'
  revoke : (token client_id : String) → w' ≡ (revoke_refresh_token token client_id w).1 → Step w w'
  elsewhere : w'.codes ≡ w.codes → Step w w'

pub data Reach ⦃env : Env⦄ (w : World) : World → Type 0 where
  here : Reach w w
  then_step : {u v : World} → Reach w u → Step u v → Reach w v

module _ ⦃env : Env⦄ where
  Step-Change : {w w' : World} → Step w w' → Change w w'
  Step-Change {w} (authorize req user e) = rw e (authorize_Change req user w)
  Step-Change {w} (exchange s req e) = rw e (exchange_Change s req w)
  Step-Change {w} (refresh req e) = nothing (rw e (refresh_keep req w))
  Step-Change {w} (revoke token client_id e) = nothing (rw e (revoke_keep token client_id w))
  Step-Change (elsewhere e) = nothing e

  Step-IsSpent : (code : String) {w w' : World} → Step w w' → IsSpent code w → IsSpent code w'
  Step-IsSpent code {w} {w'} st h = Change-IsSpent code w w' (Step-Change st) h

  Reach-IsSpent : (code : String) {w w' : World} → Reach w w' → IsSpent code w → IsSpent code w'
  Reach-IsSpent code here h = h
  Reach-IsSpent code (then_step r st) h = Step-IsSpent code st (Reach-IsSpent code r h)

  exchange-IsSpent :
      (s : Service) (req : TokenRequest) (w w' : World) (resp : TokenResponse)
      → exchange_code_for_token s req w ≡ (ok resp, w')
      → IsSpent req.code w'
  exchange-IsSpent s req w w' resp h =
      let (client, code, row, x) = exchange_code_for_token_lem s req w w' resp h in
      let t = env.clock (suc (suc (suc w.events))) in
      (
        (if Codes.has_code req.code code then Codes.mark t code else code),
        rw x.spent (
            find_row-update_rows (Codes.has_code req.code) (Codes.has_code req.code) (Codes.mark t)
              (λ q. refl) w.codes code x.found),
        ground (arith, find_row_passes (Codes.has_code req.code) w.codes code x.found),
      )

  -- After a code was exchanged, and any calls of the service after that, no exchange of the same
  -- code succeeds, whoever asks.
  pub exchange_once :
      (s s₂ : Service) (req req₂ : TokenRequest) (w w' v v' : World) (resp resp₂ : TokenResponse)
      → exchange_code_for_token s req w ≡ (ok resp, w')
      → Reach w' v
      → req₂.code ≡ req.code
      → exchange_code_for_token s₂ req₂ v ≢ (ok resp₂, v')
  exchange_once s s₂ req req₂ w w' v v' resp resp₂ h r e h₂ =
      let (q, f, u) = Reach-IsSpent req.code r (exchange-IsSpent s req w w' resp h) in
      let (client, code, row, x) = exchange_code_for_token_lem s₂ req₂ v v' resp₂ h₂ in
      ground (arith, ap (λ c. find_row (Codes.has_code c) v.codes) e)
