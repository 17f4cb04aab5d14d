-- ===== src/Oauth2/Exchange/Race.antt =====
-- Two exchanges of one code that interleave (internal/oauth2/service.go and
-- internal/store/postgres/code_repository.go).
use opentrusty.Store.Codes
use opentrusty.Prelude.{
  ==_iff, String, any_row, any_row-find_row, arith, false, find_row, find_row-update_rows, inl, inr,
  refl, some, suc, sym, true, ◌≡◌, ◌≤◌,
}
use opentrusty.Domain.Errors.{invalid_grant, new_error, server_error}
use opentrusty.Domain.Oauth2.{AuthorizationCode, TokenRequest}
use opentrusty.Oauth2.Exchange.{check_code, redeem_code}
use opentrusty.Oauth2.Exchange.Checks.{Matches, redeem_code_lem}
use opentrusty.Oauth2.Exchange.Complete.{redeem_complete}
use opentrusty.World.{Env, M, World, ok, or_raise, pure, tick, ◌>>=◌, ◌>>◌}
use opentrusty.World.Laws.{IsCalm, Outcome-cases}

module _ ⦃env : Env⦄ where
  -- Steps 3 and 4 of an exchange: the code is found and checked, and not yet marked.
  unfoldable pub find_code : TokenRequest → M AuthorizationCode
  find_code req = do
    code ←
        or_raise (Codes.get_by_code req.code)
          (λ _. new_error invalid_grant "authorization code not found")
    check_code req code
    pure code

  -- Step 5: the code is marked.
  unfoldable pub mark_code : String → M (Unit {0})
  mark_code code =
      or_raise (Codes.mark_as_used code)
        (λ _. new_error server_error "failed to invalidate authorization code")

  -- An exchange that is not interrupted does the one after the other.
  redeem_code-find_code :
      (req : TokenRequest) (w : World)
      → redeem_code req w ≡ (do code ← find_code req; mark_code req.code; pure code) w
  unfolding redeem_code find_code mark_code
  redeem_code-find_code req w = elim (Outcome-cases (Codes.get_by_code req.code w)) [
    | inr (x, u, e) ↦ ground arith
    | inl (code, u, e) ↦ elim (Outcome-cases (check_code req code u)) [
      | inr (x, v, f) ↦ ground arith
      | inl (t, v, f) ↦ ground arith
    ]
  ]

  find_code_complete :
      (req : TokenRequest) (code : AuthorizationCode) (w : World)
      → IsCalm env
      → find_row (Codes.has_code req.code) w.codes ≡ some code
      → code.is_used ≡ false
      → env.clock (suc w.events) ≤ code.expires_at
      → Matches req code
      → find_code req w ≡ (ok code, tick (tick w))
  unfolding find_code check_code Codes.get_by_code
  find_code_complete req code w calm f unused live m = ground (
    arith,
    calm w.events,
    ==_iff code.client_id req.client_id,
    ==_iff code.redirect_uri req.redirect_uri,
    ==_iff code.code_challenge "",
  )

  mark_code_complete :
      (code : String) (w : World)
      → IsCalm env
      → any_row (Codes.has_code code) w.codes ≡ true
      → (mark_code code w).0 ≡ ok tt
  unfolding mark_code Codes.mark_as_used
  mark_code_complete code w calm h = ground (arith, calm (suc w.events))

  -- A request that finds an unused code before it expires has the code; if now another one redeems
  -- it, the first can mark it all the same, so that both go on to issue tokens. No statement fails.
  pub redeem_twice :
      (req other : TokenRequest) (code : AuthorizationCode) (w : World)
      → IsCalm env
      → find_row (Codes.has_code req.code) w.codes ≡ some code
      → other.code ≡ req.code
      → code.is_used ≡ false
      → env.clock (suc w.events) ≤ code.expires_at
      → env.clock (suc (suc (suc w.events))) ≤ code.expires_at
      → Matches req code
      → Matches other code
      → (u v : World) × (find_code req w ≡ (ok code, u))
        × (redeem_code other u ≡ (ok code, v))
        × ((mark_code req.code v).0 ≡ ok tt)
  redeem_twice req other code w calm f same unused live live₂ m m₂ =
      let u = tick (tick w) in
      let g : find_row (Codes.has_code other.code) u.codes ≡ some code = rw same f in
      let (v, redeemed, n, tokens) = redeem_complete other code u calm g unused live₂ m₂ in
      let (h₀, h₁, h₂, h₃, spent, h₄) = redeem_code_lem other u v code redeemed in
      let t = env.clock (suc (suc u.events)) in
      let stays =
        find_row-update_rows (Codes.has_code other.code) (Codes.has_code other.code) (Codes.mark t)
          (λ r. refl) u.codes code g in
      let there : any_row (Codes.has_code req.code) v.codes ≡ true =
        rw spent (rw (sym same) (any_row-find_row (Codes.has_code other.code) _ _ stays)) in
      (
        u,
        v,
        find_code_complete req code w calm f unused live m,
        redeemed,
        mark_code_complete req.code v calm there,
      )
