-- ===== src/Http/Clients/Secrets.antt =====
-- What becomes of the secret that `RegenerateClientSecret`
-- (internal/transport/http/oauth2_client_handler.go) hands out.
use opentrusty.Store.Clients
use opentrusty.Prelude.{
  Bool-cases, String, arith, find_row, find_row-update_rows, if◌then◌else◌, inl, inr, refl, some,
  suc, update_rows, ◌==◌, ◌≡◌, ◌⊎◌,
}
use opentrusty.Domain.Oauth2.{Client}
use opentrusty.Http.{Context}
use opentrusty.Http.Clients.{own_client, regenerate_client_secret, rotate_secret}
use opentrusty.Oauth2.Client.{generate_token, hash_token}
use opentrusty.Oauth2.Service.{get_client, update_client}
use opentrusty.World.{Env, World, tick}
use opentrusty.World.Laws.{Outcome-cases}

-- The client is stored with the hash of its secret.
abbrev pub HasHash : String → String → World → Type 0
HasHash client_id hash w =
    (r : Client) × (find_row (Clients.has_client_id client_id) w.clients ≡ some r)
    × (r.client_secret_hash ≡ hash)

module _ ⦃env : Env⦄ where
  update_client_clients :
      (c : Client) (w : World)
      → let w' = (update_client c w).1 in
        (w'.clients ≡ w.clients)
        ⊎ (w'.clients
            ≡ update_rows
                (Clients.has_id c.id)
                (Clients.overwrite c (env.clock (suc w.events)))
                w.clients)
  unfolding update_client Clients.update
  update_client_clients c w = ground arith

  update-HasHash :
      (client_id hash : String) (c : Client) (w : World)
      → HasHash client_id hash w
      → HasHash client_id hash (update_client c w).1
  update-HasHash client_id hash c w (r, f, same) = elim (update_client_clients c w) [
    | inl e ↦ (r, rw e f, same)
    | inr e ↦
        let t = env.clock (suc w.events) in
        (
          (if Clients.has_id c.id r then Clients.overwrite c t r else r),
          rw e (
              find_row-update_rows (Clients.has_client_id client_id) (Clients.has_id c.id)
                (Clients.overwrite c t) (λ q. refl) w.clients r f),
          ground arith,
        )
  ]

  rotate-HasHash :
      (client_id hash : String) (c : Context) (client : Client) (id : String) (w : World)
      → HasHash client_id hash w
      → HasHash client_id hash (rotate_secret c client id w).1
  unfolding rotate_secret generate_token
  rotate-HasHash client_id hash c client id w h =
      let secret = env.base64_raw_url (env.random w.events 32) in
      let changed = record client { client_secret_hash = hash_token secret } in
      let (r, f, same) = update-HasHash client_id hash changed (tick w) h in
      elim (Outcome-cases (update_client changed (tick w))) [
        | inl (x, u, e) ↦ (r, ground arith, same)
        | inr (x, u, e) ↦ (r, ground arith, same)
      ]

  own_client_keeps : (c : Context) (id : String) (w : World) → (own_client c id w).1 ≡ tick w
  unfolding own_client get_client Clients.get_by_id
  own_client_keeps c id w = ground arith

  -- Whatever the regeneration of a secret answers, each client keeps the hash of the secret that it
  -- had: the new secret is not stored.
  pub regenerate-HasHash :
      (client_id hash : String) (c : Context) (id : String) (w : World)
      → HasHash client_id hash w
      → HasHash client_id hash (regenerate_client_secret c id w).1
  unfolding regenerate_client_secret
  regenerate-HasHash client_id hash c id w h =
      let k = own_client_keeps c id w in
      elim (Outcome-cases (own_client c id w)) [
        | inr (x, u, e) ↦ (h.0, ground arith, h.2)
        | inl (inr refused, u, e) ↦ (h.0, ground arith, h.2)
        | inl (inl client, u, e) ↦ elim (Bool-cases (client.token_endpoint_auth_method == "none")) [
          | inl public ↦ (h.0, ground arith, h.2)
          | inr confidential ↦
              let (r, f, same) = rotate-HasHash client_id hash c client id (tick w) h in
              (r, ground arith, same)
        ]
      ]
