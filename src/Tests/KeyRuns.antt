-- ===== src/Tests/KeyRuns.antt =====
-- Two keys, a message that is encrypted, and a record for two handlers.
use opentrusty.Store.Keys
use opentrusty.Prelude.{
  Bool, List, Option, String, [], find_rows, ltb, refl, some, true, ℕ, ◌+◌, ◌∷◌, ◌≡◌,
}
use opentrusty.Audit.{Attr}
use opentrusty.Domain.Oauth2.{Key}
use opentrusty.Logging.{Level, fanout_handle, info_level}
use opentrusty.Oauth2.Encryption.{Gcm, decrypt, decrypt-encrypt, encrypt}
use opentrusty.Store.Keys.Newest.{IsIn, all_older, get_active_key_lem}
use opentrusty.Tests.Scene.{demo, scene}
use opentrusty.World.{World, ok, tick}

abbrev signing_key : String → ℕ → Key
signing_key id created = record {
  id = id;
  kind = "RSA";
  algorithm = "RS256";
  public_key = "";
  private_key_encrypted = [];
  created_at = created;
  expires_at = 200;
}

abbrev two_keys : World
two_keys = record scene { keys = signing_key "k1" 5 ∷ signing_key "k2" 9 ∷ [] }

get_active_key_lem_example :
    IsIn (signing_key "k2" 9) two_keys.keys
    × (Keys.is_valid_at (demo.clock two_keys.events) (signing_key "k2" 9) ≡ true)
    × (all_older
          (signing_key "k2" 9)
          (find_rows (Keys.is_valid_at (demo.clock two_keys.events)) two_keys.keys)
        ≡ true)
unfolding Keys.get_active_key Keys.newest_first Keys.insert_newest
get_active_key_lem_example =
    get_active_key_lem ⦃env = demo⦄ (signing_key "k2" 9) two_keys (tick (tick two_keys)) refl

-- A cipher that writes the text behind the nonce.
abbrev plain_gcm : Gcm
plain_gcm = record {
  nonce_size = 2;
  seal = λ nonce bytes. bytes;
  open_sealed = λ nonce bytes. some bytes;
}

abbrev any_key : List ℕ → Option Gcm
any_key key = some plain_gcm

decrypt-encrypt_example :
    decrypt ⦃env = demo⦄ any_key [] (0 ∷ 2 ∷ 7 ∷ 8 ∷ []) scene ≡ (ok (7 ∷ 8 ∷ []), scene)
unfolding encrypt
decrypt-encrypt_example =
    decrypt-encrypt ⦃env = demo⦄ any_key plain_gcm [] (7 ∷ 8 ∷ []) (0 ∷ 2 ∷ 7 ∷ 8 ∷ []) scene
      (tick scene) scene refl (λ nonce bytes. refl) refl refl

-- A handler is the list of its levels, and its state the number of records.
abbrev counts : ℕ → Level → List Attr → ℕ → ℕ
counts h level attrs s = s + h

abbrev is_positive : ℕ → Level → Bool
is_positive h level = ltb 0 h

fanout_handle_test :
    fanout_handle is_positive counts (λ h attrs. h) (0 ∷ 3 ∷ 5 ∷ []) info_level [] 1 ≡ 9
unfolding fanout_handle
fanout_handle_test = refl
