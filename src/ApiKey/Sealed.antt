-- ===== src/ApiKey/Sealed.antt =====
-- From the creation of an API key to a request that carries it.
use openapi_nestjs_auth_mong.Prelude.{
  if◌then◌else◌, Option-cases, ℕ, String, ◌≡◌, refl, sym, ap, ◌∙◌, subst, ◌≢◌, inl, inr, Bool, true,
  false, some, List, arith, ◌==◌, eq_iff, eq_refl,
}
use openapi_nestjs_auth_mong.Documents.{ApiKey}
use openapi_nestjs_auth_mong.Database.{IsKeyed}
use openapi_nestjs_auth_mong.Platform.{JsonValue, HashedData, Platform}
use openapi_nestjs_auth_mong.Handler.{World, returns, Handler, ◌>>=◌, ◌>>◌, pure, at_moment, stored}
use openapi_nestjs_auth_mong.Handler.Rules.{past_bind}
use mathlib.Core.Option
use openapi_nestjs_auth_mong.Helper.Text.{joined}
use openapi_nestjs_auth_mong.Helper.Split.{lacks}
use openapi_nestjs_auth_mong.Helper.Split.Laws.{split-joined}
use openapi_nestjs_auth_mong.ApiKey.Service.{
  ApiKeyCreate, ApiKeySecrets, by_key, create, create_hash_api_key, encrypt_api_key,
  decrypt_api_key, or_make, create_key, create_secret, create_passphrase, create_encryption_key,
  save_api_key,
}
use openapi_nestjs_auth_mong.ApiKey.Strategy.{Verified, api_key_guard}
use openapi_nestjs_auth_mong.ApiKey.Strategy.Laws.{SettlesFirst, api_key_guard_iff}

-- What a client that knows the key and was told its secrets sends in the header X-API-KEY.
abbrev pub client_hashed : Platform → String → ApiKeySecrets → ℕ → HashedData
unfolding create_hash_api_key
client_hashed p key s timestamp = record {
  key = some (JsonValue.text key);
  timestamp = some (JsonValue.number timestamp);
  hash = some (JsonValue.text (create_hash_api_key p key s.secret));
}

abbrev pub client_header : Platform → String → ApiKeySecrets → ℕ → String
unfolding encrypt_api_key client_hashed
client_header p key s timestamp =
    joined key (encrypt_api_key p (client_hashed p key s timestamp) s.encryption_key s.passphrase)

-- What is relied on of AES, of its text in base64, and of JSON, for what is sealed: it is decrypted
-- and parsed again, and the text has no colon.
pub record Seals (p : Platform) (d : HashedData) (key iv : String) : Type 0 where
  pub opens :
      Option.bind (p.aes_decrypt (some (p.aes_encrypt d key iv)) key iv) p.json_parse ≡ some d
  pub base64 : lacks b':' (p.aes_encrypt d key iv) ≡ true

-- The casts of the key's schema trim the four texts, and keep the state.
pub record TrimsApiKey (trim : String → String) (cast : ApiKey → ApiKey) : Type 0 where
  pub trims_key : (k : ApiKey) → (cast k).key ≡ trim k.key
  pub trims_hash : (k : ApiKey) → (cast k).hash ≡ trim k.hash
  pub trims_encryption_key : (k : ApiKey) → (cast k).encryption_key ≡ trim k.encryption_key
  pub trims_passphrase : (k : ApiKey) → (cast k).passphrase ≡ trim k.passphrase
  pub keeps_is_active : (k : ApiKey) → (cast k).is_active ≡ k.is_active

-- Nothing of the key, its hash and its secrets is trimmed off.
pub record IsUnpadded (p : Platform) (trim : String → String) (key : String) (s : ApiKeySecrets)
    : Type 0 where
  pub unpadded_key : trim key ≡ key
  pub unpadded_hash : trim (p.sha256 (joined key s.secret)) ≡ p.sha256 (joined key s.secret)
  pub unpadded_encryption_key : trim s.encryption_key ≡ s.encryption_key
  pub unpadded_passphrase : trim s.passphrase ≡ s.passphrase

-- The stored key answers to the secrets that were told.
pub record IsTold (p : Platform) (key : String) (s : ApiKeySecrets) (k : ApiKey) : Type 0 where
  pub same_key : k.key ≡ key
  pub same_hash : k.hash ≡ p.sha256 (joined key s.secret)
  pub same_encryption_key : k.encryption_key ≡ s.encryption_key
  pub same_passphrase : k.passphrase ≡ s.passphrase
  pub active : k.is_active ≡ true

module _ (p : Platform) {trim : String → String} {cast : ApiKey → ApiKey}
    (keys : IsKeyed (λ (k : ApiKey). k.id) cast p.api_keys) (trims : TrimsApiKey trim cast) where
  -- the end of `create`, once the four texts are there
  abbrev finish : ApiKeyCreate → String → String → String → String → Handler ApiKeySecrets
  finish c key secret passphrase encryption_key = do
    i ← at_moment p p.new_object_id
    save_api_key p (record {
      id = i;
      name = c.name;
      description = c.description;
      key = key;
      hash = create_hash_api_key p key secret;
      encryption_key = encryption_key;
      passphrase = passphrase;
      is_active = true;
    })
    pure (record {
      id = i;
      secret = secret;
      passphrase = passphrase;
      encryption_key = encryption_key;
    })

  Told : String → ApiKeySecrets → World → Type 0
  Told key s w = (k : ApiKey) × (p.api_keys.find_by_id s.id w.api_keys ≡ some k) × IsTold p key s k

  finish-Told :
      (c : ApiKeyCreate) (key secret passphrase encryption_key : String) (w : World)
      (s : ApiKeySecrets)
      → IsUnpadded p trim key s
      → (finish c key secret passphrase encryption_key w).0 ≡ returns s
      → Told key s (finish c key secret passphrase encryption_key w).1
  unfolding create_hash_api_key Told
  finish-Told c key secret passphrase encryption_key w s plain h =
      let made : ApiKey = record {
        id = p.new_object_id w.moment;
        name = c.name;
        description = c.description;
        key = key;
        hash = p.sha256 (joined key secret);
        encryption_key = encryption_key;
        passphrase = passphrase;
        is_active = true;
      } in
      elim (Option-cases (p.api_keys.save made w.api_keys)) [
        | inl refused ↦ ground arith
        | inr (ks, saved) ↦ (
          cast made,
          ground (arith, keys.saved made w.api_keys saved s.id, eq_refl s.id),
          record {
            same_key = trims.trims_key made ∙ plain.unpadded_key;
            same_hash = ground (arith, trims.trims_hash made, plain.unpadded_hash);
            same_encryption_key =
                ground (arith, trims.trims_encryption_key made, plain.unpadded_encryption_key);
            same_passphrase =
                ground (arith, trims.trims_passphrase made, plain.unpadded_passphrase);
            active = trims.keeps_is_active made;
          },
        )
      ]

  -- a key that is given is used; what `create` runs after it is
  abbrev with_key : ApiKeyCreate → String → Handler ApiKeySecrets
  unfolding create_secret create_passphrase create_encryption_key
  with_key c key = do
    secret ← or_make p c.secret (create_secret p)
    passphrase ← or_make p c.passphrase (create_passphrase p)
    encryption_key ← or_make p c.encryption_key (create_encryption_key p)
    finish c key secret passphrase encryption_key

  with_key-Told :
      (c : ApiKeyCreate) (key : String) (w : World) (s : ApiKeySecrets)
      → IsUnpadded p trim key s
      → (with_key c key w).0 ≡ returns s
      → Told key s (with_key c key w).1
  unfolding with_key
  with_key-Told c key w s plain h =
      let secret = past_bind _ s (or_make p c.secret (create_secret p)) w h in
      let w1 = (or_make p c.secret (create_secret p) w).1 in
      let passphrase = past_bind _ s (or_make p c.passphrase (create_passphrase p)) w1 secret.2 in
      let w2 = (or_make p c.passphrase (create_passphrase p) w1).1 in
      let encryption_key =
        past_bind _ s (or_make p c.encryption_key (create_encryption_key p)) w2 passphrase.2 in
      let w3 = (or_make p c.encryption_key (create_encryption_key p) w2).1 in
      subst (Told key s) (encryption_key.3 ∙ passphrase.3 ∙ secret.3)
        (finish-Told c key secret.0 passphrase.0 encryption_key.0 w3 s plain encryption_key.2)

  create-Told :
      (c : ApiKeyCreate) (key : String) (w : World) (s : ApiKeySecrets)
      → c.key ≡ some key
      → key ≢ ""
      → IsUnpadded p trim key s
      → (create p c w).0 ≡ returns s
      → Told key s (create p c w).1
  unfolding create
  create-Told c key w s given full plain h =
      let not_empty : (key == "") ≡ false = ground (arith, eq_iff key "") in
      let is : or_make p c.key (create_key p) ≡ pure key =
        ap (λ o. or_make p o (create_key p)) given
        ∙ ap (λ (b : Bool). if b then create_key p else pure key) not_empty in
      subst (λ m. ((m >>= with_key c) w).0 ≡ returns s → Told key s ((m >>= with_key c) w).1)
        (sym is) (with_key-Told c key w s plain) h

  -- A key that was created under a given text passes the guard. In secure mode, while the database
  -- answers and passport settles by the first call, AES and JSON undo themselves on what is
  -- sealed, the collection is keyed and its casts trim the texts, the key, its hash and the
  -- secrets have nothing to trim off, and the key has no colon and is found by its text: a client
  -- that encrypts the key, the hash of the key with its secret and the request's timestamp, not
  -- zero, under the secrets that `create` answered with, is let through as the key that was
  -- stored.
  pub create-api_key_guard :
      (settle : List Verified → Verified) (first : SettlesFirst settle) (c : ApiKeyCreate)
      (key : String) (w v : World) (s : ApiKeySecrets) (timestamp : ℕ) (x_timestamp : String)
      → Seals p (client_hashed p key s timestamp) s.encryption_key s.passphrase
      → p.secure_mode ≡ true
      → p.reachable v.moment ≡ true
      → c.key ≡ some key
      → key ≢ ""
      → IsUnpadded p trim key s
      → lacks b':' key ≡ true
      → (create p c w).0 ≡ returns s
      → v.api_keys ≡ (create p c w).1.api_keys
      → ((k : ApiKey)
          → p.api_keys.find_by_id s.id v.api_keys ≡ some k
          → p.api_keys.find_one (by_key p k.key) v.api_keys ≡ some k)
      → p.to_number x_timestamp ≡ some timestamp
      → timestamp ≢ 0
      → (k : ApiKey) × (p.api_keys.find_by_id s.id v.api_keys ≡ some k)
        × ((api_key_guard p settle false
              (some (client_header p key s timestamp))
              (some x_timestamp)
              v).0
            ≡ returns (some k))
  unfolding Told encrypt_api_key create_hash_api_key decrypt_api_key Option.bind
  create-api_key_guard settle first c key w v s timestamp x_timestamp seals secure up given full
        unpadded plain h same by_text reads nonzero =
      let (k, stored, told) = create-Told c key w s given full unpadded h in
      let now_is = ap (p.api_keys.find_by_id s.id) same ∙ stored in
      let hashed = client_hashed p key s timestamp in
      let parts =
        split-joined key (p.aes_encrypt hashed s.encryption_key s.passphrase) plain seals.base64 in
      (
        k,
        now_is,
        (api_key_guard_iff p settle first secure (client_header p key s timestamp)
              (some x_timestamp) v up k).1
            (record {
              decrypted = hashed;
              found =
                  ap (λ t. p.api_keys.find_one (by_key p t) v.api_keys)
                    (parts.0 ∙ sym told.same_key)
                  ∙ by_text k now_is;
              key_active = told.active;
              decrypts =
                  ap (λ o. decrypt_api_key p o k.encryption_key k.passphrase) parts.1
                  ∙ ap
                      (λ e.
                        decrypt_api_key p
                          (some (p.aes_encrypt hashed s.encryption_key s.passphrase)) e
                          k.passphrase)
                      told.same_encryption_key
                  ∙ ap
                      (decrypt_api_key p (some (p.aes_encrypt hashed s.encryption_key s.passphrase))
                        s.encryption_key)
                      told.same_passphrase
                  ∙ seals.opens;
              fits = record {
                timestamp = timestamp;
                same_key = ap (λ t. some (JsonValue.text t)) (sym parts.0);
                timestamp_is = reads;
                timestamp_ne_zero = nonzero;
                same_timestamp_as = refl;
                same_hash = ap (λ t. some (JsonValue.text t)) (sym told.same_hash);
              };
            }),
      )
