-- ===== src/Auth/Calls/ApiKeys.antt =====
-- What the calls of the service can make of an API key.
use myference.Prelude.{
  ℕ, String, Bool, true, false, ◌≢◌, Option, none, some, List, [], ◌∷◌, ◌≡◌, refl, ap, find?, any,
  str_eq, eq_iff, arith, is_empty, Option-cases, inl, inr, if◌then◌else◌,
}
use myference.Prelude.Result.{ok, err, Result-cases}
use myference.Auth.Tables.{
  scope_denied, ApiKeyScope, KeyRow, AuthDb, Primitives, is_null, find?-update_where, any-find?,
  find?-passes,
}
use myference.Auth.Credentials.{split_credential, credential, has_no_dot, split-credential}
use myference.Auth.Devices.{
  Machine, DeviceAuthorization, insert_device, create_device_authorization,
  approve_device_authorization, exchange_device_authorization,
}
use myference.Auth.Machines.{revoke_machine}
use myference.Auth.Exchange.{exchange-Exchanged, write_machine-keeps}
use myference.Auth.Keys.{
  ApiKey, ApiKeyPrincipal, is_key, allows, create_api_key, revoke_api_key, authorize_row,
  authorize_parts, authorize_api_key,
}
use myference.Auth.Calls.{
  AuthCall, create_device, approve, exchange, revoke_machine_call, create_key, revoke_key,
  perform_auth_call, perform_auth_calls,
}

abbrev pub key_of : String → AuthDb → Option KeyRow
key_of id db = find? (is_key id) db.keys

-- Whether a call revokes the key.
abbrev pub revokes : String → AuthCall → Bool
revokes id (revoke_key now other) = str_eq id other
revokes id c = false

-- What is left of the row of a key after a call: itself, or, if the call revokes it, a revoked row.
abbrev KeptKey : String → KeyRow → Bool → AuthDb → Type 0
KeptKey id row revoked db =
    (row' : KeyRow) × (key_of id db ≡ some row')
    × (revoked ≡ false → row' ≡ row)
    × (is_null row.revoked_at ≡ false → is_null row'.revoked_at ≡ false)

same_keys :
    (id : String) (row : KeyRow) (revoked : Bool) (db db' : AuthDb)
    → db'.keys ≡ db.keys
    → key_of id db ≡ some row
    → KeptKey id row revoked db'
same_keys id row revoked db db' same found = (row, ground (arith, same), λ h. refl, λ h. h)

module _ (lib : Primitives) where
  device-keys :
      (now : ℕ) (code user name signer : String) (lifetime : ℕ) (db : AuthDb)
      (r : DeviceAuthorization × AuthDb)
      → create_device_authorization lib now code user name signer lifetime db ≡ ok r
      → r.1.keys ≡ db.keys
  unfolding create_device_authorization insert_device
  device-keys now code user name signer lifetime db r h =
      elim (Option-cases (lib.hex_address signer)) [
        | inl bad ↦ absurd (ground arith)
        | inr (address, fine) ↦ ground arith
      ]

  approve-keys :
      (now : ℕ) (user account : String) (db db' : AuthDb)
      → approve_device_authorization lib now user account db ≡ ok db'
      → db'.keys ≡ db.keys
  unfolding approve_device_authorization
  approve-keys now user account db db' h = ground arith

  exchange-keys :
      (now : ℕ) (code fresh secret : String) (db : AuthDb) (r : Machine × String × AuthDb)
      → exchange_device_authorization lib now code fresh secret db ≡ ok r
      → r.2.keys ≡ db.keys
  exchange-keys now code fresh secret db r h =
      let x = exchange-Exchanged lib now code fresh secret db r h in
      let e = ap (λ (t : Machine × String × AuthDb). t.2.keys) x.result in
      ground (arith, e, (write_machine-keeps lib _ _ db x.between x.wrote).1)

  create_key-KeptKey :
      (new secret account : String) (scope : ApiKeyScope) (id : String) (row : KeyRow) (db : AuthDb)
      (r : ApiKey × AuthDb)
      → key_of id db ≡ some row
      → create_api_key lib new secret account scope db ≡ ok r
      → KeptKey id row false r.1
  unfolding create_api_key
  create_key-KeptKey new secret account scope id row db r found h =
      let fresh : any (is_key new) db.keys ≡ false = ground arith in
      let other : str_eq new id ≡ false =
        ground (arith, eq_iff new id, any-find? (is_key new) db.keys) in
      (row, ground (arith, other), λ h. refl, λ h. h)

  call-KeptKey :
      (id : String) (row : KeyRow) (db : AuthDb) (c : AuthCall)
      → key_of id db ≡ some row
      → KeptKey id row (revokes id c) (perform_auth_call lib db c)
  unfolding perform_auth_call revoke_machine revoke_api_key
  call-KeptKey id row db (create_device now code user name signer lifetime) found =
      elim (Result-cases (create_device_authorization lib now code user name signer lifetime db)) [
        | inr (e, bad) ↦ rw bad (same_keys id row false db db refl found)
        | inl (r, fine) ↦ rw fine (
            same_keys id row false db r.1 (device-keys now code user name signer lifetime db r fine)
              found)
      ]
  call-KeptKey id row db (approve now user account) found =
      elim (Result-cases (approve_device_authorization lib now user account db)) [
        | inr (e, bad) ↦ rw bad (same_keys id row false db db refl found)
        | inl (r, fine) ↦
            rw fine (same_keys id row false db r (approve-keys now user account db r fine) found)
      ]
  call-KeptKey id row db (exchange now code fresh secret) found =
      elim (Result-cases (exchange_device_authorization lib now code fresh secret db)) [
        | inr (e, bad) ↦ rw bad (same_keys id row false db db refl found)
        | inl (r, fine) ↦
            rw fine
              (same_keys id row false db r.2 (exchange-keys now code fresh secret db r fine) found)
      ]
  call-KeptKey id row db (revoke_machine_call now machine) found =
      same_keys id row false db (revoke_machine now machine db) refl found
  call-KeptKey id row db (create_key new secret account scope) found =
      elim (Result-cases (create_api_key lib new secret account scope db)) [
        | inr (e, bad) ↦ rw bad (same_keys id row false db db refl found)
        | inl (r, fine) ↦
            rw fine (create_key-KeptKey new secret account scope id row db r found fine)
      ]
  call-KeptKey id row db (revoke_key now other) found =
      let f = λ (k : KeyRow). record k { revoked_at = some now } in
      let e = find?-update_where (is_key id) (is_key other) f db.keys (λ k. refl) in
      let own = find?-passes (is_key id) db.keys row found in
      (
        if is_key other row then f row else row,
        ground (arith, e),
        ground (arith, own, eq_iff row.id id, eq_iff row.id other, eq_iff id other),
        ground arith,
      )

  calls-KeptKey :
      (id : String) (row : KeyRow) (db : AuthDb) (cs : List AuthCall)
      → key_of id db ≡ some row
      → KeptKey id row (any (revokes id) cs) (perform_auth_calls lib db cs)
  unfolding perform_auth_calls
  calls-KeptKey id row db [] found = same_keys id row false db db refl found
  calls-KeptKey id row db (c ∷ cs) found =
      let (next, there, same, gone) = call-KeptKey id row db c found in
      let (last, at_end, same', gone') =
        calls-KeptKey id next (perform_auth_call lib db c) cs there in
      (last, at_end, ground (arith, same, same'), λ h. gone' (gone h))

-- An API key that was created authorises, for as long as no call revokes it, exactly the requests
-- within its scope: the model is listed or no model is, the endpoint is listed, and the spend is at
-- most the maximum. Any other request is denied.
pub created_key_allows :
    (lib : Primitives) (id secret account : String) (scope : ApiKeyScope) (db : AuthDb)
    (key : ApiKey) (db' : AuthDb) (cs : List AuthCall) (model endpoint : String) (spend : ℕ)
    → has_no_dot id ≡ true
    → is_empty id ≡ false
    → is_empty secret ≡ false
    → create_api_key lib id secret account scope db ≡ ok (key, db')
    → any (revokes id) cs ≡ false
    → authorize_api_key lib key.token model endpoint spend (perform_auth_calls lib db' cs) ≡ (
        if allows scope model endpoint spend
        then ok (record { key_id = id; account_id = account; scope = scope })
        else err scope_denied)
unfolding create_api_key authorize_api_key authorize_parts authorize_row
created_key_allows lib id secret account scope db key db' cs model endpoint spend clean filled given
      created kept =
    let row : KeyRow = record {
      id = id;
      account_id = account;
      key_hash = lib.digest secret;
      scope = scope;
      revoked_at = none;
    } in
    let there : key_of id db' ≡ some row = ground (arith, eq_iff id id) in
    let (last, at_end, same, _) = calls-KeptKey lib id row db' cs there in
    let token : key.token ≡ credential id secret = ground arith in
    rw (token, split-credential id secret clean filled given, authorize_parts, at_end, same kept)
      (ground (arith, eq_iff (lib.digest secret) (lib.digest secret)))

-- A key that was revoked is accepted never again, whatever calls follow and whatever credential is
-- shown.
pub revoked_key_refused :
    (lib : Primitives) (now : ℕ) (id : String) (row : KeyRow) (db : AuthDb) (cs : List AuthCall)
    (token model endpoint : String) (spend : ℕ) (p : ApiKeyPrincipal)
    → key_of id db ≡ some row
    → authorize_api_key lib token model endpoint spend
        (perform_auth_calls lib (revoke_api_key now id db) cs)
      ≡ ok p
    → p.key_id ≢ id
unfolding revoke_api_key authorize_api_key authorize_parts authorize_row
revoked_key_refused lib now id row db cs token model endpoint spend p found accepted =
    let f = λ (k : KeyRow). record k { revoked_at = some now } in
    let db' = revoke_api_key now id db in
    let end_db = perform_auth_calls lib db' cs in
    let e = find?-update_where (is_key id) (is_key id) f db.keys (λ k. refl) in
    let own = find?-passes (is_key id) db.keys row found in
    let there : key_of id db' ≡ some (f row) = ground (arith, e) in
    let (last, at_end, _, gone) = calls-KeptKey lib id (f row) db' cs there in
    elim (Option-cases (split_credential token)) [
      | inl bad ↦ absurd (ground arith)
      | inr (parts, cut) ↦ elim (Option-cases (key_of parts.0 end_db)) [
        | inl missing ↦ absurd (ground arith)
        | inr (k, there') ↦ λ same.
            let named = find?-passes (is_key parts.0) end_db.keys k there' in
            ground (arith, gone refl, eq_iff k.id parts.0, eq_iff k.id id)
      ]
    ]
