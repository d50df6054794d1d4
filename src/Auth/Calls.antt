-- ===== src/Auth/Calls.antt =====
-- server/internal/auth/device.go: sequences of calls of the service.
pub mod DeviceCodes
pub mod ApiKeys
pub mod Machines
pub mod Revocation
use myference.Prelude.{ℕ, String, List, [], ◌∷◌, if◌then◌else◌}
use myference.Prelude.Result.{Result, ok, err}
use myference.Auth.Tables.{AuthError, ApiKeyScope, AuthDb, Primitives}
use myference.Auth.Devices.{
  create_device_authorization, approve_device_authorization, exchange_device_authorization,
}
use myference.Auth.Machines.{revoke_machine}
use myference.Auth.Keys.{create_api_key, revoke_api_key}

-- A call that may write, with the time at which it is made and the texts that it draws.
pub data AuthCall : Type 0 where
  create_device : ℕ → String → String → String → String → ℕ → AuthCall
  approve : ℕ → String → String → AuthCall
  exchange : ℕ → String → String → String → AuthCall
  revoke_machine_call : ℕ → String → AuthCall
  create_key : String → String → String → ApiKeyScope → AuthCall
  revoke_key : ℕ → String → AuthCall

-- What is left of the tables: a call that fails leaves them as they were.
abbrev pub written : {A : Type 0} → (A → AuthDb) → AuthDb → Result AuthError A → AuthDb
written f db (ok a) = f a
written f db (err e) = db

module _ (lib : Primitives) where
  unfoldable pub perform_auth_call : AuthDb → AuthCall → AuthDb
  perform_auth_call db (create_device now code user name signer lifetime) =
      written (λ r. r.1) db (create_device_authorization lib now code user name signer lifetime db)
  perform_auth_call db (approve now user account) =
      written (λ r. r) db (approve_device_authorization lib now user account db)
  perform_auth_call db (exchange now code fresh secret) =
      written (λ r. r.2) db (exchange_device_authorization lib now code fresh secret db)
  perform_auth_call db (revoke_machine_call now id) = revoke_machine now id db
  perform_auth_call db (create_key id secret account scope) =
      written (λ r. r.1) db (create_api_key lib id secret account scope db)
  perform_auth_call db (revoke_key now id) = revoke_api_key now id db

  unfoldable pub perform_auth_calls : AuthDb → List AuthCall → AuthDb
  perform_auth_calls db [] = db
  perform_auth_calls db (c ∷ cs) = perform_auth_calls (perform_auth_call db c) cs
