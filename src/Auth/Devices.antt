-- ===== src/Auth/Devices.antt =====
-- server/internal/auth/device.go: the device flow. A program asks for a device code, a customer
-- approves the user code that belongs to it, and the program exchanges the device code for the
-- token of a machine. Times are in nanoseconds. The random texts are arguments, in the order in
-- which they are drawn; a failure to draw them or to reach the database is not modelled.
use myference.Prelude.{
  ℕ, ◌+◌, ◌-◌, ◌%◌, String, Bool, not, ◌&&◌, ◌||◌, Option, none, some, List, ◌∷◌, find?, any,
  str_eq, is_blank, ltb, ◌==◌, if◌then◌else◌,
}
use myference.Prelude.Result.{Result, ok, err, ◌>>=◌}
use myference.Auth.Tables.{
  AuthError, authorization_pending, authorization_expired, authorization_consumed,
  invalid_credential, device_fields_required, constraint, DeviceRow, MachineRow, TokenRow, AuthDb,
  Primitives, contains, is_null, update_where,
}
use myference.Auth.Credentials.{credential}

-- `DeviceAuthorization`
pub record DeviceAuthorization : Type 0 where
  pub device_code : String
  pub user_code : String
  pub account_id : String
  pub signer_address : String
  pub expires_at : ℕ

pub record Machine : Type 0 where
  pub id : String
  pub account_id : String
  pub name : String
  pub signer_address : String

abbrev pub or_fail {ℓ} : {A : Type ℓ} {E : Type ℓ} → Option A → E → Result E A
or_fail none e = err e
or_fail (some a) e = ok a

-- The tests of the WHERE clauses and of the unique indexes.
abbrev pub has_code : String → DeviceRow → Bool
has_code hash row = str_eq row.device_code_hash hash

abbrev pub has_user_code : String → DeviceRow → Bool
has_user_code hash row = str_eq row.user_code_hash hash

abbrev pub has_name : String → String → MachineRow → Bool
has_name account name row = str_eq row.account_id account && str_eq row.name name

abbrev pub has_id : String → MachineRow → Bool
has_id id row = str_eq row.id id

abbrev pub has_machine : String → TokenRow → Bool
has_machine id row = str_eq row.machine_id id

-- What `PollDeviceAuthorization` makes of the row that it finds: the account and the expiry.
unfoldable pub poll_row : ℕ → Option DeviceRow → Result AuthError (String × ℕ)
poll_row now none = err invalid_credential
poll_row now (some row) =
    if not (ltb now row.expires_at)
    then err authorization_expired
    else if not (is_null row.exchanged_at)
    then err authorization_consumed
    else if is_null row.approved_at
    then err authorization_pending
    else or_fail row.account_id authorization_pending >>= λ account. ok (account, row.expires_at)

-- The rows that the UPDATE of `ApproveDeviceAuthorization` changes. `user_code_hash` is unique, so
-- there is one at most.
abbrev pub approvable : ℕ → String → DeviceRow → Bool
approvable now hash row =
    has_user_code hash row
    && is_null row.approved_at
    && is_null row.exchanged_at
    && ltb now row.expires_at

-- The id that the statement returns.
abbrev pub id_of : String → Option MachineRow → String
id_of fresh none = fresh
id_of fresh (some row) = row.id

-- INSERT INTO machine_tokens … ON CONFLICT (machine_id) DO UPDATE
abbrev pub write_token : String → String → List TokenRow → List TokenRow
write_token id hash tokens =
    if any (has_machine id) tokens
    then update_where (has_machine id) (λ row. record row { token_hash = hash; revoked_at = none })
        tokens
    else record { machine_id = id; token_hash = hash; revoked_at = none } ∷ tokens

-- The checks of `ExchangeDeviceAuthorization`: the row and its account.
unfoldable pub exchangeable : ℕ → Option DeviceRow → Result AuthError (DeviceRow × String)
exchangeable now none = err invalid_credential
exchangeable now (some row) =
    if not (is_null row.exchanged_at)
    then err authorization_consumed
    else if not (ltb now row.expires_at)
    then err authorization_expired
    else or_fail row.account_id authorization_pending >>= λ account. ok (row, account)

-- The machine of an exchange, with the id that it has before the INSERT.
abbrev pub drawn_machine : String → DeviceRow → String → Machine
drawn_machine fresh row account = record {
  id = fresh;
  account_id = account;
  name = row.machine_name;
  signer_address = row.signer_address;
}

abbrev pub returned_id : String → DeviceRow → String → AuthDb → String
returned_id fresh row account db =
    id_of fresh (find? (has_name account row.machine_name) db.machines)

module _ (lib : Primitives) where
  open lib use {digest, lower, hex_address}

  -- The rest of `CreateDeviceAuthorization`, with the checksummed address.
  unfoldable pub insert_device :
      ℕ
      → String
      → String
      → String
      → ℕ
      → String
      → AuthDb
      → Result AuthError (DeviceAuthorization × AuthDb)
  insert_device now device_code user_code machine_name lifetime signer db =
      let expires_at : ℕ = now - now % 1000 + lifetime in
      let row : DeviceRow = record {
        device_code_hash = digest device_code;
        user_code_hash = digest user_code;
        machine_name = machine_name;
        signer_address = signer;
        expires_at = expires_at;
        account_id = none;
        approved_at = none;
        exchanged_at = none;
      } in
      if any (has_code (digest device_code)) db.devices
        || any (has_user_code (digest user_code)) db.devices
      then err constraint
      else ok (
        record {
          device_code = device_code;
          user_code = user_code;
          account_id = "";
          signer_address = signer;
          expires_at = expires_at;
        },
        record db { devices = row ∷ db.devices },
      )

  -- `CreateDeviceAuthorization`; a lifetime below 0 is refused as 0 is.
  unfoldable pub create_device_authorization :
      ℕ
      → String
      → String
      → String
      → String
      → ℕ
      → AuthDb
      → Result AuthError (DeviceAuthorization × AuthDb)
  unfolding insert_device
  create_device_authorization now device_code user_code machine_name signer_address lifetime db =
      if is_blank machine_name || is_null (hex_address signer_address) || lifetime == 0
      then err device_fields_required
      else or_fail (hex_address signer_address) device_fields_required >>= λ signer.
          insert_device now device_code user_code machine_name lifetime signer db

  -- `PollDeviceAuthorization`
  unfoldable pub poll_device_authorization : ℕ → String → AuthDb → Result AuthError (String × ℕ)
  unfolding poll_row
  poll_device_authorization now device_code db =
      poll_row now (find? (has_code (digest device_code)) db.devices)

  -- `ApproveDeviceAuthorization`, with the user code in upper case.
  unfoldable pub approve_device_authorization :
      ℕ → String → String → AuthDb → Result AuthError AuthDb
  approve_device_authorization now user_code account_id db =
      if not (any (approvable now (digest user_code)) db.devices)
      then err invalid_credential
      else if not (contains db.accounts account_id)
      then err constraint
      else ok (record db {
        devices =
            update_where (approvable now (digest user_code))
              (λ row. record row { account_id = some account_id; approved_at = some now })
              db.devices;
      })

  -- Whether a machine other than `id` that is not revoked has the signer.
  abbrev pub signer_taken : String → String → MachineRow → Bool
  signer_taken id signer row =
      not (has_id id row)
      && is_null row.revoked_at
      && str_eq (lower row.signer_address) (lower signer)

  -- INSERT INTO machines … ON CONFLICT (account_id,name) DO UPDATE … RETURNING id. The unique
  -- index on the signers of the machines that are not revoked is the first test.
  unfoldable pub write_machine : String → Machine → AuthDb → Result AuthError AuthDb
  write_machine id m db =
      let renewed =
        update_where (has_name m.account_id m.name)
          (λ row. record row { signer_address = m.signer_address; revoked_at = none })
          db.machines in
      let row : MachineRow = record {
        id = m.id;
        account_id = m.account_id;
        name = m.name;
        signer_address = m.signer_address;
        revoked_at = none;
      } in
      if any (signer_taken id m.signer_address) db.machines
      then err constraint
      else if any (has_name m.account_id m.name) db.machines
      then ok (record db { machines = renewed })
      else if any (has_id m.id) db.machines || not (contains db.accounts m.account_id)
      then err constraint
      else ok (record db { machines = row ∷ db.machines })

  -- The writes of `ExchangeDeviceAuthorization` after that of the machine.
  abbrev pub write_exchanged : ℕ → String → String → String → AuthDb → AuthDb
  write_exchanged now hash id secret written = record written {
    tokens = write_token id (digest secret) written.tokens;
    devices =
        update_where (has_code hash) (λ r. record r { exchanged_at = some now }) written.devices;
  }

  -- The writes of `ExchangeDeviceAuthorization`.
  unfoldable pub write_exchange :
      ℕ
      → String
      → String
      → String
      → DeviceRow
      → String
      → AuthDb
      → Result AuthError (Machine × String × AuthDb)
  unfolding write_machine
  write_exchange now hash fresh secret row account db =
      let id = returned_id fresh row account db in
      let drawn = drawn_machine fresh row account in
      write_machine id drawn db >>= λ written.
      ok
        (record drawn { id = id }, credential id secret, write_exchanged now hash id secret written)

  -- `ExchangeDeviceAuthorization`
  unfoldable pub exchange_device_authorization :
      ℕ → String → String → String → AuthDb → Result AuthError (Machine × String × AuthDb)
  unfolding exchangeable write_exchange
  exchange_device_authorization now device_code fresh secret db =
      exchangeable now (find? (has_code (digest device_code)) db.devices) >>= λ (row, account).
      write_exchange now (digest device_code) fresh secret row account db
