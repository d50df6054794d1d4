-- ===== src/Auth/Exchange.antt =====
-- What an exchange of a device code that succeeds has found and written.
use myference.Prelude.{ℕ, String, true, some, ◌≡◌, arith, ltb, Option-cases, inl, inr, find?}
use myference.Prelude.Result.{ok, Result-cases}
use myference.Auth.Tables.{DeviceRow, AuthDb, Primitives, is_null}
use myference.Auth.Credentials.{credential}
use myference.Auth.Devices.{
  Machine, has_code, exchangeable, write_machine, write_exchange, exchange_device_authorization,
  drawn_machine, returned_id, write_exchanged,
}

-- The write of the machine leaves every other table alone.
pub write_machine-keeps :
    (lib : Primitives) (id : String) (m : Machine) (db w : AuthDb)
    → write_machine lib id m db ≡ ok w
    → (w.devices ≡ db.devices) × (w.keys ≡ db.keys) × (w.tokens ≡ db.tokens)
unfolding write_machine
write_machine-keeps lib id m db w h = (ground arith, ground arith, ground arith)

module _ (lib : Primitives) (now : ℕ) (code fresh secret : String) (db : AuthDb) where
  pub record Exchanged (r : Machine × String × AuthDb) : Type 0 where
    pub row : DeviceRow
    pub account : String
    pub between : AuthDb
    pub found : find? (has_code (lib.digest code)) db.devices ≡ some row
    pub unspent : is_null row.exchanged_at ≡ true
    pub in_time : ltb now row.expires_at ≡ true
    pub approved : row.account_id ≡ some account
    pub wrote :
        write_machine lib (returned_id fresh row account db) (drawn_machine fresh row account) db
        ≡ ok between
    pub result : r ≡ (
      record (drawn_machine fresh row account) { id = returned_id fresh row account db },
      credential (returned_id fresh row account db) secret,
      write_exchanged lib now (lib.digest code) (returned_id fresh row account db) secret between,
    )

  pub exchange-Exchanged :
      (r : Machine × String × AuthDb)
      → exchange_device_authorization lib now code fresh secret db ≡ ok r
      → Exchanged r
  unfolding exchange_device_authorization exchangeable write_exchange
  exchange-Exchanged r h = elim (Option-cases (find? (has_code (lib.digest code)) db.devices)) [
    | inl missing ↦ absurd (ground arith)
    | inr (row, found) ↦ elim (Option-cases row.account_id) [
      | inl pending ↦ absurd (ground arith)
      | inr (account, approved) ↦
          elim (Result-cases (
            write_machine lib (returned_id fresh row account db) (drawn_machine fresh row account)
              db)) [
                | inr (e, bad) ↦ absurd (ground arith)
                | inl (between, wrote) ↦ record {
                  row = row;
                  account = account;
                  between = between;
                  found = found;
                  unspent = ground arith;
                  in_time = ground arith;
                  approved = approved;
                  wrote = wrote;
                  result = ground arith;
                }
              ]
    ]
  ]
