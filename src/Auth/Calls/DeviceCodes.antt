-- ===== src/Auth/Calls/DeviceCodes.antt =====
-- What the calls of the service can make of a device authorization.
use myference.Prelude.{
  ℕ, String, Bool, true, false, Option, some, List, [], ◌∷◌, ◌≡◌, refl, ap, find?, any, str_eq,
  eq_iff, arith, Option-cases, inl, inr, if◌then◌else◌,
}
use myference.Prelude.Result.{ok, err, Result-cases}
use myference.Auth.Tables.{
  authorization_consumed, DeviceRow, AuthDb, Primitives, is_null, update_where, find?-update_where,
  any-find?, find?-passes,
}
use myference.Auth.Devices.{
  DeviceAuthorization, Machine, has_code, approvable, insert_device, create_device_authorization,
  approve_device_authorization, exchangeable, exchange_device_authorization,
}
use myference.Auth.Machines.{revoke_machine}
use myference.Auth.Exchange.{exchange-Exchanged, write_machine-keeps}
use myference.Auth.Keys.{create_api_key, revoke_api_key}
use myference.Auth.Calls.{
  AuthCall, create_device, approve, exchange, revoke_machine_call, create_key, revoke_key,
  perform_auth_call, perform_auth_calls,
}

-- What is left of a row later on: an exchange is never undone, and neither is an approval, whose
-- account stays.
pub record Later (r r' : DeviceRow) : Type 0 where
  pub exchanged : is_null r.exchanged_at ≡ false → is_null r'.exchanged_at ≡ false
  pub approved : is_null r.approved_at ≡ false → is_null r'.approved_at ≡ false
  pub account : is_null r.approved_at ≡ false → r'.account_id ≡ r.account_id

Later-refl : (r : DeviceRow) → Later r r
Later-refl r = record { exchanged = λ h. h; approved = λ h. h; account = λ h. refl }

Later-trans : {r s t : DeviceRow} → Later r s → Later s t → Later r t
Later-trans p q = record {
  exchanged = λ h. q.exchanged (p.exchanged h);
  approved = λ h. q.approved (p.approved h);
  account = λ h. ground (arith, p.account h, q.account (p.approved h));
}

-- The row of a code, in a table.
abbrev pub row_of : String → List DeviceRow → Option DeviceRow
row_of hash rows = find? (has_code hash) rows

-- The row of a code in a later table.
abbrev Kept : String → DeviceRow → List DeviceRow → Type 0
Kept hash row rows = (row' : DeviceRow) × (row_of hash rows ≡ some row') × Later row row'

unchanged :
    (hash : String) (row : DeviceRow) (rows : List DeviceRow)
    → row_of hash rows ≡ some row
    → Kept hash row rows
unchanged hash row rows h = (row, h, Later-refl row)

update-Kept :
    (hash : String) (row : DeviceRow) (rows : List DeviceRow) (p : DeviceRow → Bool)
    (f : DeviceRow → DeviceRow)
    → row_of hash rows ≡ some row
    → ((r : DeviceRow) → has_code hash (f r) ≡ has_code hash r)
    → Later row (if p row then f row else row)
    → Kept hash row (update_where p f rows)
update-Kept hash row rows p f found same later = (
  if p row then f row else row,
  rw (find?-update_where (has_code hash) p f rows same, found) refl,
  later,
)

module _ (lib : Primitives) where
  open lib use {digest}

  insert-Kept :
      (now : ℕ) (code user name : String) (lifetime : ℕ) (signer hash : String) (row : DeviceRow)
      (db : AuthDb) (r : DeviceAuthorization × AuthDb)
      → row_of hash db.devices ≡ some row
      → insert_device lib now code user name lifetime signer db ≡ ok r
      → Kept hash row r.1.devices
  unfolding insert_device
  insert-Kept now code user name lifetime signer hash row db r found h =
      let fresh : any (has_code (digest code)) db.devices ≡ false = ground arith in
      let other : str_eq (digest code) hash ≡ false =
        ground (arith, eq_iff (digest code) hash, any-find? (has_code (digest code)) db.devices) in
      (row, ground (arith, other), Later-refl row)

  create-Kept :
      (now : ℕ) (code user name signer : String) (lifetime : ℕ) (hash : String) (row : DeviceRow)
      (db : AuthDb) (r : DeviceAuthorization × AuthDb)
      → row_of hash db.devices ≡ some row
      → create_device_authorization lib now code user name signer lifetime db ≡ ok r
      → Kept hash row r.1.devices
  unfolding create_device_authorization
  create-Kept now code user name signer lifetime hash row db r found h =
      elim (Option-cases (lib.hex_address signer)) [
        | inl bad ↦ absurd (ground arith)
        | inr (address, fine) ↦
            insert-Kept now code user name lifetime address hash row db r found (ground arith)
      ]

  approve-Kept :
      (now : ℕ) (user account hash : String) (row : DeviceRow) (db db' : AuthDb)
      → row_of hash db.devices ≡ some row
      → approve_device_authorization lib now user account db ≡ ok db'
      → Kept hash row db'.devices
  unfolding approve_device_authorization
  approve-Kept now user account hash row db db' found h =
      let p = approvable now (digest user) in
      let f = λ (r : DeviceRow). record r { account_id = some account; approved_at = some now } in
      let e : db'.devices ≡ update_where p f db.devices = ground arith in
      rw e (
        update-Kept hash row db.devices p f found (λ r. refl)
          (record { exchanged = ground arith; approved = ground arith; account = ground arith }))

  exchange-Kept :
      (now : ℕ) (code fresh secret hash : String) (row : DeviceRow) (db : AuthDb)
      (r : Machine × String × AuthDb)
      → row_of hash db.devices ≡ some row
      → exchange_device_authorization lib now code fresh secret db ≡ ok r
      → Kept hash row r.2.devices
  exchange-Kept now code fresh secret hash row db r found h =
      let x = exchange-Exchanged lib now code fresh secret db r h in
      let same = (write_machine-keeps lib _ _ db x.between x.wrote).0 in
      let f = λ (d : DeviceRow). record d { exchanged_at = some now } in
      let e : r.2.devices ≡ update_where (has_code (digest code)) f db.devices =
        ground (arith, x.result, same) in
      rw e (
        update-Kept hash row db.devices (has_code (digest code)) f found (λ d. refl)
          (record { exchanged = ground arith; approved = ground arith; account = ground arith }))

  call-Kept :
      (hash : String) (row : DeviceRow) (db : AuthDb) (c : AuthCall)
      → row_of hash db.devices ≡ some row
      → Kept hash row (perform_auth_call lib db c).devices
  unfolding perform_auth_call revoke_machine revoke_api_key create_api_key
  call-Kept hash row db (create_device now code user name signer lifetime) found =
      elim (Result-cases (create_device_authorization lib now code user name signer lifetime db)) [
        | inr (e, bad) ↦ rw bad (unchanged hash row db.devices found)
        | inl (r, fine) ↦
            rw fine (create-Kept now code user name signer lifetime hash row db r found fine)
      ]
  call-Kept hash row db (approve now user account) found =
      elim (Result-cases (approve_device_authorization lib now user account db)) [
        | inr (e, bad) ↦ rw bad (unchanged hash row db.devices found)
        | inl (r, fine) ↦ rw fine (approve-Kept now user account hash row db r found fine)
      ]
  call-Kept hash row db (exchange now code fresh secret) found =
      elim (Result-cases (exchange_device_authorization lib now code fresh secret db)) [
        | inr (e, bad) ↦ rw bad (unchanged hash row db.devices found)
        | inl (r, fine) ↦ rw fine (exchange-Kept now code fresh secret hash row db r found fine)
      ]
  call-Kept hash row db (revoke_machine_call now id) found = unchanged hash row db.devices found
  call-Kept hash row db (create_key id secret account scope) found =
      (row, ground arith, Later-refl row)
  call-Kept hash row db (revoke_key now id) found = unchanged hash row db.devices found

  -- The row of a code stays, and what it says of an exchange and of an approval, too.
  pub calls-Kept :
      (hash : String) (row : DeviceRow) (db : AuthDb) (cs : List AuthCall)
      → row_of hash db.devices ≡ some row
      → Kept hash row (perform_auth_calls lib db cs).devices
  unfolding perform_auth_calls
  calls-Kept hash row db [] found = unchanged hash row db.devices found
  calls-Kept hash row db (c ∷ cs) found =
      let (next, there, later) = call-Kept hash row db c found in
      let (last, at_end, later') = calls-Kept hash next (perform_auth_call lib db c) cs there in
      (last, at_end, Later-trans later later')

-- A device code is exchanged once: after an exchange that succeeds, whatever calls follow, another
-- exchange of the code is refused as consumed.
pub exchanged_once :
    (lib : Primitives) (now later : ℕ) (code fresh secret fresh' secret' : String) (db : AuthDb)
    (m : Machine) (token : String) (db' : AuthDb) (cs : List AuthCall)
    → exchange_device_authorization lib now code fresh secret db ≡ ok (m, token, db')
    → exchange_device_authorization lib later code fresh' secret' (perform_auth_calls lib db' cs)
      ≡ err authorization_consumed
unfolding exchange_device_authorization exchangeable
exchanged_once lib now later code fresh secret fresh' secret' db m token db' cs h =
    let hash = lib.digest code in
    let x = exchange-Exchanged lib now code fresh secret db (m, token, db') h in
    let f = λ (d : DeviceRow). record d { exchanged_at = some now } in
    let same = (write_machine-keeps lib _ _ db x.between x.wrote).0 in
    let e : db'.devices ≡ update_where (has_code hash) f db.devices =
      ground (arith, ap (λ (t : Machine × String × AuthDb). t.2.devices) x.result, same) in
    let there : row_of hash db'.devices ≡ some (f x.row) = ground (
      arith,
      e,
      x.found,
      find?-update_where (has_code hash) (has_code hash) f db.devices (λ d. refl),
      find?-passes (has_code hash) db.devices x.row x.found,
    ) in
    let (last, at_end, kept) = calls-Kept lib hash (f x.row) db' cs there in
    ground (arith, at_end, kept.exchanged)

-- The account that approves a device owns its machine: after an approval that finds the device
-- pending and in time, whatever calls are made in between, an exchange of the device's code that
-- succeeds gives a machine of that account.
pub approved_by_first :
    (lib : Primitives) (now later : ℕ) (code user account fresh secret : String) (row : DeviceRow)
    (db db' : AuthDb) (cs : List AuthCall) (m : Machine) (token : String) (last : AuthDb)
    → row_of (lib.digest code) db.devices ≡ some row
    → approvable now (lib.digest user) row ≡ true
    → approve_device_authorization lib now user account db ≡ ok db'
    → exchange_device_authorization lib later code fresh secret (perform_auth_calls lib db' cs)
      ≡ ok (m, token, last)
    → m.account_id ≡ account
unfolding approve_device_authorization
approved_by_first lib now later code user account fresh secret row db db' cs m token last found
      pending approved h =
    let hash = lib.digest code in
    let p = approvable now (lib.digest user) in
    let f = λ (d : DeviceRow). record d { account_id = some account; approved_at = some now } in
    let there : row_of hash db'.devices ≡ some (f row) =
      ground (arith, find?-update_where (has_code hash) p f db.devices (λ d. refl)) in
    let (kept_row, at_end, kept) = calls-Kept lib hash (f row) db' cs there in
    let x = exchange-Exchanged lib later code fresh secret _ _ h in
    ground (
      arith,
      at_end,
      kept.account,
      x.found,
      x.approved,
      ap (λ (t : Machine × String × AuthDb). t.0.account_id) x.result,
    )
