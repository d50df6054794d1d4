-- ===== src/Auth/Calls/Revocation.antt =====
-- The machines of an account over a sequence of calls: their ids, and what a revocation means.
use myference.Prelude.{
  ℕ, String, Bool, true, false, ◌≢◌, none, some, List, [], ◌∷◌, ◌≡◌, refl, ap, find?, any, eq_iff,
  arith, is_empty, Bool-cases, Option-cases, inl, inr, if◌then◌else◌, All,
}
use myference.Prelude.Result.{ok, Result-cases}
use myference.Auth.Tables.{
  ApiKeyScope, MachineRow, AuthDb, Primitives, is_null, find?-update_where, find?-passes,
  update_where,
}
use myference.Auth.Credentials.{split_credential, has_no_dot}
use myference.Auth.Devices.{
  Machine, DeviceAuthorization, has_name, has_id, has_machine, write_machine,
  create_device_authorization, insert_device, approve_device_authorization,
  exchange_device_authorization,
}
use myference.Auth.Machines.{
  MachinePrincipal, revoke_machine, join_machine, authenticate_parts, authenticate_machine,
}
use myference.Auth.Keys.{ApiKey, create_api_key, revoke_api_key}
use myference.Auth.Exchange.{exchange-Exchanged}
use myference.Auth.Calls.{
  AuthCall, create_device, approve, exchange, revoke_machine_call, create_key, revoke_key,
  perform_auth_call, perform_auth_calls,
}
use myference.Auth.Calls.Machines.{IsKeyed}

-- The ids that a call draws have no dot and are not empty.
abbrev pub IsClean : AuthCall → Type 0
IsClean (exchange now code fresh secret) = (has_no_dot fresh ≡ true) × (is_empty fresh ≡ false)
IsClean c = Unit

abbrev pub is_exchange : AuthCall → Bool
is_exchange (exchange now code fresh secret) = true
is_exchange c = false

abbrev revoke_row : ℕ → MachineRow → MachineRow
revoke_row now row = record row { revoked_at = some now }

update_where-none :
    (f : MachineRow → MachineRow) (rows : List MachineRow) → update_where (λ r. false) f rows ≡ rows
update_where-none f [] = refl
update_where-none f (x ∷ rows) = ap (λ (t : List MachineRow). x ∷ t) (update_where-none f rows)

any-update_where :
    (id : String) (p : MachineRow → Bool) (f : MachineRow → MachineRow) (rows : List MachineRow)
    → ((r : MachineRow) → (f r).id ≡ r.id)
    → any (has_id id) (update_where p f rows) ≡ any (has_id id) rows
any-update_where id p f [] same = refl
any-update_where id p f (x ∷ rows) same = ground (arith, same x, any-update_where id p f rows same)

update-IsKeyed :
    (p : MachineRow → Bool) (f : MachineRow → MachineRow) (rows : List MachineRow)
    → ((r : MachineRow) → (f r).id ≡ r.id)
    → IsKeyed rows
    → IsKeyed (update_where p f rows)
update-IsKeyed p f [] same k = tt
update-IsKeyed p f (x ∷ rows) same (alone, clean, filled, k) =
    let e : (if p x then f x else x).id ≡ x.id = ground (arith, same x) in
    rw e (
      rw (any-update_where x.id p f rows same) alone,
      clean,
      filled,
      update-IsKeyed p f rows same k,
    )

abbrev Revoked : AuthDb → AuthDb → Type 0
Revoked db db' =
    (now : ℕ) × (p : MachineRow → Bool) × (db'.machines
      ≡ update_where p (revoke_row now) db.machines)

none-Revoked : (db db' : AuthDb) → db'.machines ≡ db.machines → Revoked db db'
none-Revoked db db' e = (0, λ r. false, rw (update_where-none (revoke_row 0) db.machines) e)

-- The row of a machine is revoked.
abbrev IsRevoked : String → AuthDb → Type 0
IsRevoked id db =
    (row : MachineRow) × (find? (has_id id) db.machines ≡ some row)
    × (is_null row.revoked_at ≡ false)

module _ (lib : Primitives) where
  device-machines :
      (now : ℕ) (code user name signer : String) (lifetime : ℕ) (db : AuthDb)
      (r : DeviceAuthorization × AuthDb)
      → create_device_authorization lib now code user name signer lifetime db ≡ ok r
      → r.1.machines ≡ db.machines
  unfolding create_device_authorization insert_device
  device-machines now code user name signer lifetime db r h =
      elim (Option-cases (lib.hex_address signer)) [
        | inl bad ↦ absurd (ground arith)
        | inr (address, fine) ↦ ground arith
      ]

  approve-machines :
      (now : ℕ) (user account : String) (db db' : AuthDb)
      → approve_device_authorization lib now user account db ≡ ok db'
      → db'.machines ≡ db.machines
  unfolding approve_device_authorization
  approve-machines now user account db db' h = ground arith

  key-machines :
      (id secret account : String) (scope : ApiKeyScope) (db : AuthDb) (r : ApiKey × AuthDb)
      → create_api_key lib id secret account scope db ≡ ok r
      → r.1.machines ≡ db.machines
  unfolding create_api_key
  key-machines id secret account scope db r h = ground arith

  write_machine-IsKeyed :
      (id : String) (m : Machine) (db w : AuthDb)
      → IsKeyed db.machines
      → has_no_dot m.id ≡ true
      → is_empty m.id ≡ false
      → write_machine lib id m db ≡ ok w
      → IsKeyed w.machines
  unfolding write_machine
  write_machine-IsKeyed id m db w k clean filled h =
      let named = has_name m.account_id m.name in
      let f =
        λ (r : MachineRow). record r { signer_address = m.signer_address; revoked_at = none } in
      elim (Bool-cases (any named db.machines)) [
        | inl old ↦
            let e : w.machines ≡ update_where named f db.machines = ground arith in
            rw e (update-IsKeyed named f db.machines (λ r. refl) k)
        | inr new ↦ let alone : any (has_id m.id) db.machines ≡ false = ground arith in ground arith
      ]

  exchange-IsKeyed :
      (now : ℕ) (code fresh secret : String) (db : AuthDb) (r : Machine × String × AuthDb)
      → IsKeyed db.machines
      → has_no_dot fresh ≡ true
      → is_empty fresh ≡ false
      → exchange_device_authorization lib now code fresh secret db ≡ ok r
      → IsKeyed r.2.machines
  exchange-IsKeyed now code fresh secret db r k clean filled h =
      let x = exchange-Exchanged lib now code fresh secret db r h in
      rw x.result (write_machine-IsKeyed _ _ db x.between k clean filled x.wrote)

  -- A call that is no exchange changes no machine but by a revocation.
  call-Revoked :
      (db : AuthDb) (c : AuthCall) → is_exchange c ≡ false → Revoked db (perform_auth_call lib db c)
  unfolding perform_auth_call revoke_machine revoke_api_key
  call-Revoked db (create_device now code user name signer lifetime) h =
      elim (Result-cases (create_device_authorization lib now code user name signer lifetime db)) [
        | inr (e, bad) ↦ rw bad (none-Revoked db db refl)
        | inl (r, fine) ↦
            rw fine
              (none-Revoked db r.1 (device-machines now code user name signer lifetime db r fine))
      ]
  call-Revoked db (approve now user account) h =
      elim (Result-cases (approve_device_authorization lib now user account db)) [
        | inr (e, bad) ↦ rw bad (none-Revoked db db refl)
        | inl (r, fine) ↦ rw fine (none-Revoked db r (approve-machines now user account db r fine))
      ]
  call-Revoked db (exchange now code fresh secret) h = absurd (ground arith)
  call-Revoked db (revoke_machine_call now id) h = (now, has_id id, refl)
  call-Revoked db (create_key id secret account scope) h =
      elim (Result-cases (create_api_key lib id secret account scope db)) [
        | inr (e, bad) ↦ rw bad (none-Revoked db db refl)
        | inl (r, fine) ↦
            rw fine (none-Revoked db r.1 (key-machines id secret account scope db r fine))
      ]
  call-Revoked db (revoke_key now id) h = none-Revoked db (revoke_api_key now id db) refl

  kept_by :
      (db : AuthDb) (c : AuthCall)
      → IsKeyed db.machines
      → is_exchange c ≡ false
      → IsKeyed (perform_auth_call lib db c).machines
  kept_by db c k h =
      let (now, p, e) = call-Revoked db c h in
      rw e (update-IsKeyed p (revoke_row now) db.machines (λ r. refl) k)

  call-IsKeyed :
      (db : AuthDb) (c : AuthCall)
      → IsKeyed db.machines
      → IsClean c
      → IsKeyed (perform_auth_call lib db c).machines
  unfolding perform_auth_call
  call-IsKeyed db (exchange now code fresh secret) k (clean, filled) =
      elim (Result-cases (exchange_device_authorization lib now code fresh secret db)) [
        | inr (e, bad) ↦ rw bad k
        | inl (r, fine) ↦ rw fine (exchange-IsKeyed now code fresh secret db r k clean filled fine)
      ]
  call-IsKeyed db (create_device now code user name signer lifetime) k c =
      kept_by db (create_device now code user name signer lifetime) k refl
  call-IsKeyed db (approve now user account) k c = kept_by db (approve now user account) k refl
  call-IsKeyed db (revoke_machine_call now id) k c = kept_by db (revoke_machine_call now id) k refl
  call-IsKeyed db (create_key id secret account scope) k c =
      kept_by db (create_key id secret account scope) k refl
  call-IsKeyed db (revoke_key now id) k c = kept_by db (revoke_key now id) k refl

  -- If no two machines have one id, and no id has a dot or is empty, it stays so, whatever calls are
  -- made, if the ids that they draw have no dot and are not empty.
  pub perform_auth_calls-IsKeyed :
      (db : AuthDb) (cs : List AuthCall)
      → IsKeyed db.machines
      → All IsClean cs
      → IsKeyed (perform_auth_calls lib db cs).machines
  unfolding perform_auth_calls
  perform_auth_calls-IsKeyed db [] k clean = k
  perform_auth_calls-IsKeyed db (c ∷ cs) k (clean, rest) =
      perform_auth_calls-IsKeyed (perform_auth_call lib db c) cs (call-IsKeyed db c k clean) rest

  calls-IsRevoked :
      (id : String) (db : AuthDb) (cs : List AuthCall)
      → IsRevoked id db
      → any is_exchange cs ≡ false
      → IsRevoked id (perform_auth_calls lib db cs)
  unfolding perform_auth_calls
  calls-IsRevoked id db [] r h = r
  calls-IsRevoked id db (c ∷ cs) (row, found, gone) h =
      let (now, p, e) = call-Revoked db c (ground arith) in
      let touched = find?-update_where (has_id id) p (revoke_row now) db.machines (λ r. refl) in
      calls-IsRevoked id (perform_auth_call lib db c) cs
        (if p row then revoke_row now row else row, ground (arith, touched, e), ground arith)
        (ground arith)

-- A machine that was revoked is authenticated by no credential, whatever calls follow, until a device
-- code is exchanged again.
pub revoked_machine_refused :
    (lib : Primitives) (now : ℕ) (id : String) (row : MachineRow) (db : AuthDb) (cs : List AuthCall)
    (token : String) (p : MachinePrincipal)
    → find? (has_id id) db.machines ≡ some row
    → any is_exchange cs ≡ false
    → authenticate_machine lib token (perform_auth_calls lib (revoke_machine now id db) cs) ≡ ok p
    → p.machine_id ≢ id
unfolding revoke_machine authenticate_machine authenticate_parts join_machine
revoked_machine_refused lib now id row db cs token p found still accepted =
    let end_db = perform_auth_calls lib (revoke_machine now id db) cs in
    let own = find?-passes (has_id id) db.machines row found in
    let touched =
      find?-update_where (has_id id) (has_id id) (revoke_row now) db.machines (λ r. refl) in
    let (last, at_end, gone) =
      calls-IsRevoked lib id (revoke_machine now id db) cs
        (revoke_row now row, ground (arith, touched), refl) still in
    elim (Option-cases (split_credential token)) [
      | inl bad ↦ absurd (ground arith)
      | inr (parts, cut) ↦ elim (Option-cases (find? (has_machine parts.0) end_db.tokens)) [
        | inl missing ↦ absurd (ground arith)
        | inr (t, held) ↦ elim (Option-cases (find? (has_id parts.0) end_db.machines)) [
          | inl missing ↦ absurd (ground arith)
          | inr (m, there) ↦ λ same.
              let named = find?-passes (has_id parts.0) end_db.machines m there in
              ground (arith, eq_iff m.id parts.0, eq_iff m.id id)
        ]
      ]
    ]
