-- ===== src/Auth/Calls/Machines.antt =====
-- The tokens of the machines: what a machine shows to be authenticated.
use myference.Prelude.{
  ℕ, String, Bool, true, false, none, some, List, [], ◌∷◌, ◌≡◌, refl, find?, any, str_eq, eq_iff,
  arith, is_empty, Bool-cases, Option-cases, inl, inr, if◌then◌else◌,
}
use myference.Prelude.Result.{ok, err}
use myference.Auth.Tables.{
  invalid_credential, MachineRow, TokenRow, AuthDb, Primitives, find?-update_where, any-find?,
  find?-passes,
}
use myference.Auth.Credentials.{credential, has_no_dot, split-credential}
use myference.Auth.Devices.{
  Machine, has_name, has_id, has_machine, write_machine, returned_id, id_of, write_token,
  write_exchanged, exchange_device_authorization,
}
use myference.Auth.Machines.{join_machine, authenticate_parts, authenticate_machine}
use myference.Auth.Exchange.{exchange-Exchanged}

-- No two machines have one id, by the table's primary key, and no id has a dot or is empty, as none
-- that `randomID` draws.
abbrev pub IsKeyed : List MachineRow → Type 0
IsKeyed [] = Unit
IsKeyed (row ∷ rows) =
    (any (has_id row.id) rows ≡ false)
    × (has_no_dot row.id ≡ true)
    × (is_empty row.id ≡ false)
    × IsKeyed rows

-- A row that some query finds is found by its id.
find-own :
    (p : MachineRow → Bool) (rows : List MachineRow) (row : MachineRow)
    → IsKeyed rows
    → find? p rows ≡ some row
    → (find? (has_id row.id) rows ≡ some row)
      × (has_no_dot row.id ≡ true)
      × (is_empty row.id ≡ false)
find-own p [] row k h = absurd (ground arith)
find-own p (x ∷ rows) row k h = elim (Bool-cases (p x)) [
  | inl hit ↦ let e : x ≡ row = ground arith in ground (arith, eq_iff x.id row.id, e)
  | inr miss ↦
      let (own, clean, filled) = find-own p rows row k.3 (ground arith) in
      (ground (arith, own, eq_iff x.id row.id, any-find? (has_id x.id) rows), clean, filled)
]

-- The token of a machine after it was written.
token-written :
    (id hash : String) (tokens : List TokenRow)
    → (row : TokenRow) × (find? (has_machine id) (write_token id hash tokens) ≡ some row)
      × (row.token_hash ≡ hash)
      × (row.revoked_at ≡ none)
token-written id hash tokens =
    let f = λ (t : TokenRow). record t { token_hash = hash; revoked_at = none } in
    elim (Option-cases (find? (has_machine id) tokens)) [
      | inl missing ↦ (
        record { machine_id = id; token_hash = hash; revoked_at = none },
        ground (arith, any-find? (has_machine id) tokens, eq_iff id id),
        refl,
        refl,
      )
      | inr (row, there) ↦
          let e = find?-update_where (has_machine id) (has_machine id) f tokens (λ t. refl) in
          (
            f row,
            ground (
              arith,
              any-find? (has_machine id) tokens,
              e,
              find?-passes (has_machine id) tokens row there,
            ),
            refl,
            refl,
          )
    ]

module _ (lib : Primitives) where
  -- The row of the machine after the write: it is not revoked and belongs to the account.
  machine-written :
      (fresh account name signer : String) (db w : AuthDb)
      → IsKeyed db.machines
      → has_no_dot fresh ≡ true
      → is_empty fresh ≡ false
      → let id = id_of fresh (find? (has_name account name) db.machines) in
        let m : Machine = record {
          id = fresh;
          account_id = account;
          name = name;
          signer_address = signer;
        } in
        write_machine lib id m db ≡ ok w
        → (row : MachineRow) × (find? (has_id id) w.machines ≡ some row)
          × (row.account_id ≡ account)
          × (row.revoked_at ≡ none)
          × (row.id ≡ id)
          × (has_no_dot id ≡ true)
          × (is_empty id ≡ false)
  unfolding write_machine
  machine-written fresh account name signer db w k clean filled =
      let named = has_name account name in
      elim (Option-cases (find? named db.machines)) [
        | inl missing ↦ rw missing λ h. (
          record {
            id = fresh;
            account_id = account;
            name = name;
            signer_address = signer;
            revoked_at = none;
          },
          ground (arith, any-find? named db.machines, eq_iff fresh fresh),
          refl,
          refl,
          refl,
          clean,
          filled,
        )
        | inr (row, there) ↦ rw there λ h.
            let f = λ (r : MachineRow). record r { signer_address = signer; revoked_at = none } in
            let (own, no_dot, some_text) = find-own named db.machines row k there in
            let passes = find?-passes named db.machines row there in
            let e = find?-update_where (has_id row.id) named f db.machines (λ r. refl) in
            (
              f row,
              ground (arith, any-find? named db.machines, e, own, passes),
              ground (arith, passes, eq_iff row.account_id account),
              refl,
              refl,
              no_dot,
              some_text,
            )
      ]

authenticate-found :
    (lib : Primitives) (id shown : String) (db : AuthDb) (t : TokenRow) (row : MachineRow)
    → has_no_dot id ≡ true
    → is_empty id ≡ false
    → is_empty shown ≡ false
    → find? (has_machine id) db.tokens ≡ some t
    → t.revoked_at ≡ none
    → find? (has_id id) db.machines ≡ some row
    → row.revoked_at ≡ none
    → authenticate_machine lib (credential id shown) db ≡ (
        if str_eq t.token_hash (lib.digest shown)
        then ok (record { machine_id = row.id; account_id = row.account_id })
        else err invalid_credential)
unfolding authenticate_machine authenticate_parts join_machine
authenticate-found lib id shown db t row clean filled given held live found active =
    rw (split-credential id shown clean filled given, authenticate_parts, held, found)
      (ground arith)

-- After an exchange, a credential of the machine is accepted exactly if its secret has the digest of
-- the secret that was issued: the new token authenticates the machine for its account, and every
-- token that the machine had before does so no more.
pub exchange_replaces_token :
    (lib : Primitives) (now : ℕ) (code fresh secret shown : String) (db : AuthDb) (m : Machine)
    (token : String) (db' : AuthDb)
    → IsKeyed db.machines
    → has_no_dot fresh ≡ true
    → is_empty fresh ≡ false
    → is_empty shown ≡ false
    → exchange_device_authorization lib now code fresh secret db ≡ ok (m, token, db')
    → (token ≡ credential m.id secret)
      × (authenticate_machine lib (credential m.id shown) db' ≡ (
          if str_eq (lib.digest secret) (lib.digest shown)
          then ok (record { machine_id = m.id; account_id = m.account_id })
          else err invalid_credential))
exchange_replaces_token lib now code fresh secret shown db m token db' k clean filled given h =
    let x = exchange-Exchanged lib now code fresh secret db (m, token, db') h in
    let id = returned_id fresh x.row x.account db in
    let (row, found, account, live, own, no_dot, some_text) =
      machine-written lib fresh x.account x.row.machine_name x.row.signer_address db x.between k
        clean filled x.wrote in
    let (t, held, hash, fresh_token) = token-written id (lib.digest secret) x.between.tokens in
    let e : (m, token, db') ≡ _ = x.result in
    let accepted =
      authenticate-found lib id shown
        (write_exchanged lib now (lib.digest code) id secret x.between) t row no_dot some_text given
        held fresh_token found live in
    (ground (arith, e), ground (arith, e, accepted, hash, account, own))
