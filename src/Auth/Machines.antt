-- ===== src/Auth/Machines.antt =====
-- server/internal/auth/device.go: what a machine shows to be authenticated, and its revocation.
use myference.Prelude.{ℕ, String, ◌&&◌, Option, none, some, find?, str_eq, if◌then◌else◌}
use myference.Prelude.Result.{Result, ok, err}
use myference.Auth.Tables.{
  AuthError, invalid_credential, MachineRow, TokenRow, AuthDb, Primitives, is_null, update_where,
}
use myference.Auth.Credentials.{split_credential}
use myference.Auth.Devices.{has_id, has_machine}

pub record MachinePrincipal : Type 0 where
  pub machine_id : String
  pub account_id : String

-- UPDATE machines SET revoked_at=now WHERE id=id
unfoldable pub revoke_machine : ℕ → String → AuthDb → AuthDb
revoke_machine now id db = record db {
  machines = update_where (has_id id) (λ row. record row { revoked_at = some now }) db.machines;
}

-- The rows of the join that `AuthenticateMachine` reads.
unfoldable pub join_machine : Option TokenRow → Option MachineRow → Option (MachineRow × String)
join_machine (some token) (some row) =
    if is_null token.revoked_at && is_null row.revoked_at
    then some (row, token.token_hash)
    else none
join_machine (some token) none = none
join_machine none row = none

module _ (lib : Primitives) where
  open lib use {digest}

  abbrev pub check_secret :
      String → Option (MachineRow × String) → Result AuthError MachinePrincipal
  check_secret secret none = err invalid_credential
  check_secret secret (some (row, stored)) =
      if str_eq stored (digest secret)
      then ok (record { machine_id = row.id; account_id = row.account_id })
      else err invalid_credential

  unfoldable pub authenticate_parts :
      Option (String × String) → AuthDb → Result AuthError MachinePrincipal
  unfolding join_machine
  authenticate_parts none db = err invalid_credential
  authenticate_parts (some (id, secret)) db =
      check_secret secret
        (join_machine (find? (has_machine id) db.tokens) (find? (has_id id) db.machines))

  -- `AuthenticateMachine`
  unfoldable pub authenticate_machine : String → AuthDb → Result AuthError MachinePrincipal
  unfolding authenticate_parts split_credential
  authenticate_machine token db = authenticate_parts (split_credential token) db
