-- ===== src/Examples/Accounts.antt =====
-- The device flow and the API keys at concrete inputs.
use myference.Prelude.{String, none, some, List, [], ◌∷◌, ◌≡◌, ◌≢◌, refl}
use myference.Prelude.Result.{Result, ok, err}
use myference.Auth.Tables.{
  AuthError, authorization_consumed, invalid_credential, scope_denied, DeviceRow, MachineRow,
  ApiKeyScope, KeyRow, AuthDb, Primitives,
}
use myference.Auth.Credentials.{cut, split_credential, credential}
use myference.Auth.Devices.{
  Machine, approve_device_authorization, exchange_device_authorization, exchangeable,
  write_exchange, write_machine,
}
use myference.Auth.Machines.{
  MachinePrincipal, authenticate_machine, authenticate_parts, join_machine, revoke_machine,
}
use myference.Auth.Keys.{
  ApiKey, ApiKeyPrincipal, create_api_key, authorize_api_key, authorize_parts, authorize_row,
  revoke_api_key,
}
use myference.Auth.Calls.{
  AuthCall, approve, revoke_machine_call, perform_auth_call, perform_auth_calls,
}
use myference.Auth.Calls.DeviceCodes.{exchanged_once, approved_by_first}
use myference.Auth.Calls.ApiKeys.{created_key_allows, revoked_key_refused}
use myference.Auth.Calls.Machines.{IsKeyed, exchange_replaces_token}
use myference.Auth.Calls.Revocation.{revoked_machine_refused}

-- A digest and a reading of addresses that leave texts as they are.
abbrev plain : Primitives
plain = record { digest = λ s. s; lower = λ s. s; hex_address = λ s. some s }

abbrev box_row : DeviceRow
box_row = record {
  device_code_hash = "dev";
  user_code_hash = "USER";
  machine_name = "box";
  signer_address = "0xa";
  expires_at = 9000;
  account_id = none;
  approved_at = none;
  exchanged_at = none;
}

-- A machine that asks to be enrolled again, with the token that it has.
abbrev pending_db : AuthDb
pending_db = record {
  accounts = "a1" ∷ "a2" ∷ [];
  devices = box_row ∷ [];
  machines =
      record {
        id = "mach_1";
        account_id = "a1";
        name = "box";
        signer_address = "0xb";
        revoked_at = none;
      }
      ∷ [];
  tokens = record { machine_id = "mach_1"; token_hash = "old"; revoked_at = none } ∷ [];
  keys = [];
}

abbrev or_pending : Result AuthError AuthDb → AuthDb
or_pending (ok db) = db
or_pending (err e) = pending_db

abbrev approved_db : AuthDb
approved_db = or_pending (approve_device_authorization plain 2000 "USER" "a1" pending_db)

approves : approve_device_authorization plain 2000 "USER" "a1" pending_db ≡ ok approved_db
unfolding approve_device_authorization
approves = refl

abbrev box : Machine
box = record { id = "mach_1"; account_id = "a1"; name = "box"; signer_address = "0xa" }

abbrev written_db : Result AuthError (Machine × String × AuthDb) → AuthDb
written_db (ok r) = r.2
written_db (err e) = pending_db

abbrev exchanged_db : AuthDb
exchanged_db =
    written_db (exchange_device_authorization plain 3000 "dev" "mach_2" "new" approved_db)

exchanges :
    exchange_device_authorization plain 3000 "dev" "mach_2" "new" approved_db
    ≡ ok (box, "mach_1.new", exchanged_db)
unfolding approve_device_authorization exchange_device_authorization exchangeable write_exchange
    write_machine
exchanges = refl

abbrev some_calls : List AuthCall
some_calls = approve 3500 "USER" "a2" ∷ revoke_machine_call 3600 "mach_1" ∷ []

exchanged_once_example :
    exchange_device_authorization plain 4000 "dev" "mach_3" "newer"
      (perform_auth_calls plain exchanged_db some_calls)
    ≡ err authorization_consumed
exchanged_once_example =
    exchanged_once plain 3000 4000 "dev" "mach_2" "new" "mach_3" "newer" approved_db box
      "mach_1.new" exchanged_db some_calls exchanges

abbrev approve_again : List AuthCall
approve_again = approve 2500 "USER" "a2" ∷ []

exchanges_later :
    exchange_device_authorization plain 3000 "dev" "mach_2" "new"
      (perform_auth_calls plain approved_db approve_again)
    ≡ ok (box, "mach_1.new", exchanged_db)
unfolding approve_device_authorization exchange_device_authorization exchangeable write_exchange
    write_machine perform_auth_calls perform_auth_call
exchanges_later = refl

approved_by_first_example : box.account_id ≡ "a1"
approved_by_first_example =
    approved_by_first plain 2000 3000 "dev" "USER" "a1" "mach_2" "new" box_row pending_db
      approved_db approve_again box "mach_1.new" exchanged_db refl refl approves exchanges_later

one_machine : IsKeyed approved_db.machines
unfolding approve_device_authorization
one_machine = (refl, refl, refl, tt)

-- The token that the machine had is refused.
exchange_replaces_token_example :
    (◌≡◌ {A = String} "mach_1.new" (credential "mach_1" "new"))
    × (authenticate_machine plain (credential "mach_1" "old") exchanged_db ≡ err invalid_credential)
exchange_replaces_token_example =
    exchange_replaces_token plain 3000 "dev" "mach_2" "new" "old" approved_db box "mach_1.new"
      exchanged_db one_machine refl refl refl exchanges

abbrev chat_scope : ApiKeyScope
chat_scope = record { models = "m1" ∷ []; endpoints = "chat" ∷ []; max_spend_wei = 10 }

abbrev chat_key : ApiKey
chat_key = record { id = "key_1"; token = "key_1.s" }

abbrev chat_row : KeyRow
chat_row = record {
  id = "key_1";
  account_id = "a1";
  key_hash = "s";
  scope = chat_scope;
  revoked_at = none;
}

abbrev keyed_db : AuthDb
keyed_db = record pending_db { keys = chat_row ∷ [] }

creates_key : create_api_key plain "key_1" "s" "a1" chat_scope pending_db ≡ ok (chat_key, keyed_db)
unfolding create_api_key
creates_key = refl

-- A spend above the maximum is denied.
created_key_allows_example :
    authorize_api_key plain "key_1.s" "m1" "chat" 11 (perform_auth_calls plain keyed_db some_calls)
    ≡ err scope_denied
created_key_allows_example =
    created_key_allows plain "key_1" "s" "a1" chat_scope pending_db chat_key keyed_db some_calls
      "m1" "chat" 11 refl refl refl creates_key refl

-- Another key that the table holds is still accepted.
abbrev two_keys_db : AuthDb
two_keys_db = record pending_db {
  keys = record chat_row { id = "key_2"; key_hash = "t" } ∷ chat_row ∷ [];
}

abbrev other_principal : ApiKeyPrincipal
other_principal = record { key_id = "key_2"; account_id = "a1"; scope = chat_scope }

other_accepted :
    authorize_api_key plain "key_2.t" "m1" "chat" 10
      (perform_auth_calls plain (revoke_api_key 5 "key_1" two_keys_db) some_calls)
    ≡ ok other_principal
unfolding authorize_api_key authorize_parts authorize_row split_credential cut revoke_api_key
    perform_auth_calls perform_auth_call approve_device_authorization revoke_machine
other_accepted = refl

revoked_key_refused_example : ◌≢◌ {A = String} "key_2" "key_1"
revoked_key_refused_example =
    revoked_key_refused plain 5 "key_1" chat_row two_keys_db some_calls "key_2.t" "m1" "chat" 10
      other_principal refl other_accepted

-- Two machines, each with its token.
abbrev two_machines_db : AuthDb
two_machines_db = record pending_db {
  machines =
      record {
        id = "mach_2";
        account_id = "a2";
        name = "box";
        signer_address = "0xc";
        revoked_at = none;
      }
      ∷ pending_db.machines;
  tokens =
      record { machine_id = "mach_2"; token_hash = "mine"; revoked_at = none } ∷ pending_db.tokens;
}

abbrev first_machine : MachineRow
first_machine = record {
  id = "mach_1";
  account_id = "a1";
  name = "box";
  signer_address = "0xb";
  revoked_at = none;
}

abbrev second_principal : MachinePrincipal
second_principal = record { machine_id = "mach_2"; account_id = "a2" }

abbrev approve_only : List AuthCall
approve_only = approve 3500 "USER" "a2" ∷ []

second_accepted :
    authenticate_machine plain "mach_2.mine"
      (perform_auth_calls plain (revoke_machine 5 "mach_1" two_machines_db) approve_only)
    ≡ ok second_principal
unfolding authenticate_machine authenticate_parts join_machine split_credential cut revoke_machine
    perform_auth_calls perform_auth_call approve_device_authorization
second_accepted = refl

revoked_machine_refused_example : ◌≢◌ {A = String} "mach_2" "mach_1"
revoked_machine_refused_example =
    revoked_machine_refused plain 5 "mach_1" first_machine two_machines_db approve_only
      "mach_2.mine" second_principal refl refl second_accepted
