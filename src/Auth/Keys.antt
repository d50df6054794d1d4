-- ===== src/Auth/Keys.antt =====
-- server/internal/auth/device.go: the API keys of an account, each with its scope.
use myference.Prelude.{
  ℕ, String, Bool, not, ◌&&◌, ◌||◌, Option, none, some, List, [], ◌∷◌, true, false, find?, any,
  str_eq, ltb, ◌==◌, if◌then◌else◌,
}
use myference.Prelude.Result.{Result, ok, err}
use myference.Auth.Tables.{
  AuthError, invalid_credential, scope_denied, scopes_required, constraint, ApiKeyScope, KeyRow,
  AuthDb, Primitives, contains, is_null, update_where,
}
use myference.Auth.Credentials.{split_credential, credential}

pub record ApiKey : Type 0 where
  pub id : String
  pub token : String

pub record ApiKeyPrincipal : Type 0 where
  pub key_id : String
  pub account_id : String
  pub scope : ApiKeyScope

abbrev pub is_empty_list : List String → Bool
is_empty_list [] = true
is_empty_list (x ∷ xs) = false

-- `allowsModel`
abbrev pub allows_model : List String → String → Bool
allows_model models model = is_empty_list models || contains models model

abbrev pub is_key : String → KeyRow → Bool
is_key id row = str_eq row.id id

-- `RevokeAPIKey`
unfoldable pub revoke_api_key : ℕ → String → AuthDb → AuthDb
revoke_api_key now id db = record db {
  keys = update_where (is_key id) (λ row. record row { revoked_at = some now }) db.keys;
}

-- The scope test of `AuthorizeAPIKey`.
abbrev pub allows : ApiKeyScope → String → String → ℕ → Bool
allows scope model endpoint spend =
    allows_model scope.models model
    && contains scope.endpoints endpoint
    && not (ltb scope.max_spend_wei spend)

module _ (lib : Primitives) where
  open lib use {digest}

  abbrev has_hash : String → KeyRow → Bool
  has_hash hash row = str_eq row.key_hash hash

  -- `CreateAPIKey`; the ID and the secret are drawn at random.
  unfoldable pub create_api_key :
      String → String → String → ApiKeyScope → AuthDb → Result AuthError (ApiKey × AuthDb)
  create_api_key id secret account_id scope db =
      let row : KeyRow = record {
        id = id;
        account_id = account_id;
        key_hash = digest secret;
        scope = scope;
        revoked_at = none;
      } in
      if is_empty_list scope.endpoints || scope.max_spend_wei == 0
      then err scopes_required
      else if any (is_key id) db.keys
          || any (has_hash (digest secret)) db.keys
          || not (contains db.accounts account_id)
      then err constraint
      else ok (record { id = id; token = credential id secret }, record db { keys = row ∷ db.keys })

  -- What `AuthorizeAPIKey` makes of the row that it finds.
  unfoldable pub authorize_row :
      String → String → String → ℕ → Option KeyRow → Result AuthError ApiKeyPrincipal
  authorize_row secret model endpoint spend none = err invalid_credential
  authorize_row secret model endpoint spend (some row) =
      if not (is_null row.revoked_at) || not (str_eq row.key_hash (digest secret))
      then err invalid_credential
      else if not (allows row.scope model endpoint spend)
      then err scope_denied
      else ok (record { key_id = row.id; account_id = row.account_id; scope = row.scope })

  unfoldable pub authorize_parts :
      Option (String × String) → String → String → ℕ → AuthDb → Result AuthError ApiKeyPrincipal
  unfolding authorize_row
  authorize_parts none model endpoint spend db = err invalid_credential
  authorize_parts (some (id, secret)) model endpoint spend db =
      authorize_row secret model endpoint spend (find? (is_key id) db.keys)

  -- `AuthorizeAPIKey`
  unfoldable pub authorize_api_key :
      String → String → String → ℕ → AuthDb → Result AuthError ApiKeyPrincipal
  unfolding authorize_parts split_credential
  authorize_api_key token model endpoint spend db =
      authorize_parts (split_credential token) model endpoint spend db
