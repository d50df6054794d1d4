-- ===== src/Auth/Tables.antt =====
-- server/internal/auth/device.go: the tables that it reads and writes, by the columns that it uses.
-- A row is inserted in front of the others. Of an account it counts only that it exists.
use myference.Prelude.{
  ℕ, String, Bool, true, false, Option, none, some, List, [], ◌∷◌, ◌≡◌, refl, find?, any, str_eq,
  arith, if◌then◌else◌, Bool-cases, inl, inr,
}

pub data AuthError : Type 0 where
  authorization_pending authorization_expired authorization_consumed : AuthError
  invalid_credential scope_denied : AuthError
  device_fields_required scopes_required constraint : AuthError

pub record DeviceRow : Type 0 where
  pub device_code_hash : String
  pub user_code_hash : String
  pub machine_name : String
  pub signer_address : String
  pub expires_at : ℕ
  pub account_id : Option String
  pub approved_at : Option ℕ
  pub exchanged_at : Option ℕ

pub record MachineRow : Type 0 where
  pub id : String
  pub account_id : String
  pub name : String
  pub signer_address : String
  pub revoked_at : Option ℕ

pub record TokenRow : Type 0 where
  pub machine_id : String
  pub token_hash : String
  pub revoked_at : Option ℕ

-- `APIKeyScope`; the column holds its JSON.
pub record ApiKeyScope : Type 0 where
  pub models : List String
  pub endpoints : List String
  pub max_spend_wei : ℕ

pub record KeyRow : Type 0 where
  pub id : String
  pub account_id : String
  pub key_hash : String
  pub scope : ApiKeyScope
  pub revoked_at : Option ℕ

pub record AuthDb : Type 0 where
  pub accounts : List String
  pub devices : List DeviceRow
  pub machines : List MachineRow
  pub tokens : List TokenRow
  pub keys : List KeyRow

-- The libraries that the package calls: SHA-256, the database's `lower`, and the checksummed form
-- of an address, if it is a hex address and not zero.
pub record Primitives : Type 0 where
  pub digest : String → String
  pub lower : String → String
  pub hex_address : String → Option String

-- `contains`
abbrev pub contains : List String → String → Bool
contains values wanted = any (λ value. str_eq value wanted) values

-- Whether a nullable column is NULL.
abbrev pub is_null {ℓ} : {A : Type ℓ} → Option A → Bool
is_null none = true
is_null (some _) = false

module _ {ℓ} {A : Type ℓ} where
  -- UPDATE … SET … WHERE
  abbrev pub update_where : (A → Bool) → (A → A) → List A → List A
  update_where p f [] = []
  update_where p f (x ∷ xs) = (if p x then f x else x) ∷ update_where p f xs

  -- What an update makes of the row that a query finds.
  abbrev pub touch : (A → Bool) → (A → A) → Option A → Option A
  touch p f none = none
  touch p f (some x) = some (if p x then f x else x)

  -- An update that leaves the key of a row alone changes the row that is found by it, in its place.
  pub find?-update_where :
      (key p : A → Bool) (f : A → A) (xs : List A)
      → ((x : A) → key (f x) ≡ key x)
      → find? key (update_where p f xs) ≡ touch p f (find? key xs)
  find?-update_where key p f [] same = refl
  find?-update_where key p f (x ∷ xs) same =
      ground (arith, same x, find?-update_where key p f xs same)

  pub any-find? :
      (p : A → Bool) (xs : List A) → any p xs ≡ (if is_null (find? p xs) then false else true)
  any-find? p [] = refl
  any-find? p (x ∷ xs) = ground (arith, any-find? p xs)

  pub find?-passes : (p : A → Bool) (xs : List A) (x : A) → find? p xs ≡ some x → p x ≡ true
  find?-passes p [] x h = absurd (ground arith)
  find?-passes p (y ∷ ys) x h = elim (Bool-cases (p y)) [
    | inl hit ↦ ground arith
    | inr miss ↦ ground (arith, find?-passes p ys x)
  ]
