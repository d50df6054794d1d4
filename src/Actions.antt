-- ===== src/Actions.antt =====
-- server/internal/api/provider_action.go: the actions that a provider's wallet is asked to sign.
-- A time is a number of seconds, and the store's clock is an argument of each operation. The map of
-- the store is the list of its entries, each under its own id.
pub mod Inputs
pub mod Entries
pub mod Lifecycle
pub mod Offers
use myference.Prelude.{
  ℕ, ◌+◌, ◌*◌, ◌==◌, String, Bool, true, false, not, ◌&&◌, ◌||◌, Option, none, some, List, [], ◌∷◌,
  ltb, leb, str_eq, is_blank, length, all, keep, if◌then◌else◌,
}
use myference.Prelude.Result.{Result, ok, err, ◌>>=◌, ◌>>◌, fail_if}
use myference.Actions.Inputs.{Offer, Input, InputError, validate_input, is_transaction_hash}

pub data ActionError : Type 0 where
  account_required id_unavailable too_many not_found hashes_mismatch invalid_hash : ActionError
  invalid_input : InputError → ActionError

pub data ActionStatus : Type 0 where
  pending_wallet pending_chain confirmed : ActionStatus

pub record Baseline : Type 0 where
  pub bond_wei : String
  pub claimable_wei : String
  pub exit_available_at : ℕ
  pub versions : List (String × ℕ)

pub record Action : Type 0 where
  pub id : String
  pub kind : String
  pub status : ActionStatus
  pub wallet_address : String
  pub amount_wei : String
  pub offers : List Offer
  pub transaction_hashes : List String
  pub versions : List (String × ℕ)
  pub expires_at : ℕ
  pub machine_id : String
  pub account_id : String
  pub baseline : Baseline

abbrev pub provider_action_ttl : ℕ
provider_action_ttl = 15 * 60

abbrev pub max_provider_actions : ℕ
max_provider_actions = 1024

-- The store's map.
abbrev pub Items : Type 0
Items = List (String × Action)

unfoldable pub item : Items → String → Option Action
item [] id = none
item ((k, a) ∷ rest) id = let found = item rest id in if str_eq k id then some a else found

-- `delete(m, id)`
unfoldable pub delete : Items → String → Items
delete items id = keep (λ e. not (str_eq e.0 id)) items

-- `m[id] = action`
unfoldable pub put : Items → String → Action → Items
unfolding delete
put items id action = (id, action) ∷ delete items id

abbrev pub is_live : ℕ → Action → Bool
is_live now action = ltb now action.expires_at

-- `purgeLocked`
unfoldable pub purge : ℕ → Items → Items
purge now items = keep (λ e. is_live now e.1) items

-- The part of `Create` that holds the lock.
unfoldable pub insert : ℕ → Items → Action → Items × Result ActionError Action
unfolding purge put
insert now items action =
    let live = purge now items in
    if leb max_provider_actions (length live)
    then (live, err too_many)
    else (put live action.id action, ok action)

unfoldable pub new_action : ℕ → String → String → String → String → Baseline → Input → Action
new_action now id machine_id account_id wallet baseline input = record {
  id = id;
  kind = input.kind;
  status = pending_wallet;
  wallet_address = wallet;
  amount_wei = input.amount_wei;
  offers = input.offers;
  transaction_hashes = [];
  versions = [];
  expires_at = now + provider_action_ttl;
  machine_id = machine_id;
  account_id = account_id;
  baseline = baseline;
}

abbrev pub checked_input :
    (List String → List String) → String → String → Input → Result ActionError Input
checked_input sort account_id wallet input =
    if is_blank account_id || is_blank wallet
    then err account_required
    else elim (validate_input sort input) [ ok valid ↦ ok valid | err e ↦ err (invalid_input e) ]

-- `Create`; `sort` is `slices.Sort`, and `fresh` the id that the random source gives, if it gives one.
unfoldable pub create :
    (List String → List String)
    → ℕ
    → Option String
    → Items
    → String
    → String
    → String
    → Input
    → Baseline
    → Items × Result ActionError Action
unfolding insert new_action
create sort now fresh items machine_id account_id wallet input baseline =
    elim (checked_input sort account_id wallet input) [
      | err e ↦ (items, err e)
      | ok valid ↦ elim fresh [
        | none ↦ (items, err id_unavailable)
        | some id ↦ insert now items (new_action now id machine_id account_id wallet baseline valid)
      ]
    ]

-- The lookup that `GetForAccount` and `Submitted` begin with, which drops an entry that has expired.
unfoldable pub owned : ℕ → Items → String → String → Items × Result ActionError Action
unfolding item delete
owned now items id account_id = elim (item items id) [
  | none ↦ (delete items id, err not_found)
  | some action ↦
      if not (is_live now action)
      then (delete items id, err not_found)
      else if not (str_eq action.account_id account_id)
      then (items, err not_found)
      else (items, ok action)
]

-- `GetForAccount`
unfoldable pub get_for_account : ℕ → Items → String → String → Items × Result ActionError Action
unfolding owned
get_for_account now items id account_id = owned now items id account_id

abbrev pub is_confirmed : ActionStatus → Bool
is_confirmed confirmed = true
is_confirmed _ = false

abbrev pub at_least_one : ℕ → ℕ
at_least_one n = if ltb n 1 then 1 else n

-- What `Submitted` does with an action that it may change.
unfoldable pub submit : Items → List String → Action → Items × Result ActionError Action
unfolding put
submit items hashes action =
    if is_confirmed action.status
    then (items, ok action)
    else if length hashes == 0 || ltb (at_least_one (length action.offers)) (length hashes)
    then (items, err hashes_mismatch)
    else if not (all is_transaction_hash hashes)
    then (items, err invalid_hash)
    else (let changed = record action { transaction_hashes = hashes; status = pending_chain } in
        (put items action.id changed, ok changed))

-- `Submitted`. The entry is stored under the id that it was found with, which is its own.
unfoldable pub submitted :
    ℕ → Items → String → String → List String → Items × Result ActionError Action
unfolding owned submit
submitted now items id account_id hashes =
    let (kept, found) = owned now items id account_id in
    elim found [ err e ↦ (kept, err e) | ok action ↦ submit kept hashes action ]

-- `Confirm`, which does not look at the clock.
unfoldable pub confirm :
    Items → String → String → List (String × ℕ) → Items × Result ActionError Action
unfolding item put
confirm items id account_id versions = elim (item items id) [
  | none ↦ (items, err not_found)
  | some action ↦
      if not (str_eq action.account_id account_id)
      then (items, err not_found)
      else (let changed = record action { status = confirmed; versions = versions } in
          (put items id changed, ok changed))
]
