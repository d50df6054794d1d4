-- ===== src/Actions/Lifecycle.antt =====
-- What the action store promises to the provider that asked for an action, and to every other.
use myference.Prelude.{
  ℕ, ◌+◌, ◌<◌, ◌≤◌, String, true, false, Option, some, List, [], ◌∷◌, ◌≡◌, ◌⊎◌, inl, inr, refl, ap,
  sym, if◌then◌else◌, ◌∙◌, str_eq, eq_iff, arith, Bool-cases, Option-cases, ◌==◌, ◌||◌, ltb, leb,
  length, all, keep,
}
use myference.Prelude.Result.{ok, err, Result-cases}
use myference.Actions.Inputs.{Input, is_transaction_hash}
use myference.Actions.{
  Action, Baseline, Items, item, delete, put, owned, get_for_account, create, submitted, submit,
  confirm, insert, new_action, checked_input, is_live, is_confirmed, max_provider_actions,
  not_found, pending_wallet, hashes_mismatch, invalid_hash, at_least_one,
}
use myference.Actions.Entries.{
  IsStore, create-IsStore, owned-IsStore, submitted-IsStore, confirm-IsStore, item-put-same,
  sent_with,
}

-- A call of the store, with the time at which it is made.
pub data ActionCall : Type 0 where
  create_call :
      (List String → List String)
      → ℕ
      → Option String
      → String
      → String
      → String
      → Input
      → Baseline
      → ActionCall
  get_call : ℕ → String → String → ActionCall
  submitted_call : ℕ → String → String → List String → ActionCall
  confirm_call : String → String → List (String × ℕ) → ActionCall

unfoldable pub perform_call : Items → ActionCall → Items
perform_call items (create_call sort now fresh machine account wallet input baseline) =
    (create sort now fresh items machine account wallet input baseline).0
perform_call items (get_call now id account) = (get_for_account now items id account).0
perform_call items (submitted_call now id account hashes) =
    (submitted now items id account hashes).0
perform_call items (confirm_call id account versions) = (confirm items id account versions).0

unfoldable pub perform_calls : Items → List ActionCall → Items
perform_calls items [] = items
perform_calls items (c ∷ cs) = perform_calls (perform_call items c) cs

call-IsStore : (items : Items) (c : ActionCall) → IsStore items → IsStore (perform_call items c)
unfolding perform_call get_for_account
call-IsStore items (create_call sort now fresh machine account wallet input baseline) h =
    create-IsStore sort now fresh items machine account wallet input baseline h
call-IsStore items (get_call now id account) h = owned-IsStore now items id account h
call-IsStore items (submitted_call now id account hashes) h =
    submitted-IsStore now items id account hashes h
call-IsStore items (confirm_call id account versions) h =
    confirm-IsStore items id account versions h

-- A store with at most 1024 actions, each under its own id and no id twice, stays so, whatever
-- calls are made.
pub perform_calls-IsStore :
    (items : Items) (cs : List ActionCall) → IsStore items → IsStore (perform_calls items cs)
unfolding perform_calls
perform_calls-IsStore items [] h = h
perform_calls-IsStore items (c ∷ cs) h =
    perform_calls-IsStore (perform_call items c) cs (call-IsStore items c h)

-- To an account that does not own a live action the store answers as if there were none, whichever
-- call it makes, and keeps the map as it is.
stranger_refused :
    (now : ℕ) (items : Items) (id account_id : String) (hashes : List String)
    (versions : List (String × ℕ)) (a : Action)
    → item items id ≡ some a
    → is_live now a ≡ true
    → str_eq a.account_id account_id ≡ false
    → (get_for_account now items id account_id ≡ (items, err not_found))
      × (submitted now items id account_id hashes ≡ (items, err not_found))
      × (confirm items id account_id versions ≡ (items, err not_found))
unfolding get_for_account submitted confirm owned
stranger_refused now items id account_id hashes versions a there live other =
    (ground arith, ground arith, ground arith)

inserted :
    (now : ℕ) (items : Items) (a b : Action)
    → (insert now items a).1 ≡ ok b
    → (b ≡ a) × (item (insert now items a).0 a.id ≡ some a)
unfolding insert
inserted now items a b h =
    let live = keep (λ e. is_live now e.1) items in
    elim (Bool-cases (leb max_provider_actions (length live))) [
      | inl full ↦ ground arith
      | inr room ↦ (ground arith, rw room (item-put-same live a.id a))
    ]

-- A creation that succeeds is an insertion of a new action.
create_inserts :
    (sort : List String → List String) (now : ℕ) (fresh : Option String) (items : Items)
    (machine_id account_id wallet : String) (input : Input) (baseline : Baseline) (a : Action)
    → (create sort now fresh items machine_id account_id wallet input baseline).1 ≡ ok a
    → (id : String) × (valid : Input) × (create sort now fresh items machine_id account_id wallet
          input baseline
        ≡ insert now items (new_action now id machine_id account_id wallet baseline valid))
unfolding create
create_inserts sort now fresh items machine_id account_id wallet input baseline a h =
    elim (Result-cases (checked_input sort account_id wallet input)) [
      | inr (e, bad) ↦ ground arith
      | inl (valid, fine) ↦ elim (Option-cases fresh) [
        | inl no_id ↦ ground arith
        | inr (id, given) ↦ (id, valid, rw (fine, given, create) refl)
      ]
    ]

-- The owner finds an entry while it is live; afterwards it is dropped.
owner_finds :
    (later : ℕ) (items : Items) (a : Action)
    → item items a.id ≡ some a
    → get_for_account later items a.id a.account_id
      ≡ (if ltb later a.expires_at then (items, ok a) else (delete items a.id, err not_found))
unfolding get_for_account owned
owner_finds later items a there = ground (arith, eq_iff a.account_id a.account_id)

-- An action that was created waits for the wallet, is found by its account for 15 minutes, and
-- from then on is dropped when it is looked for.
created_until_expiry :
    (sort : List String → List String) (now later : ℕ) (fresh : Option String)
    (items items' : Items) (machine_id account_id wallet : String) (input : Input)
    (baseline : Baseline) (a : Action)
    → create sort now fresh items machine_id account_id wallet input baseline ≡ (items', ok a)
    → (a.status ≡ pending_wallet)
      × (get_for_account later items' a.id account_id
          ≡ (if ltb later (now + 900) then (items', ok a) else (delete items' a.id, err not_found)))
unfolding new_action
created_until_expiry sort now later fresh items items' machine_id account_id wallet input baseline a
      h =
    let (id, valid, e) =
      create_inserts sort now fresh items machine_id account_id wallet input baseline a
        (ap (λ o. o.1) h) in
    let new : Action = new_action now id machine_id account_id wallet baseline valid in
    let (same, there) = inserted now items new a (ap (λ o. o.1) (sym e ∙ h)) in
    let kept : item items' id ≡ some new = sym (ap (λ o. item o.0 id) (sym e ∙ h)) ∙ there in
    rw same (refl, owner_finds later items' new kept)

submitted_of_owner :
    (now : ℕ) (items : Items) (id account_id : String) (hashes : List String) (a : Action)
    → item items id ≡ some a
    → is_live now a ≡ true
    → a.account_id ≡ account_id
    → submitted now items id account_id hashes ≡ submit items hashes a
unfolding submitted owned
submitted_of_owner now items id account_id hashes a there live own =
    ground (arith, eq_iff a.account_id account_id)

submit_of_waiting :
    (items : Items) (hashes : List String) (a : Action)
    → is_confirmed a.status ≡ false
    → ((submit items hashes a ≡ (put items a.id (sent_with a hashes), ok (sent_with a hashes)))
        × (0 < length hashes)
        × ((length hashes ≤ 1) ⊎ (length hashes ≤ length a.offers))
        × (all is_transaction_hash hashes ≡ true))
      ⊎ (submit items hashes a ≡ (items, err hashes_mismatch))
      ⊎ (submit items hashes a ≡ (items, err invalid_hash))
unfolding submit put
submit_of_waiting items hashes a waiting =
    elim (Bool-cases (length hashes == 0 || ltb (at_least_one (length a.offers)) (length hashes))) [
      | inl wrong ↦ inr (inl (rw (waiting, wrong) refl))
      | inr right ↦ elim (Bool-cases (all is_transaction_hash hashes)) [
        | inl formed ↦ inl (rw (waiting, right, formed) refl, ground arith, ground arith, formed)
        | inr bad ↦ inr (inr (rw (waiting, right, bad) refl))
      ]
    ]

-- The owner of a live action that is not confirmed may report one to as many transaction hashes as
-- it has offers (one if it has none): if all are well formed the action waits for the chain with
-- exactly these hashes, and otherwise nothing changes.
pub submitted_by_owner :
    (now : ℕ) (items : Items) (id account_id : String) (hashes : List String) (a : Action)
    → item items id ≡ some a
    → is_live now a ≡ true
    → a.account_id ≡ account_id
    → a.id ≡ id
    → is_confirmed a.status ≡ false
    → ((submitted now items id account_id hashes
          ≡ (put items id (sent_with a hashes), ok (sent_with a hashes)))
        × (0 < length hashes)
        × ((length hashes ≤ 1) ⊎ (length hashes ≤ length a.offers))
        × (all is_transaction_hash hashes ≡ true))
      ⊎ (submitted now items id account_id hashes ≡ (items, err hashes_mismatch))
      ⊎ (submitted now items id account_id hashes ≡ (items, err invalid_hash))
submitted_by_owner now items id account_id hashes a there live own named waiting =
    let found = submitted_of_owner now items id account_id hashes a there live own in
    rw (found, sym named) (submit_of_waiting items hashes a waiting)
