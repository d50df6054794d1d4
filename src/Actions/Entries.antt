-- ===== src/Actions/Entries.antt =====
-- The map of the action store: each entry stands under its own id, once, and there are at most 1024.
use myference.Prelude.{
  ℕ, ◌+◌, ◌≤◌, String, Bool, true, false, not, Option, none, some, List, [], ◌∷◌, ◌≡◌, ap, ◌∙◌, ◌⊎◌,
  inl, inr, refl, str_eq, eq_iff, arith, Bool-cases, Option-cases, leb, length, keep, All,
}
use myference.Prelude.Result.{ok, err, Result-cases}
use myference.Actions.Inputs.{Input}
use myference.Actions.{
  Action, Baseline, Items, item, delete, put, purge, owned, create, submitted, submit, confirm,
  insert, new_action, checked_input, is_live, max_provider_actions, not_found, pending_chain,
  confirmed,
}

length-keep {ℓ} : {A : Type ℓ} (p : A → Bool) (xs : List A) → length (keep p xs) ≤ length xs
length-keep p [] = omega arith
length-keep p (x ∷ xs) = ground (arith, length-keep p xs)

All-keep {ℓ κ} :
    {A : Type ℓ} (P : A → Type κ) (p : A → Bool) (xs : List A) → All P xs → All P (keep p xs)
All-keep P p [] h = tt
All-keep P p (x ∷ xs) (h, hs) = elim (Bool-cases (p x)) [
  | inl t ↦ rw t (h, All-keep P p xs hs)
  | inr t ↦ rw t (All-keep P p xs hs)
]

-- No entry stands under `id`.
abbrev pub Lacks : String → Items → Type 0
Lacks id = All (λ e. str_eq e.0 id ≡ false)

-- Each entry stands under its own id, and no id twice.
abbrev pub Keyed : Items → Type 0
Keyed [] = Unit
Keyed ((k, a) ∷ rest) = (a.id ≡ k) × Lacks k rest × Keyed rest

unfoldable pub IsStore : Items → Type 0
IsStore items = (length items ≤ max_provider_actions) × Keyed items

Keyed-keep : (p : (String × Action) → Bool) (items : Items) → Keyed items → Keyed (keep p items)
Keyed-keep p [] h = tt
Keyed-keep p ((k, a) ∷ rest) (own, lacks, ks) = elim (Bool-cases (p (k, a))) [
  | inl t ↦ rw t (own, All-keep (λ e. str_eq e.0 k ≡ false) p rest lacks, Keyed-keep p rest ks)
  | inr t ↦ rw t (Keyed-keep p rest ks)
]

Lacks-delete : (id : String) (items : Items) → Lacks id (delete items id)
unfolding delete
Lacks-delete id [] = tt
Lacks-delete id ((k, a) ∷ rest) = elim (Bool-cases (str_eq k id)) [
  | inl t ↦ rw t (Lacks-delete id rest)
  | inr t ↦ rw t (t, Lacks-delete id rest)
]

item-Lacks : (id : String) (items : Items) → Lacks id items → item items id ≡ none
unfolding item
item-Lacks id [] h = refl
item-Lacks id ((k, a) ∷ rest) (h, hs) = ground (arith, item-Lacks id rest hs)

length-delete : (id : String) (items : Items) → length (delete items id) ≤ length items
unfolding delete
length-delete id items = length-keep _ items

-- Replacing an entry that is there does not make the map longer.
length-delete-item :
    (id : String) (items : Items) (a : Action)
    → item items id ≡ some a
    → length (delete items id) + 1 ≤ length items
unfolding delete item
length-delete-item id [] a h = ground arith
length-delete-item id ((k, b) ∷ rest) a h =
    ground (arith, length-delete-item id rest a, length-delete id rest)

pub item-put-same : (items : Items) (id : String) (a : Action) → item (put items id a) id ≡ some a
unfolding put item
item-put-same items id a = ground (arith, eq_iff id id)

-- An entry is found under its own id.
pub item-id :
    (items : Items) (id : String) (a : Action) → Keyed items → item items id ≡ some a → a.id ≡ id
unfolding item
item-id [] id a k h = ground arith
item-id ((q, b) ∷ rest) id a (own, lacks, ks) h = ground (arith, item-id rest id a ks, eq_iff q id)

delete-IsStore : (items : Items) (id : String) → IsStore items → IsStore (delete items id)
unfolding IsStore delete
delete-IsStore items id (n, k) =
    (omega (arith, length-keep (λ e. not (str_eq e.0 id)) items), Keyed-keep _ items k)

pub replace-IsStore :
    (items : Items) (id : String) (a b : Action)
    → item items id ≡ some b
    → a.id ≡ id
    → IsStore items
    → IsStore (put items id a)
unfolding IsStore put
replace-IsStore items id a b found own (n, k) = (
  omega (arith, length-delete-item id items b found),
  (own, Lacks-delete id items, (delete-IsStore items id (n, k)).1),
)

pub insert-IsStore :
    (now : ℕ) (items : Items) (a : Action) → IsStore items → IsStore (insert now items a).0
unfolding IsStore insert purge
insert-IsStore now items a (n, k) =
    let live = keep (λ e. is_live now e.1) items in
    let kept : IsStore live =
      (omega (arith, length-keep (λ e. is_live now e.1) items), Keyed-keep _ items k) in
    elim (Bool-cases (leb max_provider_actions (length live))) [
      | inl t ↦ rw t kept
      | inr t ↦ rw t (
        ground (arith, length-delete a.id live),
        (refl, Lacks-delete a.id live, (delete-IsStore live a.id kept).1),
      )
    ]

-- The outcomes of the lookup: refused, with at most the entry itself dropped, or the entry.
pub data Lookup (now : ℕ) (items : Items) (id account_id : String) : Type 0 where
  refused :
      (owned now items id account_id).1 ≡ err not_found
      → ((owned now items id account_id).0 ≡ items)
        ⊎ ((owned now items id account_id).0 ≡ delete items id)
      → Lookup now items id account_id
  found :
      (a : Action)
      → owned now items id account_id ≡ (items, ok a)
      → item items id ≡ some a
      → is_live now a ≡ true
      → str_eq a.account_id account_id ≡ true
      → Lookup now items id account_id

pub Lookup-owned :
    (now : ℕ) (items : Items) (id account_id : String) → Lookup now items id account_id
unfolding owned
Lookup-owned now items id account_id = elim (Option-cases (item items id)) [
  | inl none_there ↦ Lookup.refused (ground arith) (inr (ground arith))
  | inr (a, there) ↦ elim (Bool-cases (is_live now a)) [
    | inr late ↦ Lookup.refused (ground arith) (inr (ground arith))
    | inl live ↦ elim (Bool-cases (str_eq a.account_id account_id)) [
      | inl own ↦ Lookup.found a (ground arith) there live own
      | inr other ↦ Lookup.refused (ground arith) (inl (ground arith))
    ]
  ]
]

pub owned-IsStore :
    (now : ℕ) (items : Items) (id account_id : String)
    → IsStore items
    → IsStore (owned now items id account_id).0
owned-IsStore now items id account_id h = elim (Lookup-owned now items id account_id) [
  | Lookup.refused e (inl same) ↦ rw same h
  | Lookup.refused e (inr dropped) ↦ rw dropped (delete-IsStore items id h)
  | Lookup.found a e _ _ _ ↦ rw e h
]

-- What `submit` leaves behind: the map as it was, or the action pending on the chain.
abbrev pub sent_with : Action → List String → Action
sent_with a hashes = record a { transaction_hashes = hashes; status = pending_chain }

pub submit_leaves :
    (items : Items) (hashes : List String) (a : Action)
    → ((submit items hashes a).0 ≡ items)
      ⊎ (submit items hashes a ≡ (put items a.id (sent_with a hashes), ok (sent_with a hashes)))
unfolding submit put
submit_leaves items hashes a = ground arith

refused_submitted :
    (now : ℕ) (items : Items) (id account_id : String) (hashes : List String)
    → (owned now items id account_id).1 ≡ err not_found
    → (submitted now items id account_id hashes).0 ≡ (owned now items id account_id).0
unfolding submitted
refused_submitted now items id account_id hashes e = ground arith

found_submitted :
    (now : ℕ) (items : Items) (id account_id : String) (hashes : List String) (a : Action)
    → owned now items id account_id ≡ (items, ok a)
    → submitted now items id account_id hashes ≡ submit items hashes a
unfolding submitted
found_submitted now items id account_id hashes a e = ground arith

pub submitted-IsStore :
    (now : ℕ) (items : Items) (id account_id : String) (hashes : List String)
    → IsStore items
    → IsStore (submitted now items id account_id hashes).0
unfolding IsStore
submitted-IsStore now items id account_id hashes h = elim (Lookup-owned now items id account_id) [
  | Lookup.refused e dropped ↦
      rw (refused_submitted now items id account_id hashes e)
        (owned-IsStore now items id account_id h)
  | Lookup.found a e there _ _ ↦
      let own = item-id items id a h.1 there in
      elim (submit_leaves items hashes a) [
        | inl same ↦ rw (found_submitted now items id account_id hashes a e, same) h
        | inr put_back ↦
            rw (found_submitted now items id account_id hashes a e, put_back)
              (replace-IsStore items a.id (sent_with a hashes) a (ap (item items) own ∙ there) refl
                h)
      ]
]

pub confirm-IsStore :
    (items : Items) (id account_id : String) (versions : List (String × ℕ))
    → IsStore items
    → IsStore (confirm items id account_id versions).0
unfolding IsStore confirm
confirm-IsStore items id account_id versions h = elim (Option-cases (item items id)) [
  | inl none_there ↦ rw (none_there, confirm) h
  | inr (a, there) ↦
      let replaced =
        replace-IsStore items id (record a { status = confirmed; versions = versions }) a there
          (item-id items id a h.1 there) h in
      elim (Bool-cases (str_eq a.account_id account_id)) [
        | inl own ↦ rw (there, own, confirm) replaced
        | inr other ↦ rw (there, other, confirm) h
      ]
]

pub create-IsStore :
    (sort : List String → List String) (now : ℕ) (fresh : Option String) (items : Items)
    (machine_id account_id wallet : String) (input : Input) (baseline : Baseline)
    → IsStore items
    → IsStore (create sort now fresh items machine_id account_id wallet input baseline).0
unfolding create
create-IsStore sort now fresh items machine_id account_id wallet input baseline h =
    elim (Result-cases (checked_input sort account_id wallet input)) [
      | inr (e, bad) ↦ rw (bad, create) h
      | inl (valid, fine) ↦ elim (Option-cases fresh) [
        | inl no_id ↦ rw (fine, no_id, create) h
        | inr (id, given) ↦
            rw (fine, given, create)
              (insert-IsStore now items
                (new_action now id machine_id account_id wallet baseline valid) h)
      ]
    ]
