-- ===== src/Store/Receipts/Nonces.antt =====
-- The nonces of the receipts of a provider.
use myference.Prelude.{
  ℕ, ◌+◌, ◌<◌, String, Bool, false, ◌&&◌, none, some, List, [], ◌∷◌, ◌≡◌, refl, find?, any, str_eq,
  eq_iff, ◌==◌, arith, Option-cases, inl, inr,
}
use myference.Prelude.Result.{Result, ok, err, Result-cases}
use myference.Protocol.Receipt.{Receipt}
use myference.Store.Receipts.{
  PrepareError, NonceRow, ReceiptDb, ReceiptDomain, HexReader, has_request, last_nonce, take_nonce,
}
use myference.Store.Prepare.{prepare_receipt}
use myference.Store.Receipts.Prepared.{prepare-Prepared}

module _ (hex : HexReader) where
  open hex use {lower}

  -- Whether a row has the nonce of another, for the same provider.
  abbrev pub clashes : NonceRow → NonceRow → Bool
  clashes new row =
      str_eq (lower row.provider_address) (lower new.provider_address) && row.nonce == new.nonce

  -- No two rows have one nonce of one provider, or one request.
  abbrev pub IsNonced : List NonceRow → Type 0
  IsNonced [] = Unit
  IsNonced (row ∷ rows) =
      (any (clashes row) rows ≡ false)
      × (any (has_request row.request_id) rows ≡ false)
      × IsNonced rows

  -- No nonce of a provider is above its last one.
  above_last :
      (id provider : String) (n : ℕ) (rows : List NonceRow)
      → last_nonce hex provider rows < n
      → any (clashes (record { provider_address = provider; nonce = n; request_id = id })) rows
        ≡ false
  unfolding last_nonce
  above_last id provider n [] h = refl
  above_last id provider n (row ∷ rows) h = ground (arith, above_last id provider n rows)

  missing_request :
      (id : String) (rows : List NonceRow)
      → find? (has_request id) rows ≡ none
      → any (has_request id) rows ≡ false
  missing_request id [] h = refl
  missing_request id (row ∷ rows) h = ground (arith, missing_request id rows)

  take-IsNonced :
      (id provider : String) (rows : List NonceRow)
      → IsNonced rows
      → IsNonced (take_nonce hex id provider rows).1
  unfolding take_nonce
  take-IsNonced id provider rows k = elim (Option-cases (find? (has_request id) rows)) [
    | inr (row, there) ↦ rw there k
    | inl missing ↦ rw missing (
      above_last id provider (last_nonce hex provider rows + 1) rows (omega arith),
      missing_request id rows missing,
      k,
    )
  ]

  -- The nonce that the table has for a request.
  abbrev pub Recorded : String → ℕ → List NonceRow → Type 0
  Recorded id n rows = (row : NonceRow) × (find? (has_request id) rows ≡ some row) × (row.nonce ≡ n)

  take-Recorded :
      (id provider : String) (rows : List NonceRow)
      → Recorded id (take_nonce hex id provider rows).0 (take_nonce hex id provider rows).1
  unfolding take_nonce
  take-Recorded id provider rows = elim (Option-cases (find? (has_request id) rows)) [
    | inr (row, there) ↦ rw there (row, there, refl)
    | inl missing ↦ rw missing (
      record {
        provider_address = provider;
        nonce = last_nonce hex provider rows + 1;
        request_id = id;
      },
      ground (arith, eq_iff id id),
      refl,
    )
  ]

  -- A nonce that is recorded is not lost when another is taken.
  kept-Recorded :
      (id q provider : String) (n : ℕ) (rows : List NonceRow)
      → Recorded id n rows
      → Recorded id n (take_nonce hex q provider rows).1
  unfolding take_nonce
  kept-Recorded id q provider n rows (row, there, same) =
      elim (Option-cases (find? (has_request q) rows)) [
        | inr (old, known) ↦ rw known (row, there, same)
        | inl missing ↦
            let other : str_eq q id ≡ false = ground (arith, there, eq_iff q id) in
            rw missing (row, rw other there, same)
      ]

  -- A request takes the nonce that is recorded for it.
  again-Recorded :
      (id provider : String) (n : ℕ) (rows : List NonceRow)
      → Recorded id n rows
      → (take_nonce hex id provider rows).0 ≡ n
  unfolding take_nonce
  again-Recorded id provider n rows (row, there, same) = rw there same

module _ (hex : HexReader) (domain : ReceiptDomain) where
  abbrev committed :
      ReceiptDb → Result PrepareError (Receipt × String × String × ReceiptDb) → ReceiptDb
  committed s (ok (r, machine, signer, s')) = s'
  committed s (err e) = s

  -- A run of `PrepareReceipt` for one request after another; one that fails is rolled back.
  unfoldable pub prepare_all : List String → ReceiptDb → ReceiptDb
  prepare_all [] s = s
  prepare_all (id ∷ ids) s = prepare_all ids (committed s (prepare_receipt hex domain id s))

  prepare-Nonces :
      (id : String) (s : ReceiptDb) (r : Receipt) (machine signer : String) (s' : ReceiptDb)
      → prepare_receipt hex domain id s ≡ ok (r, machine, signer, s')
      → (provider : String) × (s'.nonces ≡ (take_nonce hex id provider s.nonces).1)
        × (r.nonce ≡ (take_nonce hex id provider s.nonces).0)
  prepare-Nonces id s r machine signer s' h =
      let x = prepare-Prepared hex domain id s r machine signer s' h in
      (x.j.provider, rw x.result refl, rw x.receipt refl)

  -- What holds of the table, and is kept when a nonce is taken, is kept by a run.
  prepare_all-keeps :
      (P : List NonceRow → Type 0)
      → ((id provider : String) (rows : List NonceRow)
          → P rows
          → P (take_nonce hex id provider rows).1)
      → (ids : List String) (s : ReceiptDb) → P s.nonces
      → P (prepare_all ids s).nonces
  unfolding prepare_all
  prepare_all-keeps P keeps [] s p = p
  prepare_all-keeps P keeps (id ∷ ids) s p = elim (Result-cases (prepare_receipt hex domain id s)) [
    | inr (e, failed) ↦ rw (failed, prepare_all) (prepare_all-keeps P keeps ids s p)
    | inl ((r, machine, signer, s'), done) ↦
        let (provider, table, _) = prepare-Nonces id s r machine signer s' done in
        rw (done, prepare_all)
          (prepare_all-keeps P keeps ids s' (rw table (keeps id provider s.nonces p)))
  ]

  -- If no two receipts have one nonce of one provider, and no request has two nonces, they stay so
  -- through a preparation of a request that succeeds, any run of preparations after it, failing ones
  -- included, and another one of the same request that succeeds: its receipt has the nonce of the
  -- first, which the table has for the request.
  pub prepare-IsNonced :
      (id : String) (s : ReceiptDb) (r : Receipt) (machine signer : String) (s' : ReceiptDb)
      (ids : List String) (r' : Receipt) (machine' signer' : String) (s'' : ReceiptDb)
      → IsNonced hex s.nonces
      → prepare_receipt hex domain id s ≡ ok (r, machine, signer, s')
      → prepare_receipt hex domain id (prepare_all ids s') ≡ ok (r', machine', signer', s'')
      → IsNonced hex s''.nonces × (r'.nonce ≡ r.nonce) × Recorded hex id r.nonce s''.nonces
  prepare-IsNonced id s r machine signer s' ids r' machine' signer' s'' k h h' =
      let (provider, table, number) = prepare-Nonces id s r machine signer s' h in
      let (provider', table', number') =
        prepare-Nonces id (prepare_all ids s') r' machine' signer' s'' h' in
      let nonced : IsNonced hex s'.nonces = rw table (take-IsNonced hex id provider s.nonces k) in
      let recorded : Recorded hex id r.nonce s'.nonces =
        rw (table, number) (take-Recorded hex id provider s.nonces) in
      let run =
        prepare_all-keeps (IsNonced hex) (λ q p rows n. take-IsNonced hex q p rows n) ids s'
          nonced in
      let kept =
        prepare_all-keeps (Recorded hex id r.nonce)
          (λ q p rows n. kept-Recorded hex id q p r.nonce rows n) ids s' recorded in
      (
        rw table' (take-IsNonced hex id provider' (prepare_all ids s').nonces run),
        rw number' (again-Recorded hex id provider' r.nonce (prepare_all ids s').nonces kept),
        rw table' (kept-Recorded hex id id provider' r.nonce (prepare_all ids s').nonces kept),
      )
