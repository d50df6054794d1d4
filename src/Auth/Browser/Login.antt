-- ===== src/Auth/Browser/Login.antt =====
-- A login of server/internal/auth/browser.go gives a session that the service recognises.
use myference.Prelude.{
  ℕ, ◌<◌, String, Bool, true, false, some, List, [], ◌∷◌, ◌≡◌, refl, find?, eq_iff, is_empty, arith,
  Bool-cases, Option-cases, inl, inr,
}
use myference.Prelude.Result.{ok, Result-cases}
use myference.Auth.Credentials.{has_no_dot, split-credential}
use myference.Auth.Browser.{
  ChallengeRow, BrowserDb, BrowserSession, BrowserLibrary, WalletRow, has_challenge, has_account,
  verify_wallet_challenge, verifiable, account_for, open_session, has_wallet,
  authenticate_browser_session,
}

-- Something is found by any test that a row passes.
find?-present :
    (p q : WalletRow → Bool) (rows : List WalletRow) (row : WalletRow)
    → find? p rows ≡ some row
    → q row ≡ true
    → (found : WalletRow) × (find? q rows ≡ some found)
find?-present p q [] row h passes = absurd (ground arith)
find?-present p q (r ∷ rows) row h passes = elim (Bool-cases (q r)) [
  | inl hit ↦ (r, rw hit refl)
  | inr miss ↦
      let later : find? p rows ≡ some row = ground (arith, h, passes, miss) in
      let (found, there) = find?-present p q rows row later passes in (found, rw miss there)
]

-- The account of a session, in the tables.
abbrev HasAccount : String × BrowserDb → Type 0
HasAccount (account, db) =
    (wallet : WalletRow) × (find? (has_account account) db.wallets ≡ some wallet)

account_for-HasAccount :
    (fresh address : String) (p : WalletRow → Bool) (db : BrowserDb) (made : String × BrowserDb)
    → account_for fresh address db (find? p db.wallets) ≡ ok made
    → HasAccount made
account_for-HasAccount fresh address p db made h = elim (Option-cases (find? p db.wallets)) [
  | inl new ↦
      (record { id = fresh; wallet_address = address }, ground (arith, new, eq_iff fresh fresh))
  | inr (row, known) ↦
      let there =
        find?-present p (has_account row.id) db.wallets row known
          (ground (arith, eq_iff row.id row.id)) in
      (there.0, ground (arith, known, there.1))
]

module _ (lib : BrowserLibrary) where
  open_session-authenticates :
      (later lifetime : ℕ) (id secret : String) (row : ChallengeRow) (made : String × BrowserDb)
      (r : BrowserSession × BrowserDb) (now : ℕ)
      → open_session lib later lifetime id secret row made ≡ ok r
      → HasAccount made
      → has_no_dot id ≡ true
      → is_empty id ≡ false
      → is_empty secret ≡ false
      → now < r.0.expires_at
      → (wallet : WalletRow) × (find? (has_account r.0.account_id) r.1.wallets ≡ some wallet)
        × (authenticate_browser_session lib now r.0.token r.1
            ≡ ok (record r.0 { token = ""; wallet_address = wallet.wallet_address }))
  unfolding authenticate_browser_session
  open_session-authenticates later lifetime id secret row made r now h (wallet, there) no_dot named
        given early =
      let split = split-credential id secret no_dot named given in
      (
        wallet,
        ground (arith, there),
        ground (arith, there, split, eq_iff id id, eq_iff (lib.digest secret) (lib.digest secret)),
      )

  -- A login gives a session that is recognised: with an ID that has no dot and a secret that is not
  -- empty, the token of the session is accepted until the session expires, and gives the session
  -- back with its account and expiry and with the wallet that its account has in the tables.
  pub login_recognised :
      (now later : ℕ) (fresh id secret c origin signature : String) (lifetime : ℕ) (db : BrowserDb)
      (r : BrowserSession × BrowserDb) (now' : ℕ)
      → verify_wallet_challenge lib now later fresh id secret c origin signature lifetime db ≡ ok r
      → has_no_dot id ≡ true
      → is_empty id ≡ false
      → is_empty secret ≡ false
      → now' < r.0.expires_at
      → (wallet : WalletRow) × (find? (has_account r.0.account_id) r.1.wallets ≡ some wallet)
        × (authenticate_browser_session lib now' r.0.token r.1
            ≡ ok (record r.0 { token = ""; wallet_address = wallet.wallet_address }))
  unfolding verify_wallet_challenge
  login_recognised now later fresh id secret c origin signature lifetime db r now' h no_dot named
        given early =
      let o = find? (has_challenge c) db.challenges in
      elim (Result-cases (verifiable lib now origin signature o)) [
        | inr (e, refused) ↦ absurd (ground arith)
        | inl (row, passed) ↦
            let p = has_wallet lib row.wallet_address in
            elim (Result-cases (account_for fresh row.wallet_address db (find? p db.wallets))) [
              | inr (e, failed) ↦ absurd (ground arith)
              | inl (made, done) ↦
                  open_session-authenticates later lifetime id secret row made r now' (ground arith)
                    (account_for-HasAccount fresh row.wallet_address p db made done) no_dot named
                    given early
            ]
      ]
