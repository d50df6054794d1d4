-- ===== src/Auth/Browser.antt =====
-- server/internal/auth/browser.go: the login of a wallet and the sessions of a browser. Times are in
-- nanoseconds, and the random texts are arguments.
pub mod Once
pub mod Login
use Prim.Native.String.{◌++◌ as append}
use myference.Prelude.{
  ℕ, ◌+◌, ◌-◌, ◌%◌, ◌^◌, String, Bool, true, false, not, ◌&&◌, ◌||◌, Option, none, some, List, [],
  ◌∷◌, find?, any, str_eq, is_empty, ltb, leb, ◌==◌, length, if◌then◌else◌,
}
use myference.Prelude.Decimal.{show_nat}
use myference.Prelude.Result.{Result, ok, err, ◌>>=◌}
use myference.Auth.Tables.{is_null, update_where}
use myference.Auth.Credentials.{split_credential, credential}
use myference.Protocol.Signing.{change_at}

pub data BrowserError : Type 0 where
  wallet_fields_required lifetime_required origin_denied : BrowserError
  invalid_credential authorization_consumed authorization_expired constraint : BrowserError

-- A row of wallet_challenges, which has the fields of a `WalletChallenge`.
pub record ChallengeRow : Type 0 where
  pub id : String
  pub wallet_address : String
  pub domain : String
  pub origin : String
  pub chain_id : ℕ
  pub nonce : String
  pub message : String
  pub issued_at : ℕ
  pub expires_at : ℕ
  pub consumed_at : Option ℕ

-- A row of browser_sessions.
pub record BrowserRow : Type 0 where
  pub id : String
  pub account_id : String
  pub token_hash : String
  pub expires_at : ℕ
  pub revoked_at : Option ℕ

-- A row of accounts.
pub record WalletRow : Type 0 where
  pub id : String
  pub wallet_address : String

pub record BrowserDb : Type 0 where
  pub wallets : List WalletRow
  pub challenges : List ChallengeRow
  pub sessions : List BrowserRow

pub record BrowserSession : Type 0 where
  pub id : String
  pub token : String
  pub account_id : String
  pub wallet_address : String
  pub expires_at : ℕ

-- The libraries that the package calls: SHA-256, the database's `lower`, the checksummed form of a
-- hex address, the text of a time, the bytes of a hex text that may begin with 0x, the address of
-- the key that signed a personal message, and `strings.EqualFold`.
pub record BrowserLibrary : Type 0 where
  pub digest : String → String
  pub lower : String → String
  pub checksum : String → Option String
  pub format_time : ℕ → String
  pub hex_bytes : String → Option (List ℕ)
  pub recover : String → List ℕ → Option String
  pub equal_fold : String → String → Bool

-- The tests of the WHERE clauses and of the unique columns.
abbrev pub has_challenge : String → ChallengeRow → Bool
has_challenge id row = str_eq row.id id

abbrev pub has_nonce : String → ChallengeRow → Bool
has_nonce nonce row = str_eq row.nonce nonce

abbrev pub has_session : String → BrowserRow → Bool
has_session id row = str_eq row.id id

abbrev pub has_token : String → BrowserRow → Bool
has_token hash row = str_eq row.token_hash hash

abbrev pub has_account : String → WalletRow → Bool
has_account id row = str_eq row.id id

abbrev pub join : List String → String
join [] = ""
join (s ∷ rest) = append s (join rest)

abbrev pub truncate_time : ℕ → ℕ
truncate_time now = now - now % 1000

-- The recovery number of a signature, which wallets count from 27.
abbrev pub normal_v : ℕ → ℕ
normal_v v = if leb 27 v then v - 27 else v

-- The row that the UPDATE of `RevokeBrowserSession` changes.
abbrev pub is_revocable : String → BrowserRow → Bool
is_revocable id row = has_session id row && is_null row.revoked_at

-- `RevokeBrowserSession`
unfoldable pub revoke_browser_session : ℕ → String → BrowserDb → Result BrowserError BrowserDb
revoke_browser_session now id db =
    if any (is_revocable id) db.sessions
    then ok (record db {
      sessions =
          update_where (is_revocable id) (λ row. record row { revoked_at = some now }) db.sessions;
    })
    else err BrowserError.invalid_credential

abbrev pub with_account : BrowserRow → Option WalletRow → Option (BrowserRow × WalletRow)
with_account row none = none
with_account row (some wallet) = some (row, wallet)

-- The join of `AuthenticateBrowserSession`.
abbrev pub join_session : ℕ → List WalletRow → Option BrowserRow → Option (BrowserRow × WalletRow)
join_session now wallets none = none
join_session now wallets (some row) =
    if is_null row.revoked_at && ltb now row.expires_at
    then with_account row (find? (has_account row.account_id) wallets)
    else none

abbrev pub insert_challenge :
    ChallengeRow → BrowserDb → Result BrowserError (ChallengeRow × BrowserDb)
insert_challenge row db =
    if any (has_challenge row.id) db.challenges
      || any (has_nonce row.nonce) db.challenges
      || leb (2 ^ 63) row.chain_id
    then err constraint
    else ok (row, record db { challenges = row ∷ db.challenges })

-- The account of a wallet, which is made if there is none.
abbrev pub account_for :
    String → String → BrowserDb → Option WalletRow → Result BrowserError (String × BrowserDb)
account_for fresh address db (some row) = ok (row.id, db)
account_for fresh address db none =
    if any (has_account fresh) db.wallets
    then err BrowserError.constraint
    else ok (
      fresh,
      record db { wallets = record { id = fresh; wallet_address = address } ∷ db.wallets },
    )

abbrev pub consume : ℕ → String → List ChallengeRow → List ChallengeRow
consume now id rows =
    update_where (has_challenge id) (λ row. record row { consumed_at = some now }) rows

module _ (lib : BrowserLibrary) where
  open lib use {digest, lower, checksum, format_time, hex_bytes, recover, equal_fold}

  abbrev pub challenge_message : String → String → String → ℕ → String → ℕ → ℕ → String
  challenge_message domain origin address chain_id nonce issued expires = join (
      "Myference account login\nDomain: "
      ∷ domain
      ∷ "\nOrigin: "
      ∷ origin
      ∷ "\nAddress: "
      ∷ address
      ∷ "\nChain ID: "
      ∷ show_nat chain_id
      ∷ "\nNonce: "
      ∷ nonce
      ∷ "\nIssued At: "
      ∷ format_time issued
      ∷ "\nExpiration Time: "
      ∷ format_time expires
      ∷ [])

  abbrev pub challenge_for :
      String
      → String
      → ℕ
      → ℕ
      → String
      → String
      → ℕ
      → Option String
      → BrowserDb
      → Result BrowserError (ChallengeRow × BrowserDb)
  challenge_for domain origin chain_id lifetime id nonce now none db = err wallet_fields_required
  challenge_for domain origin chain_id lifetime id nonce now (some address) db =
      let issued = truncate_time now in
      insert_challenge
        (record {
          id = id;
          wallet_address = address;
          domain = domain;
          origin = origin;
          chain_id = chain_id;
          nonce = nonce;
          message =
              challenge_message domain origin address chain_id nonce issued (issued + lifetime);
          issued_at = issued;
          expires_at = issued + lifetime;
          consumed_at = none;
        })
        db

  -- `CreateWalletChallenge`; a lifetime below 0 is refused as 0 is.
  unfoldable pub create_wallet_challenge :
      ℕ
      → String
      → String
      → String
      → String
      → String
      → ℕ
      → ℕ
      → BrowserDb
      → Result BrowserError (ChallengeRow × BrowserDb)
  unfolding show_nat
  create_wallet_challenge now id nonce domain origin address chain_id lifetime db =
      if is_empty domain || is_empty origin || chain_id == 0 || lifetime == 0
      then err wallet_fields_required
      else challenge_for domain origin chain_id lifetime id nonce now (checksum address) db

  abbrev pub is_signer : String → Option String → Bool
  is_signer address none = false
  is_signer address (some signer) = equal_fold signer address

  abbrev pub signed_bytes : String → String → Option (List ℕ) → Bool
  signed_bytes address message none = false
  signed_bytes address message (some raw) =
      if length raw == 65
      then is_signer address (recover message (change_at 64 normal_v raw))
      else false

  -- `validPersonalSignature`
  unfoldable pub valid_personal_signature : String → String → String → Bool
  unfolding change_at
  valid_personal_signature address message encoded =
      signed_bytes address message (hex_bytes encoded)

  -- The checks of `VerifyWalletChallenge`.
  unfoldable pub verifiable :
      ℕ → String → String → Option ChallengeRow → Result BrowserError ChallengeRow
  unfolding valid_personal_signature
  verifiable now origin signature none = err BrowserError.invalid_credential
  verifiable now origin signature (some row) =
      if not (str_eq row.origin origin)
      then err origin_denied
      else if not (is_null row.consumed_at)
      then err BrowserError.authorization_consumed
      else if not (ltb now row.expires_at)
      then err BrowserError.authorization_expired
      else if not (valid_personal_signature row.wallet_address row.message signature)
      then err BrowserError.invalid_credential
      else ok row

  abbrev pub has_wallet : String → WalletRow → Bool
  has_wallet address row = str_eq (lower row.wallet_address) (lower address)

  abbrev pub open_session :
      ℕ
      → ℕ
      → String
      → String
      → ChallengeRow
      → String × BrowserDb
      → Result BrowserError (BrowserSession × BrowserDb)
  open_session now lifetime id secret row (account, db) =
      if any (has_session id) db.sessions || any (has_token (digest secret)) db.sessions
      then err BrowserError.constraint
      else ok (
        record {
          id = id;
          token = credential id secret;
          account_id = account;
          wallet_address = row.wallet_address;
          expires_at = truncate_time now + lifetime;
        },
        record db {
          sessions =
              record {
                id = id;
                account_id = account;
                token_hash = digest secret;
                expires_at = truncate_time now + lifetime;
                revoked_at = none;
              }
              ∷ db.sessions;
          challenges = consume (truncate_time now) row.id db.challenges;
        },
      )

  -- `VerifyWalletChallenge`: the time of its checks, that of the session, the texts that it draws for
  -- an account, a session and its secret, and its arguments. A lifetime below 0 is refused as 0 is.
  unfoldable pub verify_wallet_challenge :
      ℕ
      → ℕ
      → String
      → String
      → String
      → String
      → String
      → String
      → ℕ
      → BrowserDb
      → Result BrowserError (BrowserSession × BrowserDb)
  unfolding verifiable
  verify_wallet_challenge now later fresh id secret challenge origin signature lifetime db =
      if lifetime == 0
      then err lifetime_required
      else verifiable now origin signature (find? (has_challenge challenge) db.challenges)
        >>= λ row.
            account_for fresh row.wallet_address db
              (find? (has_wallet row.wallet_address) db.wallets)
            >>= λ made. open_session later lifetime id secret row made

  abbrev pub check_token :
      String → Option (BrowserRow × WalletRow) → Result BrowserError BrowserSession
  check_token secret none = err BrowserError.invalid_credential
  check_token secret (some (row, wallet)) =
      if str_eq row.token_hash (digest secret)
      then ok (record {
        id = row.id;
        token = "";
        account_id = row.account_id;
        wallet_address = wallet.wallet_address;
        expires_at = row.expires_at;
      })
      else err BrowserError.invalid_credential

  abbrev pub authenticate_session :
      ℕ → Option (String × String) → BrowserDb → Result BrowserError BrowserSession
  authenticate_session now none db = err BrowserError.invalid_credential
  authenticate_session now (some (id, secret)) db =
      check_token secret (join_session now db.wallets (find? (has_session id) db.sessions))

  -- `AuthenticateBrowserSession`
  unfoldable pub authenticate_browser_session :
      ℕ → String → BrowserDb → Result BrowserError BrowserSession
  unfolding split_credential
  authenticate_browser_session now token db = authenticate_session now (split_credential token) db
