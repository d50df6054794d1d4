-- ===== src/Examples/Logins.antt =====
-- The login of a wallet at concrete inputs.
use myference.Prelude.{
  ℕ, ◌==◌, if◌then◌else◌, zero, suc, Option, str_eq, String, none, some, List, [], ◌∷◌, ◌≡◌, refl,
  arith, find?,
}
use myference.Prelude.Result.{Result, ok, err}
use myference.Protocol.Signing.{change_at}
use myference.Auth.Browser.{
  BrowserError, ChallengeRow, BrowserDb, BrowserSession, BrowserLibrary, WalletRow, has_account,
  verify_wallet_challenge, verifiable, valid_personal_signature, authenticate_browser_session,
}
use myference.Auth.Browser.Once.{
  BrowserCall, challenge, revoke, perform_browser_calls, logged_in_once,
}
use myference.Auth.Browser.Login.{login_recognised}

-- A signature whose last byte is 1 is by the wallet 0xa.
abbrev signer : List ℕ → Option String
signer [] = none
signer (b ∷ []) = if b == 1 then some "0xa" else none
signer (a ∷ b ∷ rest) = signer (b ∷ rest)

abbrev bytes : ℕ → List ℕ
bytes zero = 28 ∷ []
bytes (suc n) = 0 ∷ bytes n

abbrev plain : BrowserLibrary
plain = record {
  digest = λ s. s;
  lower = λ s. s;
  checksum = λ s. some s;
  format_time = λ t. "now";
  hex_bytes = λ s. some (bytes 64);
  recover = λ message raw. signer raw;
  equal_fold = λ s t. str_eq s t;
}

abbrev open_challenge : ChallengeRow
open_challenge = record {
  id = "challenge_1";
  wallet_address = "0xa";
  domain = "myference";
  origin = "https://myference";
  chain_id = 10143;
  nonce = "n1";
  message = "Myference account login";
  issued_at = 1000;
  expires_at = 9000;
  consumed_at = none;
}

abbrev start : BrowserDb
start = record { wallets = []; challenges = open_challenge ∷ []; sessions = [] }

abbrev login : ℕ → String → String → BrowserDb → Result BrowserError (BrowserSession × BrowserDb)
login now session secret db =
    verify_wallet_challenge plain now now "acct_1" session secret "challenge_1" "https://myference"
      "0x" 5000 db

abbrev or_start : Result BrowserError (BrowserSession × BrowserDb) → BrowserSession × BrowserDb
or_start (ok r) = r
or_start (err e) =
    (record { id = ""; token = ""; account_id = ""; wallet_address = ""; expires_at = 0 }, start)

abbrev logged_in : BrowserSession × BrowserDb
logged_in = or_start (login 2000 "session_1" "s1" start)

logs_in : login 2000 "session_1" "s1" start ≡ ok logged_in
unfolding verify_wallet_challenge verifiable valid_personal_signature change_at
logs_in = refl

logged_in_expires : logged_in.0.expires_at ≡ 7000
unfolding verify_wallet_challenge verifiable valid_personal_signature change_at
logged_in_expires = refl

abbrev later_calls : List BrowserCall
later_calls =
    challenge 2500 "challenge_2" "n2" "myference" "https://myference" "0xa" 10143 5000
    ∷ revoke 2600 "session_1"
    ∷ []

logged_in_once_example :
    login 3000 "session_2" "s2" (perform_browser_calls plain logged_in.1 later_calls)
    ≡ err BrowserError.authorization_consumed
logged_in_once_example =
    logged_in_once plain 2000 2000 "acct_1" "session_1" "s1" "challenge_1" "https://myference" "0x"
      5000 start logged_in later_calls 3000 3000 "acct_1" "session_2" "s2" "0x" 5000 logs_in
      (λ h. absurd (ground arith))

login_recognised_example :
    (wallet : WalletRow) × (find? (has_account logged_in.0.account_id) logged_in.1.wallets
      ≡ some wallet)
    × (authenticate_browser_session plain 6999 logged_in.0.token logged_in.1
        ≡ ok (record logged_in.0 { token = ""; wallet_address = wallet.wallet_address }))
login_recognised_example =
    login_recognised plain 2000 2000 "acct_1" "session_1" "s1" "challenge_1" "https://myference"
      "0x" 5000 start logged_in 6999 logs_in refl refl refl (rw logged_in_expires (omega arith))
