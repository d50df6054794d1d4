-- ===== src/Auth/Browser/Once.antt =====
-- A wallet challenge logs in once, whatever the calls of server/internal/auth/browser.go.
use myference.Prelude.{
  ℕ, String, true, false, Option, none, some, List, [], ◌∷◌, ◌≡◌, refl, sym, find?, any, str_eq,
  eq_iff, arith, Bool-cases, Option-cases, inl, inr, if◌then◌else◌, ◌≢◌,
}
use myference.Prelude.Result.{Result, ok, err, Result-cases}
use myference.Auth.Tables.{is_null, find?-update_where, any-find?}
use myference.Auth.Browser.{
  BrowserError, ChallengeRow, BrowserDb, BrowserSession, BrowserLibrary, WalletRow, has_challenge,
  consume, create_wallet_challenge, verify_wallet_challenge, verifiable, account_for, open_session,
  revoke_browser_session, has_wallet, truncate_time, is_revocable,
}

-- The challenge was issued to the origin and is consumed.
abbrev pub Consumed : String → String → BrowserDb → Type 0
Consumed id origin db =
    (row : ChallengeRow) × (find? (has_challenge id) db.challenges ≡ some row)
    × (is_null row.consumed_at ≡ false)
    × (row.origin ≡ origin)

pub data BrowserCall : Type 0 where
  challenge : ℕ → String → String → String → String → String → ℕ → ℕ → BrowserCall
  verify : ℕ → ℕ → String → String → String → String → String → String → ℕ → BrowserCall
  revoke : ℕ → String → BrowserCall

abbrev pub rolled_back : {A : Type 0} → BrowserDb → Result BrowserError (A × BrowserDb) → BrowserDb
rolled_back db (ok (a, db')) = db'
rolled_back db (err e) = db

abbrev pub or_same : BrowserDb → Result BrowserError BrowserDb → BrowserDb
or_same db (ok db') = db'
or_same db (err e) = db

module _ (lib : BrowserLibrary) where
  unfoldable pub perform_browser_call : BrowserDb → BrowserCall → BrowserDb
  perform_browser_call db (challenge now id nonce domain origin address chain lifetime) =
      rolled_back db
        (create_wallet_challenge lib now id nonce domain origin address chain lifetime db)
  perform_browser_call db (verify now later fresh id secret c origin signature lifetime) =
      rolled_back db
        (verify_wallet_challenge lib now later fresh id secret c origin signature lifetime db)
  perform_browser_call db (revoke now id) = or_same db (revoke_browser_session now id db)

  unfoldable pub perform_browser_calls : BrowserDb → List BrowserCall → BrowserDb
  perform_browser_calls db [] = db
  perform_browser_calls db (c ∷ cs) = perform_browser_calls (perform_browser_call db c) cs

  -- What the checks of a login establish.
  pub verifiable-ok :
      (now : ℕ) (origin signature : String) (o : Option ChallengeRow) (row : ChallengeRow)
      → verifiable lib now origin signature o ≡ ok row
      → (o ≡ some row) × (row.origin ≡ origin)
  unfolding verifiable
  verifiable-ok now origin signature none row h = absurd (ground arith)
  verifiable-ok now origin signature (some r) row h = elim (Bool-cases (str_eq r.origin origin)) [
    | inl own ↦ (ground arith, ground (arith, eq_iff r.origin origin))
    | inr other ↦ absurd (ground arith)
  ]

  account_for-challenges :
      (fresh address : String) (db : BrowserDb) (o : Option WalletRow) (made : String × BrowserDb)
      → account_for fresh address db o ≡ ok made
      → made.1.challenges ≡ db.challenges
  account_for-challenges fresh address db (some row) made h = ground arith
  account_for-challenges fresh address db none made h = ground arith

  open_session-challenges :
      (now lifetime : ℕ) (id secret : String) (row : ChallengeRow) (made : String × BrowserDb)
      (r : BrowserSession × BrowserDb)
      → open_session lib now lifetime id secret row made ≡ ok r
      → r.1.challenges ≡ consume (truncate_time now) row.id made.1.challenges
  open_session-challenges now lifetime id secret row made r h = ground arith

  -- The row of the challenge before a login, and the table after it.
  pub verify-challenges :
      (now later : ℕ) (fresh id secret c origin signature : String) (lifetime : ℕ) (db : BrowserDb)
      (r : BrowserSession × BrowserDb)
      → verify_wallet_challenge lib now later fresh id secret c origin signature lifetime db ≡ ok r
      → (row : ChallengeRow) × (find? (has_challenge c) db.challenges ≡ some row)
        × (row.origin ≡ origin)
        × (r.1.challenges ≡ consume (truncate_time later) row.id db.challenges)
  unfolding verify_wallet_challenge
  verify-challenges now later fresh id secret c origin signature lifetime db r h =
      let o = find? (has_challenge c) db.challenges in
      elim (Result-cases (verifiable lib now origin signature o)) [
        | inr (e, refused) ↦ absurd (ground arith)
        | inl (row, passed) ↦
            let w = find? (has_wallet lib row.wallet_address) db.wallets in
            elim (Result-cases (account_for fresh row.wallet_address db w)) [
              | inr (e, failed) ↦ absurd (ground arith)
              | inl (made, done) ↦
                  let known = verifiable-ok now origin signature o row passed in
                  let opened =
                    open_session-challenges later lifetime id secret row made r (ground arith) in
                  let kept = account_for-challenges fresh row.wallet_address db w made done in
                  (row, known.0, known.1, rw (sym kept) opened)
            ]
      ]

  -- A consumed row stays found and consumed when a challenge is consumed.
  consume-Consumed :
      (now : ℕ) (other id origin : String) (db db' : BrowserDb)
      → Consumed id origin db
      → db'.challenges ≡ consume now other db.challenges
      → Consumed id origin db'
  consume-Consumed now other id origin db db' (row, found, used, own) h = (
    if has_challenge other row then record row { consumed_at = some now } else row,
    rw
        (
          h,
          find?-update_where (has_challenge id) (has_challenge other)
              (λ r. record r { consumed_at = some now }) db.challenges (λ r. refl),
          found,
        )
        refl,
    ground (arith, used),
    ground (arith, own),
  )

  -- Nor does a new challenge hide it.
  create-Consumed :
      (now : ℕ) (fresh nonce domain from address : String) (chain lifetime : ℕ) (id origin : String)
      (db : BrowserDb) (r : ChallengeRow × BrowserDb)
      → Consumed id origin db
      → create_wallet_challenge lib now fresh nonce domain from address chain lifetime db ≡ ok r
      → Consumed id origin r.1
  unfolding create_wallet_challenge
  create-Consumed now fresh nonce domain from address chain lifetime id origin db r
        (row, found, used, own) h =
      elim (Option-cases (lib.checksum address)) [
        | inl no_address ↦ absurd (ground arith)
        | inr (checked, is_address) ↦
            let new : any (has_challenge fresh) db.challenges ≡ false = ground arith in
            let other : str_eq fresh id ≡ false =
              ground (arith, eq_iff fresh id, any-find? (has_challenge fresh) db.challenges) in
            (row, ground arith, used, own)
      ]

  call-Consumed :
      (id origin : String) (db : BrowserDb) (c : BrowserCall)
      → Consumed id origin db
      → Consumed id origin (perform_browser_call db c)
  unfolding perform_browser_call revoke_browser_session
  call-Consumed id origin db (challenge now fresh nonce domain from address chain lifetime) k =
      elim (Result-cases
        (create_wallet_challenge lib now fresh nonce domain from address chain lifetime db)) [
          | inr (e, failed) ↦ rw failed k
          | inl (r, done) ↦ rw done (
              create-Consumed now fresh nonce domain from address chain lifetime id origin db r k
                done)
        ]
  call-Consumed id origin db (verify now later fresh session secret c from signature lifetime) k =
      elim (Result-cases
        (verify_wallet_challenge lib now later fresh session secret c from signature lifetime db)) [
          | inr (e, failed) ↦ rw failed k
          | inl (r, done) ↦
              let (row, _, _, after) =
                verify-challenges now later fresh session secret c from signature lifetime db r
                  done in
              rw done (consume-Consumed (truncate_time later) row.id id origin db r.1 k after)
        ]
  call-Consumed id origin db (revoke now session) k =
      elim (Bool-cases (any (is_revocable session) db.sessions)) [
        | inl present ↦ rw present k
        | inr closed ↦ rw closed k
      ]

  calls-Consumed :
      (id origin : String) (db : BrowserDb) (cs : List BrowserCall)
      → Consumed id origin db
      → Consumed id origin (perform_browser_calls db cs)
  unfolding perform_browser_calls
  calls-Consumed id origin db [] k = k
  calls-Consumed id origin db (c ∷ cs) k =
      calls-Consumed id origin (perform_browser_call db c) cs (call-Consumed id origin db c k)

  mark-Consumed :
      (now : ℕ) (id origin : String) (db db' : BrowserDb) (row : ChallengeRow)
      → find? (has_challenge id) db.challenges ≡ some row
      → row.origin ≡ origin
      → db'.challenges ≡ consume now row.id db.challenges
      → Consumed id origin db'
  mark-Consumed now id origin db db' row found own h =
      let is_it : has_challenge row.id row ≡ true = ground (arith, eq_iff row.id row.id) in
      (
        record row { consumed_at = some now },
        rw
            (
              h,
              find?-update_where (has_challenge id) (has_challenge row.id)
                  (λ r. record r { consumed_at = some now }) db.challenges (λ r. refl),
              found,
              is_it,
            )
            refl,
        refl,
        own,
      )

  verified-Consumed :
      (now later : ℕ) (fresh id secret c origin signature : String) (lifetime : ℕ) (db : BrowserDb)
      (r : BrowserSession × BrowserDb)
      → verify_wallet_challenge lib now later fresh id secret c origin signature lifetime db ≡ ok r
      → Consumed c origin r.1
  verified-Consumed now later fresh id secret c origin signature lifetime db r h =
      let (row, found, own, after) =
        verify-challenges now later fresh id secret c origin signature lifetime db r h in
      mark-Consumed (truncate_time later) c origin db r.1 row found own after

  refused :
      (now later : ℕ) (fresh id secret c origin signature : String) (lifetime : ℕ) (db : BrowserDb)
      → Consumed c origin db
      → lifetime ≢ 0
      → verify_wallet_challenge lib now later fresh id secret c origin signature lifetime db
        ≡ err BrowserError.authorization_consumed
  unfolding verify_wallet_challenge verifiable
  refused now later fresh id secret c origin signature lifetime db (row, found, used, own)
        some_time =
      rw found (ground (arith, used, own, eq_iff row.origin origin))

  -- A wallet challenge logs in once: after a login with it, whatever challenges are made, logins
  -- tried and sessions revoked, every login with it from the same origin, for a session of a
  -- positive lifetime, is refused because the challenge is consumed.
  pub logged_in_once :
      (now later : ℕ) (fresh id secret c origin signature : String) (lifetime : ℕ) (db : BrowserDb)
      (r : BrowserSession × BrowserDb) (cs : List BrowserCall) (now' later' : ℕ)
      (fresh' id' secret' signature' : String) (lifetime' : ℕ)
      → verify_wallet_challenge lib now later fresh id secret c origin signature lifetime db ≡ ok r
      → lifetime' ≢ 0
      → verify_wallet_challenge lib now' later' fresh' id' secret' c origin signature' lifetime'
          (perform_browser_calls r.1 cs)
        ≡ err BrowserError.authorization_consumed
  logged_in_once now later fresh id secret c origin signature lifetime db r cs now' later' fresh'
        id' secret' signature' lifetime' h some_time =
      refused now' later' fresh' id' secret' c origin signature' lifetime'
        (perform_browser_calls r.1 cs)
        (calls-Consumed c origin r.1 cs
          (verified-Consumed now later fresh id secret c origin signature lifetime db r h))
        some_time
