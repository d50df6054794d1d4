-- ===== src/Chain/Indexing/Settlements.antt =====
-- What a settlement on the chain does to the funds that the store has reserved for the request.
use mathlib.Core.Option
use myference.Prelude.{
  if◌then◌else◌, ℕ, ◌+◌, ◌≤◌, String, Bool, true, false, Option, none, some, List, [], ◌∷◌, ◌≡◌,
  refl, str_eq, eq_iff, any, find?, arith, Bool-cases, Option-cases, inl, inr,
}
use myference.Prelude.Result.{ok}
use myference.Store.Tables.{Status, RequestRow, SessionRow, ReservationRow, Db}
use myference.Store.Inference.{release, locked}
use myference.Store.Inference.Solvency.{IsSolvent}
use myference.Chain.Ledger.{SettlementRow}
use myference.Chain.Updates.{is_settled}
use myference.Chain.Indexing.{
  Index, is_request, settle_local, charge_local, move_row, is_submitted, apply_settlement,
  write_settlement,
}
use myference.Chain.Indexing.Refinement.{move_row-reservations}

locked-release_most :
    (s id : String) (rows : List ReservationRow) → locked s (release id rows) ≤ locked s rows
unfolding locked release
locked-release_most s id [] = omega arith
locked-release_most s id (row ∷ rows) = ground (arith, locked-release_most s id rows)

-- The session's other reservations stay as they were.
locked-release_live :
    (s id : String) (rows : List ReservationRow) (row : ReservationRow)
    → find? (is_request id) rows ≡ some row
    → row.released ≡ false
    → str_eq row.session_id s ≡ true
    → locked s (release id rows) + row.amount ≤ locked s rows
unfolding locked release
locked-release_live s id [] row found live own = absurd (ground arith)
locked-release_live s id (x ∷ rows) row found live own = elim (Bool-cases (is_request id x)) [
  | inl here ↦ let e : x ≡ row = ground arith in ground (arith, e, locked-release_most s id rows)
  | inr there ↦ ground (arith, locked-release_live s id rows row (ground arith) live own)
]

move_row-sessions :
    (id : String) (test : Status → Bool) (from to : Status) (row : Option RequestRow) (db : Db)
    → (move_row id test from to row db).sessions ≡ db.sessions
move_row-sessions id test from to none db = refl
move_row-sessions id test from to (some row) db = ground arith

pub settle_local-writes :
    (row : SettlementRow) (db : Db)
    → ((settle_local row db).sessions ≡ (charge_local row db).sessions)
      × ((settle_local row db).reservations ≡ release row.request_id db.reservations)
settle_local-writes row db = (
  move_row-sessions row.request_id is_submitted Status.submitted Status.settled
      (db.requests row.request_id) (charge_local row db),
  move_row-reservations row.request_id is_submitted Status.submitted Status.settled
      (db.requests row.request_id) (charge_local row db),
)

-- The balance of a session, if there is one.
abbrev pub balance_of : Db → String → Option ℕ
balance_of db id = Option.map (λ (r : SessionRow). r.confirmed_balance) (db.sessions id)

-- What a settlement still has to charge: nothing, if its request was settled before.
abbrev pub due : SettlementRow → Index → ℕ
due row s =
    if any (is_settled row.request_id) s.ledger.settlements
    then 0
    else row.provider_amount + row.fee_amount

still-IsSolvent :
    (fee_recipient : String) (row : SettlementRow) (s s' : Index) (reservation : ReservationRow)
    → IsSolvent s.db
    → find? (is_request row.request_id) s.db.reservations ≡ some reservation
    → reservation.released ≡ false
    → reservation.session_id ≡ row.session_id
    → apply_settlement fee_recipient row s ≡ ok s'
    → IsSolvent s'.db
still-IsSolvent fee_recipient row s s' reservation solvent found live own h id session there =
    elim (Bool-cases (any (is_settled row.request_id) s.ledger.settlements)) [
      | inl old ↦ let e : s' ≡ s = ground arith in ground (arith, e, solvent id session)
      | inr new ↦
          let e : s' ≡ write_settlement fee_recipient row s = ground arith in
          let charge : reservation.amount ≡ row.provider_amount + row.fee_amount = ground arith in
          let (sessions, rows) = settle_local-writes row s.db in
          let paid : (charge_local row s.db).sessions id ≡ some session =
            ground (arith, e, sessions) in
          elim (Bool-cases (str_eq row.session_id id)) [
            | inr other ↦ ground (
              arith,
              e,
              rows,
              solvent id session,
              locked-release_most id row.request_id s.db.reservations,
            )
            | inl same ↦ elim (Option-cases (s.db.sessions row.session_id)) [
              | inl missing ↦ absurd (ground arith)
              | inr (old, before) ↦
                  let e' : row.session_id ≡ id = ground (arith, eq_iff row.session_id id) in
                  let freed =
                    locked-release_live id row.request_id s.db.reservations reservation found live
                      (ground (arith, eq_iff reservation.session_id id)) in
                  ground (arith, e, rows, solvent id old, freed)
            ]
          ]
    ]

charged :
    (fee_recipient : String) (row : SettlementRow) (s s' : Index) (reservation : ReservationRow)
    → IsSolvent s.db
    → find? (is_request row.request_id) s.db.reservations ≡ some reservation
    → reservation.released ≡ false
    → reservation.session_id ≡ row.session_id
    → apply_settlement fee_recipient row s ≡ ok s'
    → Option.map (λ b. b + due row s) (balance_of s'.db row.session_id)
      ≡ balance_of s.db row.session_id
charged fee_recipient row s s' reservation solvent found live own h =
    elim (Bool-cases (any (is_settled row.request_id) s.ledger.settlements)) [
      | inl old ↦
          let e : s' ≡ s = ground arith in
          elim (Option-cases (s.db.sessions row.session_id)) [
            | inl missing ↦ rw (e, old, missing) refl
            | inr (session, there) ↦ rw (e, old, there) (ground arith)
          ]
      | inr new ↦
          let e : s' ≡ write_settlement fee_recipient row s = ground arith in
          let charge : reservation.amount ≡ row.provider_amount + row.fee_amount = ground arith in
          let sessions = (settle_local-writes row s.db).0 in
          elim (Option-cases (s.db.sessions row.session_id)) [
            | inl missing ↦ rw (e, sessions, missing) (ground (arith, new, missing))
            | inr (session, there) ↦
                let held =
                  locked-release_live row.session_id row.request_id s.db.reservations reservation
                    found live (ground (arith, eq_iff reservation.session_id row.session_id)) in
                rw (e, sessions)
                  (ground (
                    arith,
                    new,
                    there,
                    held,
                    charge,
                    solvent row.session_id session there,
                    eq_iff row.session_id row.session_id,
                  ))
          ]
    ]

-- A settlement that charges what an open reservation of its session holds takes exactly its amounts
-- from the balance of the session, or nothing if its request was settled before, and leaves every
-- session with at least what its open reservations hold, if that was so before.
pub settlement-IsSolvent :
    (fee_recipient : String) (row : SettlementRow) (s s' : Index) (reservation : ReservationRow)
    → IsSolvent s.db
    → find? (is_request row.request_id) s.db.reservations ≡ some reservation
    → reservation.released ≡ false
    → reservation.session_id ≡ row.session_id
    → apply_settlement fee_recipient row s ≡ ok s'
    → IsSolvent s'.db
      × (Option.map (λ b. b + due row s) (balance_of s'.db row.session_id)
          ≡ balance_of s.db row.session_id)
settlement-IsSolvent fee_recipient row s s' reservation solvent found live own h = (
  still-IsSolvent fee_recipient row s s' reservation solvent found live own h,
  charged fee_recipient row s s' reservation solvent found live own h,
)
