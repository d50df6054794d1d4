-- ===== src/Store/Capacity/Stops.antt =====
-- The steps of a request after its reservation leave its offer with one request at most.
use myference.Prelude.{
  ◌+◌, ◌≤◌, String, true, false, ◌&&◌, Option, none, some, ◌≡◌, ◌⊎◌, refl, str_eq, eq_iff, arith,
  ◌==◌, Bool-cases, Option-cases, inl, inr, if◌then◌else◌,
}
use myference.Prelude.Result.{ok}
use myference.Protocol.Chunks.{set_key}
use myference.Store.Tables.{
  Status, completed, RouteRow, RequestRow, Db, set_state, emit, set_capacity,
}
use myference.Store.Requests.{transitions, transition_request}
use myference.Store.Inference.{
  is_executing, live_rows, release, ReceiptProposal, write_completion, write_abort,
  complete_inference, abort_inference, completes, same_status, is_abort,
}
use myference.Store.Capacity.{runs, executing}
use myference.Store.Capacity.Single.{
  is_created, executing-set_key, executing-release, live-release_other, IsSingle, transition-begun,
  transition-executing,
}

-- A request that goes on, or ends, where nothing else changes.
moved-IsSingle :
    (db db' : Db) (id : String) (row : RequestRow) (next : Status)
    → IsSingle db
    → db.requests id ≡ some row
    → (is_executing next ≡ true → is_executing row.state ≡ true)
    → is_created next ≡ false
    → db'.routes ≡ db.routes
    → db'.reservations ≡ db.reservations
    → db'.requests ≡ set_key db.requests id (some (record row { state = next }))
    → IsSingle db'
moved-IsSingle db db' id row next s found runs_on begun routes reservations requests =
    let row' = record row { state = next } in
    record {
      single = λ m o route there.
          let counted = executing-set_key m o id (some row') db.requests db.reservations in
          ground (arith, routes, reservations, requests, s.single m o route, counted, runs_on);
      live = λ r other there runs_now.
          ground
            (arith, reservations, requests, s.live r other, s.live id row, runs_on, eq_iff id r);
      unknown = λ r missing. ground (arith, reservations, requests, s.unknown r, eq_iff id r);
      begun = λ r other there. ground (arith, requests, begun, s.begun r other, eq_iff id r);
    }

pub transition-IsSingle :
    (db : Db) (id : String) (next : Status) (db' : Db)
    → IsSingle db
    → transition_request db id next ≡ ok db'
    → IsSingle db'
unfolding transition_request
transition-IsSingle db id next db' s h = elim (Option-cases (db.requests id)) [
  | inl missing ↦ absurd (ground arith)
  | inr (row, found) ↦
      let legal : transitions row.state next ≡ true = ground arith in
      let e : db' ≡ emit id row.state next (set_state id row next db) = ground arith in
      rw e (
        moved-IsSingle db _ id row next s found
          (transition-executing row.state next legal (s.begun id row found))
          (transition-begun row.state next legal) refl refl refl)
]

aborts :
    (terminal : Status)
    → is_abort terminal ≡ true
    → (is_executing terminal ≡ false) × (is_created terminal ≡ false)
aborts terminal h = ground arith

-- What a route may have gained when a request of its offer has stopped.
abbrev Gains : RequestRow → Db → Db → Type 0
Gains row db db' =
    (m o : String) (route : RouteRow)
    → db'.routes m o ≡ some route
    → (old : RouteRow) × (db.routes m o ≡ some old)
      × (route.capacity ≤ old.capacity + (if runs m o (some row) then 1 else 0))

set_capacity-Gains :
    (db : Db) (row : RequestRow)
    → is_executing row.state ≡ true
    → Gains row db (set_capacity row.machine_id row.offer_id (λ n. n + 1) db)
set_capacity-Gains db row runs_now m o route there = elim (Option-cases (db.routes m o)) [
  | inl missing ↦ absurd (ground arith)
  | inr (old, found) ↦ (old, found, ground (arith, eq_iff row.machine_id m, eq_iff row.offer_id o))
]

same-Gains : (db : Db) (row : RequestRow) → Gains row db db
same-Gains db row m o route there = (route, there, ground arith)

-- A request that stops, with what its offer gains; its reservations may be released.
stopped-IsSingle :
    (db db' : Db) (id : String) (row : RequestRow) (next : Status)
    → IsSingle db
    → db.requests id ≡ some row
    → is_executing next ≡ false
    → is_created next ≡ false
    → Gains row db db'
    → db'.requests ≡ set_key db.requests id (some (record row { state = next }))
    → (db'.reservations ≡ db.reservations) ⊎ (db'.reservations ≡ release id db.reservations)
    → IsSingle db'
stopped-IsSingle db db' id row next s found stops begun gains requests kept =
    let row' = record row { state = next } in
    let q' = set_key db.requests id (some row') in
    let others : (r : String)
        → str_eq id r ≡ false
        → live_rows r db'.reservations ≡ live_rows r db.reservations =
      λ r other. elim kept [
        | inl same ↦ rw same refl
        | inr freed ↦ rw freed (live-release_other r id db.reservations other)
      ] in
    let same_count : (m o : String)
        → executing m o q' db'.reservations ≡ executing m o q' db.reservations =
      λ m o. elim kept [
        | inl same ↦ rw same refl
        | inr freed ↦
            rw freed
              (ground (arith, executing-release m o id q' db.reservations, stops, eq_iff id id))
      ] in
    record {
      single = λ m o route there.
          let (old, before, gained) = gains m o route there in
          let counted = executing-set_key m o id (some row') db.requests db.reservations in
          ground (
            arith,
            requests,
            s.single m o old,
            counted,
            stops,
            same_count m o,
            s.live id row found,
          );
      live = λ r other there runs_now.
          ground (arith, requests, others r, s.live r other, stops, eq_iff id r);
      unknown = λ r missing. ground (arith, requests, others r, s.unknown r, eq_iff id r);
      begun = λ r other there. ground (arith, requests, begun, s.begun r other, eq_iff id r);
    }

completes-some :
    (p : ReceiptProposal) (o : Option RequestRow) (row : RequestRow)
    → completes p.row o ≡ some row
    → (o ≡ some row) × (is_executing row.state ≡ true)
completes-some p none row h = cc
completes-some p (some r) row h = ground arith

pub complete-IsSingle :
    (db : Db) (p : ReceiptProposal) (db' : Db)
    → IsSingle db
    → ((row : RequestRow)
        → db.requests p.request_id ≡ some row
        → (p.row.machine_id ≡ row.machine_id) × (p.row.offer_id ≡ row.offer_id))
    → complete_inference db p ≡ ok db'
    → IsSingle db'
unfolding complete_inference
complete-IsSingle db p db' s own h =
    elim (Option-cases (completes p.row (db.requests p.request_id))) [
      | inl missing ↦ let e : db' ≡ db = ground arith in rw e s
      | inr (row, found) ↦
          let e : db' ≡ write_completion db p row = ground arith in
          let (there, runs_now) = completes-some p (db.requests p.request_id) row found in
          let (same_machine, same_offer) = own row there in
          rw (e, same_machine, same_offer)
            (stopped-IsSingle db _ p.request_id row completed s there refl refl
              (set_capacity-Gains db row runs_now) refl (inl refl))
    ]

write_abort-IsSingle :
    (db : Db) (id : String) (terminal : Status) (row : RequestRow)
    → IsSingle db
    → db.requests id ≡ some row
    → is_executing terminal ≡ false
    → is_created terminal ≡ false
    → IsSingle (write_abort db id terminal row)
unfolding write_abort
write_abort-IsSingle db id terminal row s found stops begun =
    elim (Bool-cases (live_rows id db.reservations == 1 && is_executing row.state)) [
      | inl live ↦ rw live (
          stopped-IsSingle db _ id row terminal s found stops begun
            (set_capacity-Gains db row (ground arith)) refl (inr refl))
      | inr idle ↦ rw idle (
          stopped-IsSingle db _ id row terminal s found stops begun (same-Gains db row) refl
            (inr refl))
    ]

pub abort-IsSingle :
    (db : Db) (id : String) (terminal : Status) (db' : Db)
    → IsSingle db
    → abort_inference db id terminal ≡ ok db'
    → IsSingle db'
unfolding abort_inference
abort-IsSingle db id terminal db' s h = elim (Option-cases (db.requests id)) [
  | inl missing ↦ absurd (ground arith)
  | inr (row, found) ↦ elim (Bool-cases (same_status row.state terminal)) [
    | inl same ↦ let e : db' ≡ db = ground arith in rw e s
    | inr changed ↦
        let e : db' ≡ write_abort db id terminal row = ground arith in
        let (stops, begun) = aborts terminal (ground arith) in
        rw e (write_abort-IsSingle db id terminal row s found stops begun)
  ]
]
