-- ===== src/Store/Capacity/Single.antt =====
-- An offer of a machine runs one request at a time.
use myference.Prelude.{
  ℕ, ◌+◌, ◌≤◌, String, Bool, true, false, Option, none, some, List, [], ◌∷◌, ◌≡◌, refl, str_eq,
  eq_iff, arith, if◌then◌else◌,
}
use myference.Protocol.Chunks.{set_key}
use myference.Store.Tables.{Status, created, RouteRow, RequestRow, ReservationRow, Db}
use myference.Store.Requests.{transitions}
use myference.Store.Inference.{is_executing, live_rows, release}
use myference.Store.Capacity.{runs, executing}

abbrev pub is_created : Status → Bool
is_created created = true
is_created state = false

abbrev pub Requests : Type 0
Requests = String → Option RequestRow

-- How many of the reservations of a request an offer runs.
abbrev pub share : String → String → String → Option RequestRow → List ReservationRow → ℕ
share m o id row rows = if runs m o row then live_rows id rows else 0

-- A request whose row is replaced counts as its new row says.
pub executing-set_key :
    (m o id : String) (v : Option RequestRow) (q : Requests) (rows : List ReservationRow)
    → executing m o (set_key q id v) rows + share m o id (q id) rows
      ≡ executing m o q rows + share m o id v rows
unfolding executing live_rows
executing-set_key m o id v q [] = ground arith
executing-set_key m o id v q (row ∷ rows) =
    ground
      (arith, executing-set_key m o id v q rows, eq_iff id row.request_id, eq_iff row.request_id id)

pub executing-release :
    (m o id : String) (q : Requests) (rows : List ReservationRow)
    → executing m o q (release id rows) + share m o id (q id) rows ≡ executing m o q rows
unfolding executing live_rows release
executing-release m o id q [] = ground arith
executing-release m o id q (row ∷ rows) =
    ground (arith, executing-release m o id q rows, eq_iff row.request_id id)

pub executing_congr :
    (m o : String) (q q' : Requests) (rows : List ReservationRow)
    → ((r : String) → q r ≡ q' r)
    → executing m o q rows ≡ executing m o q' rows
unfolding executing
executing_congr m o q q' [] same = refl
executing_congr m o q q' (row ∷ rows) same =
    ground (arith, executing_congr m o q q' rows same, same row.request_id)

pub live-release_other :
    (r id : String) (rows : List ReservationRow)
    → str_eq id r ≡ false
    → live_rows r (release id rows) ≡ live_rows r rows
unfolding live_rows release
live-release_other r id [] h = refl
live-release_other r id (row ∷ rows) h = ground (
  arith,
  live-release_other r id rows h,
  eq_iff row.request_id id,
  eq_iff row.request_id r,
  eq_iff id r,
)

-- Of every offer of a machine at most one request runs or can still be taken; a request that runs has
-- one open reservation, an unknown one has none, and none is left in its first state.
pub record IsSingle (db : Db) : Type 0 where
  pub single :
      (m o : String) (route : RouteRow)
      → db.routes m o ≡ some route
      → route.capacity + executing m o db.requests db.reservations ≤ 1
  pub live :
      (id : String) (row : RequestRow)
      → db.requests id ≡ some row
      → is_executing row.state ≡ true
      → live_rows id db.reservations ≡ 1
  pub unknown : (id : String) → db.requests id ≡ none → live_rows id db.reservations ≡ 0
  pub begun :
      (id : String) (row : RequestRow) → db.requests id ≡ some row → is_created row.state ≡ false

-- A transition leads to no request that was not begun, and only from a request that runs to one
-- that does.
pub transition-begun : (from to : Status) → transitions from to ≡ true → is_created to ≡ false
unfolding transitions
transition-begun Status.created to h = ground arith
transition-begun Status.reserved to h = ground arith
transition-begun Status.offered to h = ground arith
transition-begun Status.accepted to h = ground arith
transition-begun Status.streaming to h = ground arith
transition-begun Status.completed to h = ground arith
transition-begun Status.signed to h = ground arith
transition-begun Status.submitted to h = ground arith
transition-begun Status.settled to h = ground arith
transition-begun Status.rejected to h = ground arith
transition-begun Status.expired to h = ground arith
transition-begun Status.cancelled to h = ground arith
transition-begun Status.failed to h = ground arith

pub transition-executing :
    (from to : Status)
    → transitions from to ≡ true
    → is_created from ≡ false
    → is_executing to ≡ true
    → is_executing from ≡ true
unfolding transitions
transition-executing Status.created to h b e = ground arith
transition-executing Status.reserved to h b e = ground arith
transition-executing Status.offered to h b e = ground arith
transition-executing Status.accepted to h b e = ground arith
transition-executing Status.streaming to h b e = ground arith
transition-executing Status.completed to h b e = ground arith
transition-executing Status.signed to h b e = ground arith
transition-executing Status.submitted to h b e = ground arith
transition-executing Status.settled to h b e = ground arith
transition-executing Status.rejected to h b e = ground arith
transition-executing Status.expired to h b e = ground arith
transition-executing Status.cancelled to h b e = ground arith
transition-executing Status.failed to h b e = ground arith
