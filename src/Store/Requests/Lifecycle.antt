-- ===== src/Store/Requests/Lifecycle.antt =====
-- The states of a request only move forward, so a request has a bounded life.
use myference.Prelude.{ℕ, ◌+◌, ◌≤◌, true, ◌≡◌, refl, arith}
use myference.Store.Tables.{
  Status, created, reserved, offered, accepted, streaming, completed, signed, submitted, settled,
}
use myference.Store.Requests.{transitions}

-- How far a request is.
abbrev pub rank : Status → ℕ
rank created = 0
rank reserved = 1
rank offered = 2
rank accepted = 3
rank streaming = 4
rank completed = 5
rank signed = 6
rank submitted = 7
rank _ = 8

-- A sequence of allowed transitions.
infix 40 ◌⟶*◌
pub data ◌⟶*◌ : Status → Status → Type 0 where
  stay : {s : Status} → s ⟶* s
  move : {s t u : Status} → transitions s t ≡ true → t ⟶* u → s ⟶* u

abbrev pub moves : {s t : Status} → s ⟶* t → ℕ
moves stay = 0
moves (move _ rest) = moves rest + 1

transitions-rank : (s t : Status) → transitions s t ≡ true → rank s + 1 ≤ rank t
unfolding transitions
transitions-rank s t h = ground arith

moves-rank : {s t : Status} (path : s ⟶* t) → rank s + moves path ≤ rank t
moves-rank stay = omega arith
moves-rank (move {s} {t} h rest) = omega (arith, transitions-rank s t h, moves-rank rest)

rank-le-eight : (s : Status) → rank s ≤ 8
rank-le-eight created = omega arith
rank-le-eight _ = omega arith

-- No request changes its state more than eight times.
pub moves-le-eight : {s t : Status} (path : s ⟶* t) → moves path ≤ 8
moves-le-eight {s} {t} path = omega (arith, moves-rank path, rank-le-eight t)

-- A request that was settled, rejected, expired, cancelled or failed stays so.
pub final_absorbs : {s t : Status} → rank s ≡ 8 → s ⟶* t → t ≡ s
final_absorbs final stay = refl
final_absorbs final (move {s} {t} h rest) =
    absurd (omega (arith, transitions-rank s t h, rank-le-eight t))

-- A request is settled only after it was submitted for settlement.
pub settled_from_submitted : (s : Status) → transitions s settled ≡ true → s ≡ submitted
unfolding transitions
settled_from_submitted s h = ground arith
