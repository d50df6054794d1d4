-- ===== src/Chain/Indexing/Reorganisation.antt =====
-- What a run of `Sync` leaves: the ledger of the logs that the node has, also after a reorganisation.
use myference.Prelude.{
  ℕ, ◌+◌, ◌-◌, ◌≤◌, String, false, Option, none, some, List, [], ◌∷◌, ◌++◌, ◌≡◌, refl, find?, map,
  arith, Option-cases, inl, inr,
}
use myference.Prelude.Words.{IsUint64}
use myference.Prelude.Result.{ok, ◌>>=◌, Result-cases}
use myference.Store.Tables.{ReservationRow}
use myference.Chain.{sync_loop}
use myference.Chain.Batches.{IsCover, index_ranges, sync_loop_lem}
use myference.Chain.Ledger.{SettlementRow, Log, empty_ledger}
use myference.Chain.Indexing.{
  Index, Node, held, held_amount, is_request, index_logs, write_block, write_cursor, index_range,
}
use myference.Chain.Sync.{
  reopen, revert_settlement, revert_settlements, rewind, cursor_of, is_canonical, start_sync, sync,
}
use myference.Chain.Indexing.Replay.{View, view, replay, replay_log}
use myference.Chain.Indexing.Refinement.{index_logs-replay, index_logs-held, move_row-reservations}

-- The view of a chain of which nothing was read.
abbrev pub empty_view : View
empty_view = record { seen = []; ledger = empty_ledger }

find-reopen :
    (id r : String) (rows : List ReservationRow)
    → held_amount (find? (is_request id) (map (reopen r) rows))
      ≡ held_amount (find? (is_request id) rows)
find-reopen id r [] = refl
find-reopen id r (x ∷ rows) = ground (arith, find-reopen id r rows)

held-revert_settlements :
    (rows : List SettlementRow) (s : Index) (id : String)
    → held (revert_settlements rows s).db id ≡ held s.db id
unfolding revert_settlements
held-revert_settlements [] s id = refl
held-revert_settlements (row ∷ rows) s id =
    let reverted = revert_settlement row.request_id s in
    let kept : held reverted.db id ≡ held s.db id =
      rw (move_row-reservations row.request_id _ _ _ _ _)
        (find-reopen id row.request_id s.db.reservations) in
    rw (held-revert_settlements rows reverted id) kept

held-rewind : (s : Index) (id : String) → held (rewind s).db id ≡ held s.db id
unfolding rewind
held-rewind s id = held-revert_settlements s.ledger.settlements s id

-- What the node answers; a question that it does not answer adds nothing.
abbrev pub or_nothing : Option (List Log) → List Log
or_nothing none = []
or_nothing (some logs) = logs

-- The logs of ranges of blocks, in their order.
abbrev pub fetched : Node → List (ℕ × ℕ) → List Log
fetched node [] = []
fetched node ((from, to) ∷ rest) = or_nothing (node.filter_logs from to) ++ fetched node rest

module _ (fee_recipient : String) (reserved : String → Option ℕ) where
  replay-append :
      (xs ys : List Log) (v : View)
      → replay fee_recipient reserved (xs ++ ys) v
        ≡ (replay fee_recipient reserved xs v >>= λ w. replay fee_recipient reserved ys w)
  unfolding replay
  replay-append [] ys v = refl
  replay-append (x ∷ xs) ys v = elim (Result-cases (replay_log fee_recipient reserved x v)) [
    | inl (w, fine) ↦ rw (fine, replay) (replay-append xs ys w)
    | inr (bad, failed) ↦ rw (failed, replay) refl
  ]

  -- What the indexing of ranges that succeeds has shown.
  record Shown (node : Node) (ranges : List (ℕ × ℕ)) (s s' : Index) : Type 0 where
    pub replayed : replay fee_recipient reserved (fetched node ranges) (view s) ≡ ok (view s')
    pub amounts : (id : String) → held s'.db id ≡ reserved id

  index_range-Shown :
      (node : Node) (from to : ℕ) (s s' : Index)
      → ((id : String) → held s.db id ≡ reserved id)
      → index_range fee_recipient node from to s ≡ (s', none)
      → (replay fee_recipient reserved (or_nothing (node.filter_logs from to)) (view s)
          ≡ ok (view s'))
        × ((id : String) → held s'.db id ≡ reserved id)
  unfolding index_range
  index_range-Shown node from to s s' same h = elim (Option-cases (node.header to)) [
    | inl unread ↦ absurd (ground arith)
    | inr (row, header) ↦ elim (Option-cases (node.filter_logs from to)) [
      | inl unread ↦ absurd (ground arith)
      | inr (logs, given) ↦
          let start = write_block to row s in
          let shown = index_logs-replay fee_recipient reserved logs start same in
          elim (Result-cases (index_logs fee_recipient logs start)) [
            | inr (bad, failed) ↦ absurd (ground arith)
            | inl (next, fine) ↦
                let e : s' ≡ write_cursor to row.block_hash next = ground arith in
                rw e (
                  ground (arith, shown),
                  index_logs-held fee_recipient reserved logs start next same fine,
                )
          ]
    ]
  ]

  index_ranges-Shown :
      (node : Node) (ranges : List (ℕ × ℕ)) (s s' : Index)
      → ((id : String) → held s.db id ≡ reserved id)
      → index_ranges (index_range fee_recipient node) ranges s ≡ (s', none)
      → Shown node ranges s s'
  unfolding index_ranges replay
  index_ranges-Shown node [] s s' same h =
      let e : s' ≡ s = ground arith in rw e (record { replayed = refl; amounts = same })
  index_ranges-Shown node ((from, to) ∷ rest) s s' same h =
      let next = (index_range fee_recipient node from to s).0 in
      elim (Option-cases (index_range fee_recipient node from to s).1) [
        | inr (bad, failed) ↦ absurd (ground arith)
        | inl fine ↦
            let (first, kept) = index_range-Shown node from to s next same (ground arith) in
            let more = index_ranges-Shown node rest next s' kept (ground arith) in
            record {
              replayed =
                  rw
                    (
                      replay-append (or_nothing (node.filter_logs from to)) (fetched node rest)
                          (view s),
                      first,
                    )
                    more.replayed;
              amounts = more.amounts;
            }
      ]

-- A run of `Sync` that finds the block of its cursor no longer on the node, and that succeeds, leaves
-- the ledger and the logs that the node's logs give on their own, from the start block to the
-- confirmed head, in ranges of at most 100 blocks without a gap or an overlap: what was read of the
-- abandoned blocks is gone.
pub sync_rebuilds :
    (fee_recipient : String) (node : Node) (confirmations head number next : ℕ) (hash : String)
    (s s1 s' : Index)
    → node.latest ≡ some head
    → IsUint64 head
    → confirmations ≤ head
    → (cursor_of s.start_block s.cursor).1 ≡ some (number, hash)
    → is_canonical (node.header number) hash ≡ false
    → start_sync node (head - confirmations) s ≡ ok (next, s1)
    → sync fee_recipient node confirmations s ≡ (s', none)
    → (ranges : List (ℕ × ℕ)) × IsCover s1.start_block (head - confirmations) ranges
      × (replay fee_recipient (held s1.db) (fetched node ranges) empty_view ≡ ok (view s'))
unfolding sync
sync_rebuilds fee_recipient node confirmations head number next hash s s1 s' latest word enough
      cursor moved started h =
    let target = head - confirmations in
    let range = index_range fee_recipient node in
    let (ranges, cover, e) =
      sync_loop_lem range (target + 1) s1.start_block target (rewind s1) (omega arith)
        (omega arith) in
    let run : sync_loop range (target + 1) s1.start_block target (rewind s1) ≡ (s', none) =
      ground (arith) in
    let shown =
      index_ranges-Shown fee_recipient (held s1.db) node ranges (rewind s1) s' (held-rewind s1)
        (ground (arith, e, run)) in
    (ranges, cover, unfold rewind in shown.replayed)
