-- ===== src/Provider/Requests/Relay.antt =====
-- The broker's `ChunkTracker` admits every chunk that the provider's `RequestState` recorded.
use myference.Prelude.{
  ℕ, String, Bool, true, false, Option, none, some, List, [], ◌∷◌, ◌≡◌, refl, eq_iff, arith,
  Option-cases, inl, inr,
}
use myference.Protocol.Messages.{OutputChunk}
use myference.Protocol.Chunks
use myference.Protocol.Chunks.{ChunkTracker, new_chunk_tracker}
use myference.Protocol.Chunks.Streams.{admitted, IsStream, of_request, admitted-IsStream}
use myference.Provider.Requests.{
  RequestError, RequestEntry, RequestState, Call, accept_call, cancel_call, record_call, call,
  new_request_state,
}

-- The tracker has seen what the entry has sent, and closed nothing that is open.
abbrev Agrees : ℕ → Bool → Option RequestEntry → Type 0
Agrees last closed none = (last ≡ 0) × (closed ≡ false)
Agrees last closed (some e) =
    (e.accepted ≡ true) × (e.sequence ≡ last) × (e.terminal ≡ false → closed ≡ false)

abbrev Follows : ChunkTracker → RequestState → Type 0
Follows t s = (r : String) → Agrees (t.last r) (t.closed r) (s r)

-- The chunks that were recorded, which the daemon sends, in order.
abbrev sent : Call → Option RequestError → List OutputChunk → List OutputChunk
sent (record_call c) none rest = c ∷ rest
sent _ _ rest = rest

unfoldable pub emitted : RequestState → List Call → List OutputChunk
emitted s [] = []
emitted s (c ∷ cs) = let (s', e) = call s c in sent c e (emitted s' cs)

module _ (t : ChunkTracker) (s : RequestState) (f : Follows t s) where
  accept-Follows : (q : String) → Follows t (call s (accept_call q)).0
  unfolding call
  accept-Follows q r = ground (arith, f r, eq_iff q r)

  cancel-Follows : (q : String) → Follows t (call s (cancel_call q)).0
  unfolding call
  cancel-Follows q r = ground (arith, f r, eq_iff q r)

  refused-Follows :
      (c : OutputChunk) (e : RequestError)
      → (call s (record_call c)).1 ≡ some e
      → Follows t (call s (record_call c)).0
  unfolding call
  refused-Follows c e h r = ground (arith, f r)

  recorded-Follows :
      (c : OutputChunk)
      → (call s (record_call c)).1 ≡ none
      → ((Chunks.accept t c).1 ≡ none) × Follows (Chunks.accept t c).0 (call s (record_call c)).0
  unfolding call Chunks.accept
  recorded-Follows c h = (
    ground (arith, f c.request_id),
    λ r. ground (arith, f r, f c.request_id, eq_iff c.request_id r),
  )

-- Every chunk that the provider records and sends is admitted by a broker that has seen the
-- provider's chunks so far.
admits_sent :
    (t : ChunkTracker) (s : RequestState) (cs : List Call)
    → Follows t s
    → admitted t (emitted s cs) ≡ emitted s cs
unfolding emitted admitted
admits_sent t s [] f = refl
admits_sent t s (accept_call q ∷ cs) f =
    admits_sent t (call s (accept_call q)).0 cs (accept-Follows t s f q)
admits_sent t s (cancel_call q ∷ cs) f =
    admits_sent t (call s (cancel_call q)).0 cs (cancel-Follows t s f q)
admits_sent t s (record_call c ∷ cs) f = elim (Option-cases (call s (record_call c)).1) [
  | inr (e, refused) ↦
      let rest = admits_sent t (call s (record_call c)).0 cs (refused-Follows t s f c e refused) in
      ground (arith, rest)
  | inl fine ↦
      let (taken, next) = recorded-Follows t s f c fine in
      let rest = admits_sent (Chunks.accept t c).0 (call s (record_call c)).0 cs next in
      ground (arith, rest)
]

-- From the start, whatever calls the daemon makes, the broker admits every chunk that it sends.
pub admitted-emitted :
    (cs : List Call)
    → admitted new_chunk_tracker (emitted new_request_state cs) ≡ emitted new_request_state cs
unfolding new_chunk_tracker new_request_state
admitted-emitted cs = admits_sent new_chunk_tracker new_request_state cs (λ r. (omega arith, refl))

-- What the daemon sends of one request is numbered 1, 2, 3, … and ends at its last chunk.
pub emitted-IsStream :
    (r : String) (cs : List Call) → IsStream 0 (of_request r (emitted new_request_state cs))
emitted-IsStream r cs =
    rw (admitted-emitted cs) at (admitted-IsStream r (emitted new_request_state cs))
