-- ===== src/Relay/Output.antt =====
-- The hub's view of a request's output, which decides whether the request may be retried.
use myference.Prelude.{
  ◌<◌, String, true, false, none, List, [], ◌∷◌, ◌≡◌, ◌↔◌, inl, inr, refl, eq_iff, arith,
  Option-cases,
}
use myference.Prelude.Result.{ok, Result-cases}
use myference.Protocol.Messages.{
  OutputChunk, validate_output_chunk, validate_hello, validate_capacity, validate_job_accept,
  validate_receipt_signature, message_output_chunk,
}
use myference.Protocol.Chunks.{ChunkTracker, new_chunk_tracker, set_key}
use myference.Protocol.Chunks
use myference.Protocol.Envelopes.{Envelope, Decoder, decode_body}
use myference.Relay.{
  Hub, Options, new_hub, connect, message_read, unregister, heartbeat_tick, send, send_on,
  subscribe, unsubscribe, publish, can_retry,
}
use myference.Relay.Inbound.{
  accept_inbound, announce, enqueue, inbound_hello, inbound_capacity, inbound_accept,
  inbound_tracked, inbound_chunk, inbound_signature,
}
use myference.Relay.Dispatch.{by_type}
use myference.Relay.Calls.{
  HubCall, message_call, connect_call, unregister_call, heartbeat_call, inbound_call, send_call,
  subscribe_call, unsubscribe_call, read_call, write_call, event_call, step, run_hub,
}

-- What a call does to the output of the requests: nothing, or the tracker takes one chunk.
data Effect (h h' : Hub) : Type 0 where
  untouched : h'.output_started ≡ h.output_started → h'.chunks ≡ h.chunks → Effect h h'
  tracked :
      (c : OutputChunk)
      → (Chunks.accept h.chunks c).1 ≡ none
      → h'.chunks ≡ (Chunks.accept h.chunks c).0
      → h'.output_started ≡ set_key h.output_started c.request_id true
      → Effect h h'

announce_keeps :
    (d : Decoder) (h : Hub) (m : String) (e : Envelope)
    → ((announce d h m e).0.output_started ≡ h.output_started)
      × ((announce d h m e).0.chunks ≡ h.chunks)
unfolding announce enqueue publish
announce_keeps d h m e = ground arith

inbound_chunk-Effect :
    (d : Decoder) (h : Hub) (m : String) (e : Envelope) (c : OutputChunk)
    → Effect h (inbound_chunk d h m e (ok c)).0
unfolding inbound_chunk inbound_tracked Chunks.accept
inbound_chunk-Effect d h m e c = elim (Option-cases (Chunks.accept h.chunks c).1) [
  | inl fine ↦
      let (o, t) =
        announce_keeps d
          (record h {
            chunks = (Chunks.accept h.chunks c).0;
            output_started = set_key h.output_started c.request_id true;
          })
          m e in
      Effect.tracked c fine (ground (arith, t)) (ground (arith, o))
  | inr (bad, refused) ↦ Effect.untouched (ground arith) (ground arith)
]

inbound_hello-Effect :
    (d : Decoder) (h : Hub) (m : String) (e : Envelope)
    → Effect h (inbound_hello h m (decode_body d.hello validate_hello e)).0
unfolding inbound_hello
inbound_hello-Effect d h m e = elim (Result-cases (decode_body d.hello validate_hello e)) [
  | inl (hello, fine) ↦ Effect.untouched (ground arith) (ground arith)
  | inr (bad, refused) ↦ Effect.untouched (ground arith) (ground arith)
]

inbound_capacity-Effect :
    (d : Decoder) (h : Hub) (m : String) (e : Envelope)
    → Effect h (inbound_capacity d h m e (decode_body d.capacity validate_capacity e)).0
unfolding inbound_capacity
inbound_capacity-Effect d h m e =
    let (o, t) = announce_keeps d h m e in
    elim (Result-cases (decode_body d.capacity validate_capacity e)) [
      | inl (capacity, fine) ↦ Effect.untouched (ground (arith, o)) (ground (arith, t))
      | inr (bad, refused) ↦ Effect.untouched (ground arith) (ground arith)
    ]

inbound_accept-Effect :
    (d : Decoder) (h : Hub) (m : String) (e : Envelope)
    → Effect h (inbound_accept d h m e (decode_body d.job_accept validate_job_accept e)).0
unfolding inbound_accept
inbound_accept-Effect d h m e =
    let (o, t) = announce_keeps d h m e in
    elim (Result-cases (decode_body d.job_accept validate_job_accept e)) [
      | inl (fine, same) ↦ Effect.untouched (ground (arith, o)) (ground (arith, t))
      | inr (bad, refused) ↦ Effect.untouched (ground arith) (ground arith)
    ]

inbound_signature-Effect :
    (d : Decoder) (h : Hub) (m : String) (e : Envelope)
    → Effect h
        (inbound_signature d h m e (decode_body d.receipt_signature validate_receipt_signature e)).0
unfolding inbound_signature
inbound_signature-Effect d h m e =
    let (o, t) = announce_keeps d h m e in
    elim (Result-cases (decode_body d.receipt_signature validate_receipt_signature e)) [
      | inl (fine, same) ↦ Effect.untouched (ground (arith, o)) (ground (arith, t))
      | inr (bad, refused) ↦ Effect.untouched (ground arith) (ground arith)
    ]

decode_body-Effect :
    (d : Decoder) (h : Hub) (m : String) (e : Envelope)
    → Effect h (inbound_chunk d h m e (decode_body d.output_chunk validate_output_chunk e)).0
unfolding inbound_chunk
decode_body-Effect d h m e =
    elim (Result-cases (decode_body d.output_chunk validate_output_chunk e)) [
      | inl (c, fine) ↦ rw fine (inbound_chunk-Effect d h m e c)
      | inr (bad, refused) ↦ Effect.untouched (ground arith) (ground arith)
    ]

accept_inbound-Effect :
    (d : Decoder) (h : Hub) (m : String) (e : Envelope) → Effect h (accept_inbound d h m e).0
accept_inbound-Effect d h m e =
    by_type d h m e (λ o. Effect h o.0) (inbound_hello-Effect d h m e)
      (inbound_capacity-Effect d h m e) (inbound_accept-Effect d h m e) (decode_body-Effect d h m e)
      (inbound_signature-Effect d h m e) (Effect.untouched refl refl)

send-Effect : (h : Hub) (m : String) (e : Envelope) → Effect h (send h m e).0
unfolding send send_on
send-Effect h m e = Effect.untouched (ground arith) (ground arith)

step-Effect : (d : Decoder) (h : Hub) (c : HubCall) → Effect h (step d h c)
unfolding step connect message_read unregister heartbeat_tick subscribe unsubscribe
step-Effect d h (connect_call m now) = Effect.untouched refl refl
step-Effect d h (unregister_call m p) = Effect.untouched (ground arith) (ground arith)
step-Effect d h (message_call p now) = Effect.untouched refl refl
step-Effect d h (heartbeat_call m p now) = Effect.untouched (ground arith) (ground arith)
step-Effect d h (inbound_call m e) = accept_inbound-Effect d h m e
step-Effect d h (send_call m e) = send-Effect h m e
step-Effect d h (subscribe_call r) = Effect.untouched refl refl
step-Effect d h (unsubscribe_call r channel) = Effect.untouched refl refl
step-Effect d h (read_call r channel) = Effect.untouched refl refl
step-Effect d h (write_call p) = Effect.untouched refl refl
step-Effect d h event_call = Effect.untouched refl refl

-- The output of a request has started if the tracker has seen a chunk of it.
unfoldable pub IsTracked : Hub → Type 0
IsTracked h = (r : String) → (h.output_started r ≡ true) ↔ (0 < h.chunks.last r)

Effect-IsTracked : (h h' : Hub) → Effect h h' → IsTracked h → IsTracked h'
unfolding IsTracked Chunks.accept validate_output_chunk
Effect-IsTracked h h' (Effect.untouched o t) k r = ground (arith, k r, o, t)
Effect-IsTracked h h' (Effect.tracked c fine t o) k r =
    ground (arith, k r, o, t, fine, eq_iff c.request_id r)

run-IsTracked :
    (d : Decoder) (h : Hub) (cs : List HubCall) → IsTracked h → IsTracked (run_hub d h cs)
unfolding run_hub
run-IsTracked d h [] k = k
run-IsTracked d h (c ∷ cs) k =
    run-IsTracked d (step d h c) cs (Effect-IsTracked h (step d h c) (step-Effect d h c) k)

-- Whatever happens to a new hub, a request may be retried exactly if its chunk tracker has admitted
-- no chunk of it.
pub can_retry_iff_no_chunk :
    (d : Decoder) (o : Options) (cs : List HubCall) (r : String)
    → (can_retry (run_hub d (new_hub o) cs) r ≡ true)
      ↔ ((run_hub d (new_hub o) cs).chunks.last r ≡ 0)
unfolding can_retry IsTracked new_hub new_chunk_tracker
can_retry_iff_no_chunk d o cs r =
    let tracked = run-IsTracked d (new_hub o) cs (λ q. ground arith) r in ground (arith, tracked)

Effect-can_retry :
    (h h' : Hub) (r : String) → Effect h h' → can_retry h r ≡ false → can_retry h' r ≡ false
unfolding can_retry
Effect-can_retry h h' r (Effect.untouched o t) k = ground (arith, o)
Effect-can_retry h h' r (Effect.tracked c fine t o) k = ground (arith, o)

run_keeps_started :
    (d : Decoder) (h : Hub) (cs : List HubCall) (r : String)
    → can_retry h r ≡ false
    → can_retry (run_hub d h cs) r ≡ false
unfolding run_hub
run_keeps_started d h [] r k = k
run_keeps_started d h (c ∷ cs) r k =
    run_keeps_started d (step d h c) cs r (Effect-can_retry h (step d h c) r (step-Effect d h c) k)

chunk_starts :
    (d : Decoder) (h : Hub) (m : String) (e : Envelope) (c : OutputChunk)
    → e.type ≡ message_output_chunk
    → decode_body d.output_chunk validate_output_chunk e ≡ ok c
    → (Chunks.accept h.chunks c).1 ≡ none
    → can_retry (accept_inbound d h m e).0 c.request_id ≡ false
unfolding accept_inbound inbound_chunk inbound_tracked can_retry
chunk_starts d h m e c typed decoded fine =
    let (o, t) =
      announce_keeps d
        (record h {
          chunks = (Chunks.accept h.chunks c).0;
          output_started = set_key h.output_started c.request_id true;
        })
        m e in
    rw (typed, decoded) (ground (arith, o, fine, eq_iff c.request_id c.request_id))

-- Once a chunk of a request was admitted, the request is never retried, even when the event found
-- the channels full, and whatever happens to the hub afterwards.
pub admitted_forbids_retry :
    (d : Decoder) (h : Hub) (m : String) (e : Envelope) (c : OutputChunk) (cs : List HubCall)
    → e.type ≡ message_output_chunk
    → decode_body d.output_chunk validate_output_chunk e ≡ ok c
    → (Chunks.accept h.chunks c).1 ≡ none
    → can_retry (run_hub d (accept_inbound d h m e).0 cs) c.request_id ≡ false
admitted_forbids_retry d h m e c cs typed decoded fine =
    run_keeps_started d (accept_inbound d h m e).0 cs c.request_id
      (chunk_starts d h m e c typed decoded fine)
