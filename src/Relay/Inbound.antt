-- ===== src/Relay/Inbound.antt =====
-- server/internal/relay/hub.go: `AcceptInbound`, what the hub does with a provider's message.
use myference.Prelude.{
  String, Bool, true, not, Option, none, some, [], ◌∷◌, ◌++◌, ltb, str_eq, length, if◌then◌else◌,
}
use myference.Prelude.Result.{Result, ok, err}
use myference.Protocol.Messages.{
  MessageError, invalid_message, message_hello, message_capacity, message_job_accept,
  message_output_chunk, message_receipt_signature, Hello, Capacity, JobAccept, OutputChunk,
  ReceiptSignature, validate_hello, validate_capacity, validate_job_accept, validate_output_chunk,
  validate_receipt_signature,
}
use myference.Protocol.Chunks.{ChunkTracker, new_chunk_tracker, set_key}
use myference.Protocol.Chunks
use myference.Protocol.Envelopes.{Envelope, Decoder, decode_body}
use myference.Relay.{
  RelayError, message, backpressure, capacity_refused, Hub, Event, events_capacity, publish,
}

abbrev id_of_accept : Result MessageError JobAccept → String
id_of_accept (ok m) = m.request_id
id_of_accept (err _) = ""

abbrev id_of_chunk : Result MessageError OutputChunk → String
id_of_chunk (ok m) = m.request_id
id_of_chunk (err _) = ""

abbrev id_of_signature : Result MessageError ReceiptSignature → String
id_of_signature (ok m) = m.request_id
id_of_signature (err _) = ""

-- `requestID`
unfoldable pub request_id : Decoder → Envelope → String
request_id d e =
    if str_eq e.type message_job_accept
    then id_of_accept (decode_body d.job_accept validate_job_accept e)
    else if str_eq e.type message_output_chunk
    then id_of_chunk (decode_body d.output_chunk validate_output_chunk e)
    else if str_eq e.type message_receipt_signature
    then id_of_signature (decode_body d.receipt_signature validate_receipt_signature e)
    else ""

-- The end of `AcceptInbound`: the event goes to the subscribers and to the events channel.
unfoldable pub enqueue : Hub → Event → Hub × Option RelayError
enqueue h event =
    if ltb (length h.events) events_capacity
    then (record h { events = h.events ++ event ∷ [] }, none)
    else (h, some backpressure)

unfoldable pub announce : Decoder → Hub → String → Envelope → Hub × Option RelayError
unfolding publish request_id enqueue
announce d h machine_id e =
    let event : Event = record { machine_id = machine_id; type = e.type; envelope = e } in
    enqueue (publish h (request_id d e) event) event

abbrev pub handled : Option (String → Capacity → Bool) → String → Capacity → Bool
handled none machine_id capacity = true
handled (some handler) machine_id capacity = handler machine_id capacity

unfoldable pub inbound_hello : Hub → String → Result MessageError Hello → Hub × Option RelayError
inbound_hello h machine_id (err e) = (h, some (message invalid_message))
inbound_hello h machine_id (ok hello) =
    if not (str_eq hello.machine_id machine_id)
    then (h, some (message invalid_message))
    else (h, none)

unfoldable pub inbound_capacity :
    Decoder → Hub → String → Envelope → Result MessageError Capacity → Hub × Option RelayError
inbound_capacity d h machine_id e (err bad) = (h, some (message bad))
inbound_capacity d h machine_id e (ok capacity) =
    if not (handled h.options.capacity_handler machine_id capacity)
    then (h, some capacity_refused)
    else announce d h machine_id e

unfoldable pub inbound_accept :
    Decoder → Hub → String → Envelope → Result MessageError JobAccept → Hub × Option RelayError
inbound_accept d h machine_id e (err bad) = (h, some (message bad))
inbound_accept d h machine_id e (ok _) = announce d h machine_id e

-- The tracker takes the chunk first; then the request's output has started.
unfoldable pub inbound_tracked :
    Decoder
    → Hub
    → String
    → Envelope
    → OutputChunk
    → ChunkTracker × Option MessageError
    → Hub × Option RelayError
inbound_tracked d h machine_id e chunk (tracker, some bad) =
    (record h { chunks = tracker }, some (message bad))
inbound_tracked d h machine_id e chunk (tracker, none) =
    announce d
      (record h {
        chunks = tracker;
        output_started = set_key h.output_started chunk.request_id true;
      })
      machine_id e

unfoldable pub inbound_chunk :
    Decoder → Hub → String → Envelope → Result MessageError OutputChunk → Hub × Option RelayError
inbound_chunk d h machine_id e (err bad) = (h, some (message bad))
inbound_chunk d h machine_id e (ok chunk) =
    inbound_tracked d h machine_id e chunk (Chunks.accept h.chunks chunk)

unfoldable pub inbound_signature :
    Decoder
    → Hub
    → String
    → Envelope
    → Result MessageError ReceiptSignature
    → Hub × Option RelayError
inbound_signature d h machine_id e (err bad) = (h, some (message bad))
inbound_signature d h machine_id e (ok _) = announce d h machine_id e

-- `AcceptInbound`
unfoldable pub accept_inbound : Decoder → Hub → String → Envelope → Hub × Option RelayError
unfolding inbound_hello inbound_capacity inbound_accept inbound_tracked inbound_chunk
    inbound_signature
accept_inbound d h machine_id e =
    if str_eq e.type message_hello
    then inbound_hello h machine_id (decode_body d.hello validate_hello e)
    else if str_eq e.type message_capacity
    then inbound_capacity d h machine_id e (decode_body d.capacity validate_capacity e)
    else if str_eq e.type message_job_accept
    then inbound_accept d h machine_id e (decode_body d.job_accept validate_job_accept e)
    else if str_eq e.type message_output_chunk
    then inbound_chunk d h machine_id e (decode_body d.output_chunk validate_output_chunk e)
    else if str_eq e.type message_receipt_signature
    then inbound_signature d h machine_id e
        (decode_body d.receipt_signature validate_receipt_signature e)
    else (h, some (message invalid_message))
