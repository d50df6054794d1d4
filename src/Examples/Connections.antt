-- ===== src/Examples/Connections.antt =====
-- The relay hub at concrete inputs.
use myference.Prelude.{
  String, true, false, none, some, List, [], ◌∷◌, ◌≡◌, ◌≢◌, refl, eq_iff, arith,
}
use myference.Prelude.{is_blank}
use myference.Prelude.Text.{trim_space, trim_left, trim_right}
use myference.Protocol.Messages.{validate_output_chunk}
use myference.Protocol.Chunks.{new_chunk_tracker}
use myference.Protocol.Chunks
use myference.Protocol.Envelopes.{Envelope, Decoder}
use myference.Relay.{
  Options, Hub, new_hub, connect, message_read, heartbeat_tick, connected, can_retry,
}
use myference.Relay.Inbound.{accept_inbound}
use myference.Relay.Calls.{
  HubCall, message_call, connect_call, unregister_call, heartbeat_call, inbound_call, send_call,
  subscribe_call, event_call, run_hub,
}
use myference.Relay.Output.{admitted_forbids_retry}
use myference.Relay.Reconnect.{stays_connected}
use myference.Relay.Heartbeat.{tick_ends_silence}
use myference.Examples.Streams.{first_chunk}

abbrev default_options : Options
default_options = record {
  queue_size = 0;
  heartbeat_timeout = 0;
  maximum_message = 0;
  capacity_handler = none;
}

abbrev chunk_envelope : Envelope
chunk_envelope = record { version = 1; type = "output_chunk"; id = "e1"; body = 1 ∷ [] }

-- A decoder that reads every body as the first chunk.
abbrev chunk_decoder : Decoder
chunk_decoder = record {
  envelope = λ _. some chunk_envelope;
  hello = λ _. none;
  capacity = λ _. none;
  job_accept = λ _. none;
  output_chunk = λ _. some first_chunk;
  cancel = λ _. none;
  receipt_proposal = λ _. none;
  receipt_signature = λ _. none;
}

abbrev empty_hub : Hub
empty_hub = new_hub default_options

abbrev hub_calls : List HubCall
hub_calls =
    connect_call "m1" 1
    ∷ subscribe_call "r1"
    ∷ message_call 0 2
    ∷ inbound_call "m1" chunk_envelope
    ∷ inbound_call "m1" chunk_envelope
    ∷ send_call "m1" chunk_envelope
    ∷ connect_call "m1" 2
    ∷ unregister_call "m1" 0
    ∷ event_call
    ∷ []

admitted_forbids_retry_example :
    can_retry
      (run_hub chunk_decoder
        (accept_inbound chunk_decoder empty_hub "m1" chunk_envelope).0
        hub_calls)
      "r1"
    ≡ false
unfolding validate_output_chunk is_blank trim_space trim_left trim_right Chunks.accept new_hub
    new_chunk_tracker
admitted_forbids_retry_example =
    admitted_forbids_retry chunk_decoder empty_hub "m1" chunk_envelope first_chunk hub_calls refl
      refl refl

-- A hub on which machine m1 connected once.
abbrev connected_hub : Hub
connected_hub = (connect empty_hub "m1" 1).1

abbrev later_calls : List HubCall
later_calls =
    unregister_call "m1" 0
    ∷ heartbeat_call "m1" 0 60000000000
    ∷ connect_call "m2" 3
    ∷ inbound_call "m1" chunk_envelope
    ∷ []

abbrev m1 : String
m1 = "m1"

abbrev m2 : String
m2 = "m2"

other_machine : m2 ≢ m1
other_machine e = ground (arith, eq_iff m2 m1)

stays_connected_example :
    (connected (run_hub chunk_decoder (connect connected_hub "m1" 2).1 later_calls) "m1" ≡ true)
    × ((run_hub chunk_decoder (connect connected_hub "m1" 2).1 later_calls).sessions "m1" ≡ some 1)
unfolding connect new_hub
stays_connected_example =
    stays_connected chunk_decoder connected_hub "m1" 2 later_calls
      (λ e. omega (arith, e), (λ e. omega (arith, e), (other_machine, (tt, tt))))

-- What happens after a message was read at time 5: the start of another machine's connection, and a
-- message that the machine is sent.
abbrev silent_calls : List HubCall
silent_calls = connect_call "m2" 6 ∷ send_call "m1" chunk_envelope ∷ []

abbrev silent_hub : Hub
silent_hub = run_hub chunk_decoder (message_read connected_hub 0 5) silent_calls

-- 30 seconds and a nanosecond later.
tick_ends_silence_example :
    (connected (heartbeat_tick silent_hub "m1" 0 30000000006) "m1" ≡ false)
    × (((heartbeat_tick silent_hub "m1" 0 30000000006).heap 0).is_open ≡ false)
unfolding connect new_hub
tick_ends_silence_example =
    tick_ends_silence chunk_decoder connected_hub "m1" 0 5 silent_calls 30000000006 refl
      (omega arith) (other_machine, (tt, tt))
