-- ===== src/Relay/Calls.antt =====
-- What can happen to the hub: the calls of its methods, and the reads from its channels.
use myference.Prelude.{ℕ, String, List, [], ◌∷◌, map, if◌then◌else◌, ◌==◌}
use myference.Protocol.Chunks.{set_key}
use myference.Protocol.Envelopes.{Envelope, Decoder}
use myference.Relay.{
  Hub, Subscriber, set_at, connect, message_read, unregister, heartbeat_tick, send, subscribe,
  unsubscribe,
}
use myference.Relay.Inbound.{accept_inbound}

-- `write_call` is the write loop that takes a message off the outbound channel, and `event_call`
-- and `read_call` are readers of the events channel and of a subscriber's channel.
pub data HubCall : Type 0 where
  connect_call : String → ℕ → HubCall
  unregister_call : String → ℕ → HubCall
  message_call : ℕ → ℕ → HubCall
  heartbeat_call : String → ℕ → ℕ → HubCall
  inbound_call send_call : String → Envelope → HubCall
  subscribe_call : String → HubCall
  unsubscribe_call read_call : String → ℕ → HubCall
  write_call : ℕ → HubCall
  event_call : HubCall

abbrev pub pop {ℓ} : {A : Type ℓ} → List A → List A
pop [] = []
pop (x ∷ xs) = xs

abbrev pub read_from : ℕ → Subscriber → Subscriber
read_from channel s = if s.channel == channel then record s { queue = pop s.queue } else s

unfoldable pub step : Decoder → Hub → HubCall → Hub
step d h (connect_call m now) = (connect h m now).1
step d h (unregister_call m p) = unregister h m p
step d h (message_call p now) = message_read h p now
step d h (heartbeat_call m p now) = heartbeat_tick h m p now
step d h (inbound_call m e) = (accept_inbound d h m e).0
step d h (send_call m e) = (send h m e).0
step d h (subscribe_call r) = (subscribe h r).1
step d h (unsubscribe_call r channel) = unsubscribe h r channel
step d h (read_call r channel) = record h {
  subscribers = set_key h.subscribers r (map (read_from channel) (h.subscribers r));
}
step d h (write_call p) = record h {
  heap = set_at h.heap p (record (h.heap p) { outbound = pop (h.heap p).outbound });
}
step d h event_call = record h { events = pop h.events }

unfoldable pub run_hub : Decoder → Hub → List HubCall → Hub
run_hub d h [] = h
run_hub d h (c ∷ cs) = run_hub d (step d h c) cs
