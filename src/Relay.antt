-- ===== src/Relay.antt =====
-- server/internal/relay/hub.go: the hub that the providers' machines are connected to.
-- A session is a pointer into a heap, so that a reconnect and the end of the old connection can be
-- told apart. A channel is the list of what it holds, oldest first. `ServeHTTP` is `connect`, then
-- `message_read` and `accept_inbound` for each message that is read, then `unregister`.
pub mod Inbound
pub mod Calls
pub mod Dispatch
pub mod Reconnect
pub mod Heartbeat
pub mod Output
use myference.Prelude.{
  ℕ, suc, ◌+◌, ◌-◌, ◌*◌, ◌/◌, String, Bool, true, false, not, ◌||◌, Option, none, some, List, [],
  ◌∷◌, ◌++◌, ltb, ◌==◌, str_eq, is_empty, length, map, keep, if◌then◌else◌,
}
use myference.Prelude.Result.{Result, ok, err}
use myference.Protocol.Messages.{
  MessageError, invalid_message, message_hello, message_capacity, message_job_accept,
  message_output_chunk, message_receipt_signature, Hello, Capacity, JobAccept, OutputChunk,
  ReceiptSignature, validate_hello, validate_capacity, validate_job_accept, validate_output_chunk,
  validate_receipt_signature,
}
use myference.Protocol.Chunks.{ChunkTracker, new_chunk_tracker, set_key}
use myference.Protocol.Chunks
use myference.Protocol.Envelopes.{Envelope, Decoder, decode_body}

-- `message` wraps an error of the protocol, and `capacity_refused` one of the capacity handler.
pub data RelayError : Type 0 where
  unauthorized disconnected backpressure capacity_refused : RelayError
  message : MessageError → RelayError

pub record Options : Type 0 where
  pub queue_size : ℕ
  pub heartbeat_timeout : ℕ
  pub maximum_message : ℕ
  pub capacity_handler : Option (String → Capacity → Bool)

pub record Event : Type 0 where
  pub machine_id : String
  pub type : String
  pub envelope : Envelope

-- The connection is open until it is closed.
pub record Session : Type 0 where
  pub is_open : Bool
  pub outbound : List Envelope
  pub last_seen : ℕ

-- A channel that `Subscribe` returned.
pub record Subscriber : Type 0 where
  pub channel : ℕ
  pub queue : List Event

pub record Hub : Type 0 where
  pub options : Options
  pub sessions : String → Option ℕ
  pub heap : ℕ → Session
  pub fresh : ℕ
  pub output_started : String → Bool
  pub chunks : ChunkTracker
  pub events : List Event
  pub subscribers : String → List Subscriber
  pub fresh_channel : ℕ

abbrev pub events_capacity : ℕ
events_capacity = 64

abbrev pub subscriber_capacity : ℕ
subscriber_capacity = 8

abbrev or_default : ℕ → ℕ → ℕ
or_default n d = if n == 0 then d else n

abbrev closed_session : Session
closed_session = record { is_open = false; outbound = []; last_seen = 0 }

-- `NewHub`; durations are in nanoseconds, and 0 stands for every value that is not positive.
unfoldable pub new_hub : Options → Hub
unfolding new_chunk_tracker
new_hub o = record {
  options = record {
    queue_size = or_default o.queue_size 16;
    heartbeat_timeout = or_default o.heartbeat_timeout 30000000000;
    maximum_message = or_default o.maximum_message 1048576;
    capacity_handler = o.capacity_handler;
  };
  sessions = λ _. none;
  heap = λ _. closed_session;
  fresh = 0;
  output_started = λ _. false;
  chunks = new_chunk_tracker;
  events = [];
  subscribers = λ _. [];
  fresh_channel = 0;
}

abbrev pub set_at : (ℕ → Session) → ℕ → Session → ℕ → Session
set_at heap p s q = if p == q then s else heap q

abbrev pub close_connection : (ℕ → Session) → ℕ → ℕ → Session
close_connection heap p = set_at heap p (record (heap p) { is_open = false })

abbrev close_old : Hub → Option ℕ → ℕ → Session
close_old h none = h.heap
close_old h (some old) = close_connection h.heap old

-- The part of `ServeHTTP` that registers a connection: the pointer of its session, and the hub.
unfoldable pub connect : Hub → String → ℕ → ℕ × Hub
connect h machine_id now =
    let current = h.fresh in
    (
      current,
      record h {
        heap =
            set_at (close_old h (h.sessions machine_id)) current
              (record { is_open = true; outbound = []; last_seen = now });
        sessions = set_key h.sessions machine_id (some current);
        fresh = current + 1;
      },
    )

abbrev pub same_pointer : Option ℕ → ℕ → Bool
same_pointer none p = false
same_pointer (some q) p = q == p

-- What `ServeHTTP` notes of the session at each message that it reads.
unfoldable pub message_read : Hub → ℕ → ℕ → Hub
message_read h current now = record h {
  heap = set_at h.heap current (record (h.heap current) { last_seen = now });
}

-- `unregister`
unfoldable pub unregister : Hub → String → ℕ → Hub
unregister h machine_id current =
    if same_pointer (h.sessions machine_id) current
    then record h { sessions = set_key h.sessions machine_id none }
    else h

-- A tick of `heartbeatLoop` at time `now`.
unfoldable pub heartbeat_tick : Hub → String → ℕ → ℕ → Hub
unfolding unregister
heartbeat_tick h machine_id current now =
    if ltb h.options.heartbeat_timeout (now - (h.heap current).last_seen)
    then (let left = unregister h machine_id current in
        record left { heap = close_connection left.heap current })
    else h

-- A send that does not block, on a channel with room for `n`.
abbrev pub try_send {ℓ} : {A : Type ℓ} → ℕ → A → List A → List A
try_send n a queue = if ltb (length queue) n then queue ++ a ∷ [] else queue

abbrev deliver : Event → Subscriber → Subscriber
deliver event s = record s { queue = try_send subscriber_capacity event s.queue }

-- `publish`
unfoldable pub publish : Hub → String → Event → Hub
publish h r event =
    if is_empty r
    then h
    else record h { subscribers = set_key h.subscribers r (map (deliver event) (h.subscribers r)) }

unfoldable pub send_on : Hub → Envelope → Option ℕ → Hub × Option RelayError
send_on h e none = (h, some disconnected)
send_on h e (some p) =
    let s = h.heap p in
    if ltb (length s.outbound) h.options.queue_size
    then (record h { heap = set_at h.heap p (record s { outbound = s.outbound ++ e ∷ [] }) }, none)
    else (h, some backpressure)

-- `Send`
unfoldable pub send : Hub → String → Envelope → Hub × Option RelayError
unfolding send_on
send h machine_id e = send_on h e (h.sessions machine_id)

-- `Subscribe`: the channel, and the hub.
unfoldable pub subscribe : Hub → String → ℕ × Hub
subscribe h r =
    let channel = h.fresh_channel in
    (
      channel,
      record h {
        subscribers =
            set_key h.subscribers r (record { channel = channel; queue = [] } ∷ h.subscribers r);
        fresh_channel = channel + 1;
      },
    )

-- The function that `Subscribe` returns.
unfoldable pub unsubscribe : Hub → String → ℕ → Hub
unsubscribe h r channel = record h {
  subscribers = set_key h.subscribers r (keep (λ s. not (s.channel == channel)) (h.subscribers r));
}

unfoldable pub can_retry : Hub → String → Bool
can_retry h r = not (h.output_started r)

unfoldable pub connected : Hub → String → Bool
connected h machine_id = elim (h.sessions machine_id) [ none ↦ false | some _ ↦ true ]
