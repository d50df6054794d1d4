-- ===== src/Relay/Heartbeat.antt =====
-- When the heartbeat ends the session of a machine.
use myference.Prelude.{
  ℕ, ◌-◌, ◌<◌, String, false, not, some, List, [], ◌∷◌, ◌≡◌, ◌≢◌, refl, eq_iff, ltb, arith,
  if◌then◌else◌,
}
use myference.Protocol.Envelopes.{Envelope, Decoder}
use myference.Relay.{
  Hub, Options, connect, message_read, unregister, heartbeat_tick, send, send_on, subscribe,
  unsubscribe, publish, connected,
}
use myference.Relay.Inbound.{
  accept_inbound, announce, enqueue, inbound_hello, inbound_capacity, inbound_accept,
  inbound_tracked, inbound_chunk, inbound_signature,
}
use myference.Relay.Calls.{
  HubCall, connect_call, unregister_call, message_call, heartbeat_call, inbound_call, send_call,
  subscribe_call, unsubscribe_call, read_call, write_call, event_call, step, run_hub,
}
use myference.Relay.Dispatch.{by_type}
use myference.Relay.Reconnect.{inbound_keeps_sessions}

-- The machine has session `p`, from which the last message was read at time `t`.
record Alive (m : String) (p t : ℕ) (o : Options) (h : Hub) : Type 0 where
  options : h.options ≡ o
  seen : (h.heap p).last_seen ≡ t
  known : p < h.fresh
  current : h.sessions m ≡ some p

-- A call that leaves the sessions and their connections alone.
abbrev Kept : Hub → Hub → Type 0
Kept h h' =
    (h'.options ≡ h.options)
    × (h'.heap ≡ h.heap)
    × (h'.fresh ≡ h.fresh)
    × (h'.sessions ≡ h.sessions)

same-Alive :
    (m : String) (p t : ℕ) (o : Options) (h h' : Hub)
    → Kept h h'
    → Alive m p t o h
    → Alive m p t o h'
same-Alive m p t o h h' (options, heap, fresh, sessions) a = record {
  options = rw options a.options;
  seen = rw heap a.seen;
  known = rw fresh a.known;
  current = rw sessions a.current;
}

inbound-options :
    (d : Decoder) (h : Hub) (m : String) (e : Envelope)
    → (accept_inbound d h m e).0.options ≡ h.options
unfolding inbound_hello inbound_capacity inbound_accept inbound_tracked inbound_chunk
    inbound_signature announce enqueue publish
inbound-options d h m e =
    by_type d h m e (λ o. o.0.options ≡ h.options) (ground arith) (ground arith) (ground arith)
      (ground arith) (ground arith) refl

inbound-heap :
    (d : Decoder) (h : Hub) (m : String) (e : Envelope) → (accept_inbound d h m e).0.heap ≡ h.heap
unfolding inbound_hello inbound_capacity inbound_accept inbound_tracked inbound_chunk
    inbound_signature announce enqueue publish
inbound-heap d h m e =
    by_type d h m e (λ o. o.0.heap ≡ h.heap) (ground arith) (ground arith) (ground arith)
      (ground arith) (ground arith) refl

inbound-fresh :
    (d : Decoder) (h : Hub) (m : String) (e : Envelope) → (accept_inbound d h m e).0.fresh ≡ h.fresh
unfolding inbound_hello inbound_capacity inbound_accept inbound_tracked inbound_chunk
    inbound_signature announce enqueue publish
inbound-fresh d h m e =
    by_type d h m e (λ o. o.0.fresh ≡ h.fresh) (ground arith) (ground arith) (ground arith)
      (ground arith) (ground arith) refl

-- The calls that leave session `p` of machine `m` alone: all but another connection of the machine,
-- the end of `p`, its heartbeat, and a message that is read from it.
abbrev pub Quiet : String → ℕ → HubCall → Type 0
Quiet m p (connect_call n now) = n ≢ m
Quiet m p (unregister_call n q) = q ≢ p
Quiet m p (message_call q now) = q ≢ p
Quiet m p (heartbeat_call n q now) = q ≢ p
Quiet m p _ = Unit

abbrev pub AllQuiet : String → ℕ → List HubCall → Type 0
AllQuiet m p [] = Unit
AllQuiet m p (c ∷ cs) = Quiet m p c × AllQuiet m p cs

step-Alive :
    (d : Decoder) (m : String) (p t : ℕ) (o : Options) (h : Hub) (c : HubCall)
    → Quiet m p c
    → Alive m p t o h
    → Alive m p t o (step d h c)
unfolding step connect message_read unregister heartbeat_tick send send_on subscribe unsubscribe
step-Alive d m p t o h (connect_call n now) q a = record {
  options = a.options;
  seen = ground (arith, a.seen, a.known);
  known = ground (arith, a.known);
  current = ground (arith, a.current, eq_iff n m);
}
step-Alive d m p t o h (unregister_call n q') q a = record {
  options = ground (arith, a.options);
  seen = ground (arith, a.seen);
  known = ground (arith, a.known);
  current = ground (arith, a.current, eq_iff n m);
}
step-Alive d m p t o h (message_call q' now) q a = record {
  options = a.options;
  seen = ground (arith, a.seen);
  known = a.known;
  current = a.current;
}
step-Alive d m p t o h (heartbeat_call n q' now) q a = record {
  options = ground (arith, a.options);
  seen = ground (arith, a.seen);
  known = ground (arith, a.known);
  current = ground (arith, a.current, eq_iff n m);
}
step-Alive d m p t o h (inbound_call n e) q a =
    same-Alive m p t o h (accept_inbound d h n e).0
      (
        inbound-options d h n e,
        inbound-heap d h n e,
        inbound-fresh d h n e,
        inbound_keeps_sessions d h n e,
      )
      a
step-Alive d m p t o h (send_call n e) q a = record {
  options = ground (arith, a.options);
  seen = ground (arith, a.seen);
  known = ground (arith, a.known);
  current = ground (arith, a.current);
}
step-Alive d m p t o h (subscribe_call r) q a = same-Alive m p t o h _ (refl, refl, refl, refl) a
step-Alive d m p t o h (unsubscribe_call r channel) q a =
    same-Alive m p t o h _ (refl, refl, refl, refl) a
step-Alive d m p t o h (read_call r channel) q a = same-Alive m p t o h _ (refl, refl, refl, refl) a
step-Alive d m p t o h (write_call q') q a = record {
  options = a.options;
  seen = ground (arith, a.seen);
  known = a.known;
  current = a.current;
}
step-Alive d m p t o h event_call q a = same-Alive m p t o h _ (refl, refl, refl, refl) a

run-Alive :
    (d : Decoder) (m : String) (p t : ℕ) (o : Options) (h : Hub) (cs : List HubCall)
    → AllQuiet m p cs
    → Alive m p t o h
    → Alive m p t o (run_hub d h cs)
unfolding run_hub
run-Alive d m p t o h [] q a = a
run-Alive d m p t o h (c ∷ cs) q a =
    run-Alive d m p t o (step d h c) cs q.1 (step-Alive d m p t o h c q.0 a)

read-Alive :
    (h : Hub) (m : String) (p t : ℕ)
    → h.sessions m ≡ some p
    → p < h.fresh
    → Alive m p t h.options (message_read h p t)
unfolding message_read
read-Alive h m p t current known = record {
  options = refl;
  seen = ground arith;
  known = known;
  current = current;
}

ticks :
    (m : String) (p t : ℕ) (o : Options) (h : Hub) (now : ℕ)
    → Alive m p t o h
    → (connected (heartbeat_tick h m p now) m ≡ not (ltb o.heartbeat_timeout (now - t)))
      × (((heartbeat_tick h m p now).heap p).is_open
          ≡ (if ltb o.heartbeat_timeout (now - t) then false else (h.heap p).is_open))
unfolding heartbeat_tick unregister connected
ticks m p t o h now a = (
  ground (arith, a.options, a.seen, a.current, eq_iff m m),
  ground (arith, a.options, a.seen, a.current),
)

-- The heartbeat ends a session exactly when it has been silent for longer than the timeout: after a
-- message was read from the session that the hub has made for a machine, and any calls but further messages from it, its own
-- heartbeat, its end and another connection of the machine, a tick leaves the machine connected if and
-- only if the time since that message is at most the timeout, and otherwise closes the connection.
pub tick_ends_silence :
    (d : Decoder) (h : Hub) (m : String) (p t : ℕ) (cs : List HubCall) (now : ℕ)
    → h.sessions m ≡ some p
    → p < h.fresh
    → AllQuiet m p cs
    → let after = run_hub d (message_read h p t) cs in
      (connected (heartbeat_tick after m p now) m ≡ not (ltb h.options.heartbeat_timeout (now - t)))
      × (((heartbeat_tick after m p now).heap p).is_open
          ≡ (if ltb h.options.heartbeat_timeout (now - t) then false else (after.heap p).is_open))
tick_ends_silence d h m p t cs now current known quiet =
    ticks m p t h.options (run_hub d (message_read h p t) cs) now
      (run-Alive d m p t h.options (message_read h p t) cs quiet (read-Alive h m p t current known))
