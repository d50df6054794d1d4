-- ===== src/Relay/Reconnect.antt =====
-- A machine that reconnects, and the end of the connection that it replaced.
use myference.Prelude.{
  ℕ, ◌<◌, String, true, false, none, some, List, [], ◌∷◌, ◌≡◌, ◌≢◌, refl, eq_iff, arith,
}
use myference.Protocol.Envelopes.{Envelope, Decoder}
use myference.Relay.{
  disconnected, Hub, connect, message_read, unregister, heartbeat_tick, send, send_on, subscribe,
  unsubscribe, publish, connected,
}
use myference.Relay.Inbound.{
  accept_inbound, announce, enqueue, inbound_hello, inbound_capacity, inbound_accept,
  inbound_tracked, inbound_chunk, inbound_signature,
}
use myference.Relay.Calls.{
  HubCall, message_call, connect_call, unregister_call, heartbeat_call, inbound_call, send_call,
  subscribe_call, unsubscribe_call, read_call, write_call, event_call, step, run_hub,
}
use myference.Relay.Dispatch.{by_type}

announce_keeps_sessions :
    (d : Decoder) (h : Hub) (m : String) (e : Envelope) → (announce d h m e).0.sessions ≡ h.sessions
unfolding announce enqueue publish
announce_keeps_sessions d h m e = ground arith

-- No message of a provider connects or disconnects a machine.
pub inbound_keeps_sessions :
    (d : Decoder) (h : Hub) (m : String) (e : Envelope)
    → (accept_inbound d h m e).0.sessions ≡ h.sessions
unfolding inbound_hello inbound_capacity inbound_accept inbound_tracked inbound_chunk
    inbound_signature announce enqueue publish
inbound_keeps_sessions d h m e =
    by_type d h m e (λ o. o.0.sessions ≡ h.sessions) (ground arith) (ground arith) (ground arith)
      (ground arith) (ground arith) refl

-- The calls that leave the session `p` of machine `m` alone: all but another connection of the
-- machine, and the end of `p` itself.
abbrev pub Spares : String → ℕ → HubCall → Type 0
Spares m p (connect_call n now) = n ≢ m
Spares m p (unregister_call n q) = q ≢ p
Spares m p (heartbeat_call n q now) = q ≢ p
Spares m p _ = Unit

abbrev pub AllSpare : String → ℕ → List HubCall → Type 0
AllSpare m p [] = Unit
AllSpare m p (c ∷ cs) = Spares m p c × AllSpare m p cs

step-Spares :
    (d : Decoder) (h : Hub) (c : HubCall) (m : String) (p : ℕ)
    → Spares m p c
    → h.sessions m ≡ some p
    → (step d h c).sessions m ≡ some p
unfolding step connect message_read unregister heartbeat_tick send send_on subscribe unsubscribe
step-Spares d h (connect_call n now) m p s k = ground (arith, eq_iff n m)
step-Spares d h (unregister_call n q) m p s k = ground (arith, eq_iff n m)
step-Spares d h (message_call q now) m p s k = k
step-Spares d h (heartbeat_call n q now) m p s k = ground (arith, eq_iff n m)
step-Spares d h (inbound_call n e) m p s k = rw (inbound_keeps_sessions d h n e) k
step-Spares d h (send_call n e) m p s k = ground arith
step-Spares d h (subscribe_call r) m p s k = k
step-Spares d h (unsubscribe_call r channel) m p s k = k
step-Spares d h (read_call r channel) m p s k = k
step-Spares d h (write_call q) m p s k = k
step-Spares d h event_call m p s k = k

run_spares :
    (d : Decoder) (h : Hub) (cs : List HubCall) (m : String) (p : ℕ)
    → AllSpare m p cs
    → h.sessions m ≡ some p
    → (run_hub d h cs).sessions m ≡ some p
unfolding run_hub
run_spares d h [] m p s k = k
run_spares d h (c ∷ cs) m p s k = run_spares d (step d h c) cs m p s.1 (step-Spares d h c m p s.0 k)

connect_registers :
    (h : Hub) (m : String) (now : ℕ) → (connect h m now).1.sessions m ≡ some (connect h m now).0
unfolding connect
connect_registers h m now = ground (arith, eq_iff m m)

registered_connected : (h : Hub) (m : String) (p : ℕ) → h.sessions m ≡ some p → connected h m ≡ true
unfolding connected
registered_connected h m p k = ground arith

unregistered : (h : Hub) (m : String) → h.sessions m ≡ none → connected h m ≡ false
unfolding connected
unregistered h m k = ground arith

unregistered_refuses :
    (h : Hub) (m : String) (e : Envelope)
    → h.sessions m ≡ none
    → send h m e ≡ (h, some disconnected)
unfolding send
unregistered_refuses h m e k = rw (k, send_on) refl

unregister_removes :
    (h : Hub) (m : String) (p : ℕ) → h.sessions m ≡ some p → (unregister h m p).sessions m ≡ none
unfolding unregister
unregister_removes h m p k = ground (arith, eq_iff m m)

-- A machine that has connected stays registered with its new session through every sequence of
-- calls without another connection of the machine and without the end of the new session itself: the
-- end of the connection that was replaced, and of other machines' connections, do not unregister it.
pub stays_connected :
    (d : Decoder) (h : Hub) (m : String) (now : ℕ) (cs : List HubCall)
    → AllSpare m (connect h m now).0 cs
    → (connected (run_hub d (connect h m now).1 cs) m ≡ true)
      × ((run_hub d (connect h m now).1 cs).sessions m ≡ some (connect h m now).0)
stays_connected d h m now cs s =
    let k =
      run_spares d (connect h m now).1 cs m (connect h m now).0 s (connect_registers h m now) in
    (registered_connected (run_hub d (connect h m now).1 cs) m (connect h m now).0 k, k)

-- After the session that a machine is registered with ends, the machine is not connected and a message to it is refused with `disconnected`.
pub ended_disconnects :
    (h : Hub) (m : String) (p : ℕ) (e : Envelope)
    → h.sessions m ≡ some p
    → (connected (unregister h m p) m ≡ false)
      × (send (unregister h m p) m e ≡ (unregister h m p, some disconnected))
ended_disconnects h m p e k =
    let gone = unregister_removes h m p k in
    (unregistered (unregister h m p) m gone, unregistered_refuses (unregister h m p) m e gone)

-- A reconnect closes the connection that it replaces, opens its own, and leaves every other
-- machine its session.
pub connect_replaces :
    (h : Hub) (m n : String) (now old : ℕ)
    → h.sessions m ≡ some old
    → old < h.fresh
    → n ≢ m
    → (((connect h m now).1.heap old).is_open ≡ false)
      × (((connect h m now).1.heap (connect h m now).0).is_open ≡ true)
      × ((connect h m now).1.sessions n ≡ h.sessions n)
unfolding connect
connect_replaces h m n now old k b other =
    (ground (arith, k), ground (arith, k), ground (arith, eq_iff m n))
