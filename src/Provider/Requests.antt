-- ===== src/Provider/Requests.antt =====
-- cli/internal/provider/daemon.go: `RequestState`, the life of each request on the machine.
pub mod Leases
pub mod Relay
use myference.Prelude.{
  ℕ, ◌+◌, String, Bool, true, false, not, ◌&&◌, ◌||◌, Option, none, some, ◌==◌, ltb, str_eq,
  if◌then◌else◌,
}
use myference.Prelude.Words.{u64}
use myference.Protocol.Messages.{MessageError, OutputChunk, validate_output_chunk}
use myference.Protocol.Messages
use myference.Protocol.Chunks.{set_key}

-- `invalid` wraps an error of `Validate`.
pub data RequestError : Type 0 where
  lease_already_accepted request_terminal chunk_sequence : RequestError
  invalid : MessageError → RequestError

pub record Cursor : Type 0 where
  pub sequence : ℕ
  pub done : Bool

pub record RequestEntry : Type 0 where
  pub accepted : Bool
  pub sequence : ℕ
  pub terminal : Bool
  pub output_seen : Bool

-- The map from a request's ID to its entry; a nil pointer is `none`.
abbrev pub RequestState : Type 0
RequestState = String → Option RequestEntry

unfoldable pub new_request_state : RequestState
new_request_state _ = none

abbrev pub fresh_entry : RequestEntry
fresh_entry = record { accepted = true; sequence = 0; terminal = false; output_seen = false }

abbrev pub is_accepted : Option RequestEntry → Bool
is_accepted none = false
is_accepted (some e) = e.accepted

unfoldable pub accept : RequestState → String → RequestState × Option RequestError
accept s r =
    if is_accepted (s r)
    then (s, some lease_already_accepted)
    else (set_key s r (some fresh_entry), none)

-- The entry that an admitted chunk leaves.
abbrev pub advance : RequestEntry → OutputChunk → RequestEntry
advance e chunk = record e { sequence = chunk.sequence; output_seen = true; terminal = chunk.done }

record_on : RequestState → OutputChunk → Option RequestEntry → RequestState × Option RequestError
record_on s chunk none = (s, some request_terminal)
record_on s chunk (some e) =
    if not e.accepted || e.terminal
    then (s, some request_terminal)
    else if not (chunk.sequence == u64 (e.sequence + 1))
    then (s, some chunk_sequence)
    else (set_key s chunk.request_id (some (advance e chunk)), none)

unfoldable pub record_chunk : RequestState → OutputChunk → RequestState × Option RequestError
unfolding record_on
record_chunk s chunk = elim (validate_output_chunk chunk) [
  | some e ↦ (s, some (invalid e))
  | none ↦ record_on s chunk (s chunk.request_id)
]

cancel_on : RequestState → String → Option RequestEntry → RequestState × Option RequestError
cancel_on s r none = (s, some request_terminal)
cancel_on s r (some e) =
    if e.terminal
    then (s, some request_terminal)
    else (set_key s r (some (record e { terminal = true })), none)

unfoldable pub cancel : RequestState → String → RequestState × Option RequestError
unfolding cancel_on
cancel s r = cancel_on s r (s r)

unfoldable pub can_retry : RequestState → String → Bool
can_retry s r = elim (s r) [ none ↦ true | some e ↦ not e.output_seen ]

unfoldable pub cursor : RequestState → String → Cursor
cursor s r = elim (s r) [
  | none ↦ record { sequence = 0; done = false }
  | some e ↦ record { sequence = e.sequence; done = e.terminal }
]

unfoldable pub restore : RequestState → String → Cursor → RequestState
restore s r c = set_key s r (
    some (record {
      accepted = true;
      sequence = c.sequence;
      terminal = c.done;
      output_seen = ltb 0 c.sequence;
    }))

-- The calls that the daemon makes on its state while it runs.
pub data Call : Type 0 where
  accept_call cancel_call : String → Call
  record_call : OutputChunk → Call

unfoldable pub call : RequestState → Call → RequestState × Option RequestError
unfolding accept record_chunk cancel
call s (accept_call r) = accept s r
call s (cancel_call r) = cancel s r
call s (record_call c) = record_chunk s c
