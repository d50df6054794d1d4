-- ===== src/Protocol/Chunks.antt =====
-- protocol/v1/messages.go: `ChunkTracker`, which admits the output of each request in order.
pub mod Streams
use myference.Prelude.{
  ℕ, ◌+◌, ◌%◌, String, Bool, true, false, not, ◌||◌, Option, none, some, ◌==◌, str_eq,
  if◌then◌else◌,
}
use myference.Prelude.Words.{u64}
use myference.Protocol.Messages.{MessageError, chunk_sequence, OutputChunk, validate_output_chunk}

-- A Go map with its zero value for a missing key.
pub record ChunkTracker : Type 0 where
  pub last : String → ℕ
  pub closed : String → Bool

unfoldable pub new_chunk_tracker : ChunkTracker
new_chunk_tracker = record { last = λ _. 0; closed = λ _. false }

-- `m[k] = v`
abbrev pub set_key {ℓ} : {A : Type ℓ} → (String → A) → String → A → String → A
set_key m k v j = if str_eq k j then v else m j

unfoldable pub accept : ChunkTracker → OutputChunk → ChunkTracker × Option MessageError
accept t chunk =
    let r = chunk.request_id in
    elim (validate_output_chunk chunk) [
      | some e ↦ (t, some e)
      | none ↦
          if t.closed r || not (chunk.sequence == u64 (t.last r + 1))
          then (t, some chunk_sequence)
          else (
            record {
              last = set_key t.last r chunk.sequence;
              closed = if chunk.done then set_key t.closed r true else t.closed;
            },
            none,
          )
    ]
