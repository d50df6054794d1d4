-- ===== src/Protocol/Envelopes.antt =====
-- protocol/v1/messages.go: `Envelope`, in which every message travels, and its strict decoding.
-- The JSON decoder (`decodeStrict`) is a parameter: for each type of message, what it makes of bytes.
use myference.Prelude.{
  ℕ, ◌+◌, String, not, ◌||◌, Option, none, some, List, ltb, ◌==◌, is_blank, length, take,
  if◌then◌else◌,
}
use myference.Prelude.Result.{Result, ok, err}
use myference.Protocol.Messages.{
  MessageError, invalid_message, message_too_large, unsupported_version, protocol_version,
  known_message_type, Hello, Capacity, JobAccept, OutputChunk, Cancel, ReceiptProposal,
  ReceiptSignature,
}

abbrev pub Bytes : Type 0
Bytes = List ℕ

pub record Envelope : Type 0 where
  pub version : ℕ
  pub type : String
  pub id : String
  pub body : Bytes

-- `decodeStrict` into each type; `none` is its error.
pub record Decoder : Type 0 where
  pub envelope : Bytes → Option Envelope
  pub hello : Bytes → Option Hello
  pub capacity : Bytes → Option Capacity
  pub job_accept : Bytes → Option JobAccept
  pub output_chunk : Bytes → Option OutputChunk
  pub cancel : Bytes → Option Cancel
  pub receipt_proposal : Bytes → Option ReceiptProposal
  pub receipt_signature : Bytes → Option ReceiptSignature

abbrev validated : {M : Type 0} → M → Option MessageError → Result MessageError M
validated m none = ok m
validated m (some e) = err e

-- `DecodeBody` into a type with that decoder and that `Validate`.
abbrev pub decode_body :
    {M : Type 0} → (Bytes → Option M) → (M → Option MessageError) → Envelope → Result MessageError M
decode_body decode validate e = elim (decode e.body) [
  | none ↦ err invalid_message
  | some m ↦ validated m (validate m)
]

-- The tests of `DecodeEnvelope` on what the decoder made.
abbrev checked : Option Envelope → Result MessageError Envelope
checked none = err invalid_message
checked (some e) =
    if not (e.version == protocol_version)
    then err unsupported_version
    else if is_blank e.id || not (known_message_type e.type) || length e.body == 0
    then err invalid_message
    else ok e

-- `DecodeEnvelope` of a reader that gives these bytes: it reads one byte more than the maximum.
unfoldable pub decode_envelope : Decoder → Bytes → ℕ → Result MessageError Envelope
decode_envelope d reader maximum_bytes =
    let read = take (maximum_bytes + 1) reader in
    if maximum_bytes == 0
    then err invalid_message
    else if ltb maximum_bytes (length read)
    then err message_too_large
    else checked (d.envelope read)

-- `NewEnvelope`, for a message with that JSON text and that result of `Validate`.
unfoldable pub new_envelope :
    String → String → Option MessageError → Bytes → Result MessageError Envelope
new_envelope id message_type invalid body =
    if is_blank id || not (known_message_type message_type)
    then err invalid_message
    else validated
        (record { version = protocol_version; type = message_type; id = id; body = body }) invalid
