-- ===== src/Relay/Dispatch.antt =====
-- `AcceptInbound` by the type of the message.
use myference.Prelude.{String, Option, some, inl, inr, Bool-cases, str_eq}
use myference.Protocol.Messages.{
  invalid_message, message_hello, message_capacity, message_job_accept, message_output_chunk,
  message_receipt_signature, validate_hello, validate_capacity, validate_job_accept,
  validate_output_chunk, validate_receipt_signature,
}
use myference.Protocol.Envelopes.{Envelope, Decoder, decode_body}
use myference.Relay.{RelayError, message, Hub}
use myference.Relay.Inbound.{
  accept_inbound, inbound_hello, inbound_capacity, inbound_accept, inbound_chunk, inbound_signature,
}

module _ (d : Decoder) (h : Hub) (m : String) (e : Envelope)
    (P : Hub × Option RelayError → Type 0) where
  -- What holds of each handler's outcome, and of the refusal of other messages, holds of the
  -- outcome of `accept_inbound`.
  pub by_type :
      P (inbound_hello h m (decode_body d.hello validate_hello e))
      → P (inbound_capacity d h m e (decode_body d.capacity validate_capacity e))
      → P (inbound_accept d h m e (decode_body d.job_accept validate_job_accept e))
      → P (inbound_chunk d h m e (decode_body d.output_chunk validate_output_chunk e))
      → P (inbound_signature d h m e (decode_body d.receipt_signature validate_receipt_signature e))
      → P (h, some (message invalid_message))
      → P (accept_inbound d h m e)
  unfolding accept_inbound
  by_type hello capacity job chunk signature other =
      elim (Bool-cases (str_eq e.type message_hello)) [
        | inl t ↦ rw t hello
        | inr f1 ↦ elim (Bool-cases (str_eq e.type message_capacity)) [
          | inl t ↦ rw (f1, t) capacity
          | inr f2 ↦ elim (Bool-cases (str_eq e.type message_job_accept)) [
            | inl t ↦ rw (f1, f2, t) job
            | inr f3 ↦ elim (Bool-cases (str_eq e.type message_output_chunk)) [
              | inl t ↦ rw (f1, f2, f3, t) chunk
              | inr f4 ↦ elim (Bool-cases (str_eq e.type message_receipt_signature)) [
                | inl t ↦ rw (f1, f2, f3, f4, t) signature
                | inr f5 ↦ rw (f1, f2, f3, f4, f5) other
              ]
            ]
          ]
        ]
      ]
