-- ===== src/Op/RoundTrip.antt =====
-- internal/agent/op.go: the encoders against the decoders.
use sshush.Prelude.{
  ℕ, ◌≡◌, refl, ◌⊎◌, inl, inr, none, some, [], ◌∷◌, Bytes, length, ◌==◌, arith, Bool-cases,
}
use sshush.Prelude.Outcome.{ok, err, slice, slice-append_end}
use sshush.Op.{
  OpError, encode_op_request, decode_op_request, encode_op_response, decode_op_response,
  error_for_status, op_version, short_message, bad_version,
}

-- The body of a message behind its two header bytes.
body_slice :
    {E : Type 0} (v s : ℕ) (body : Bytes)
    → slice {E = E} (v ∷ s ∷ body) 2 (length (v ∷ s ∷ body)) ≡ ok body
body_slice v s body = slice-append_end (v ∷ s ∷ []) body 2 _ refl (omega arith)

-- A request decodes to the operation and the payload that it was built from.
pub decode-encode_op_request :
    (op : ℕ) (payload : Bytes) → decode_op_request (encode_op_request op payload) ≡ ok (op, payload)
unfolding decode_op_request encode_op_request
decode-encode_op_request op payload = ground (arith, body_slice {E = OpError} op_version op payload)

-- A message that decodes is the encoding of what it decodes to, and no message makes the decoder panic.
pub decode_op_request_cases :
    (contents : Bytes)
    → ((op : ℕ) × (payload : Bytes) × (decode_op_request contents ≡ ok (op, payload))
        × (contents ≡ encode_op_request op payload))
      ⊎ ((e : OpError) × (decode_op_request contents ≡ err e))
unfolding decode_op_request encode_op_request
decode_op_request_cases [] = inr (short_message, ground arith)
decode_op_request_cases (v ∷ []) = inr (short_message, ground arith)
decode_op_request_cases (v ∷ op ∷ payload) = elim (Bool-cases (v == op_version)) [
  | inl same ↦
      inl (op, payload, ground (arith, body_slice {E = OpError} v op payload), ground arith)
  | inr other ↦ inr (bad_version, ground arith)
]

-- A response decodes to its body, or to the error of its status.
pub decode-encode_op_response :
    (status : ℕ) (body : Bytes)
    → decode_op_response (encode_op_response status body)
      ≡ (elim (error_for_status status) [ none ↦ ok body | some e ↦ err e ])
unfolding decode_op_response encode_op_response
decode-encode_op_response status body =
    ground (arith, body_slice {E = OpError} op_version status body)
