-- ===== src/Base64/Tests.antt =====
-- Runs of the codec from base64/test_base64.cpp, and the theorems at concrete inputs.
use lambda.Base.{
  ◌+◌, ◌*◌, ◌/◌, ◌%◌, ◌≤◌, ◌≡◌, ◌⊎◌, ◌↔◌, refl, arith, true, Bytes, codes, length, ok, err, Error,
}
use lambda.Base64.{
  encode, decode, valid, dec_b1, dec_b2, dec_b3, enc_b1, enc_b2, enc_b3, enc_b4, dec_at, enc_at,
  decode_blocks, padding_length,
}
use lambda.Base64.Shape.{encode_shape, decode-encode, decode-fault_iff}

abbrev message : Bytes
message = codes "this is a test string."

encode-message : encode message ≡ codes "dGhpcyBpcyBhIHRlc3Qgc3RyaW5nLg=="
unfolding encode enc_b1 enc_b2 enc_b3 enc_b4 enc_at
encode-message = refl

decode-message : decode (codes "dGhpcyBpcyBhIHRlc3Qgc3RyaW5nLg==") ≡ ok message
unfolding decode decode_blocks dec_b1 dec_b2 dec_b3 dec_at padding_length
decode-message = refl

encode_shape_example :
    (length (encode message) ≡ (length message + 2) / 3 * 4) × (valid (encode message) ≡ true)
encode_shape_example = encode_shape message (omega arith)

decode-encode_example : decode (encode message) ≡ ok message
decode-encode_example = decode-encode message (omega arith) (ground arith)

decode-fault_iff_example :
    (decode (codes "dGhpcw") ≡ err Error.fault)
    ↔ ((length (codes "dGhpcw") ≡ 0) ⊎ (2 ≤ length (codes "dGhpcw") % 4))
decode-fault_iff_example = decode-fault_iff (codes "dGhpcw")
