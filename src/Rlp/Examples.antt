-- ===== src/Rlp/Examples.antt =====
-- Runs of the decoder, and the theorems about it at concrete inputs.
use crypto.Base.{◌≡◌, refl, arith, true, [], ◌∷◌, ◌++◌, ◌<◌, ◌+◌, ◌^◌, length, replicate}
use crypto.Rlp.Encode.{Bytes, rlp_encode_bytes, rlp_list_enc, rlp_list_header}
use crypto.Rlp.Decode.{
  ok, fail, panic, invalid_rlp, RlpVal, bytes, list, no_items, item, rlp_decode, rlp_fuel,
  rlp_items, rlp_head, rlp_payload, rlp_long, read_int_from,
}
use crypto.Rlp.RoundTrip.{emit, emit_items, rlp_decode-emit}
use crypto.Rlp.Fuel.{Progresses, rlp_decode-Progresses}
use crypto.Rlp.Lengths.{rlp_decode-overflow}

-- "cat" and "dog" in a list.
abbrev cat_dog : RlpVal
cat_dog =
    list (item (bytes (0x63 ∷ 0x61 ∷ 0x74 ∷ [])) (item (bytes (0x64 ∷ 0x6f ∷ 0x67 ∷ [])) no_items))

abbrev cat_dog_bytes : Bytes
cat_dog_bytes = 0xc8 ∷ 0x83 ∷ 0x63 ∷ 0x61 ∷ 0x74 ∷ 0x83 ∷ 0x64 ∷ 0x6f ∷ 0x67 ∷ []

emit_run : emit cat_dog ≡ cat_dog_bytes
unfolding emit emit_items rlp_encode_bytes rlp_list_enc rlp_list_header
emit_run = refl

decode_run : rlp_decode 20 cat_dog_bytes ≡ ok (cat_dog, [])
unfolding rlp_decode rlp_items rlp_head rlp_payload
decode_run = refl

-- A single byte below 0x80 is its own encoding, and no other is taken.
not_minimal : rlp_decode 20 (0x81 ∷ 0x05 ∷ []) ≡ fail invalid_rlp
unfolding rlp_decode rlp_head
not_minimal = refl

cat_dog_short : length (emit cat_dog) + 9 < 2 ^ 63
unfolding emit emit_items rlp_encode_bytes rlp_list_enc rlp_list_header
cat_dog_short = omega arith

rlp_decode-emit_example :
    rlp_decode (rlp_fuel (emit cat_dog ++ (1 ∷ []))) (emit cat_dog ++ (1 ∷ []))
    ≡ ok (cat_dog, 1 ∷ [])
rlp_decode-emit_example = rlp_decode-emit cat_dog (1 ∷ []) cat_dog_short

rlp_decode-Progresses_example : Progresses 9 (rlp_decode (rlp_fuel cat_dog_bytes) cat_dog_bytes)
rlp_decode-Progresses_example = rlp_decode-Progresses cat_dog_bytes

abbrev huge : Bytes
huge = 0x7f ∷ replicate 7 0xff

rlp_decode-overflow_example : rlp_decode 1 (0xff ∷ (huge ++ [])) ≡ panic
rlp_decode-overflow_example =
    rlp_decode-overflow 0 true huge [] (omega arith) refl (omega arith) (omega arith)

-- A length of 60 with a zero byte in front of it is taken for a length of 60.
leading_zero :
    rlp_decode 200 (0xf9 ∷ 0 ∷ 60 ∷ replicate 60 1) ≡ rlp_decode 200 (0xf8 ∷ 60 ∷ replicate 60 1)
unfolding rlp_decode rlp_items rlp_head rlp_long rlp_payload read_int_from
leading_zero = refl
