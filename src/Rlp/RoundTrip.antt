-- ===== src/Rlp/RoundTrip.antt =====
-- Values as the encoders of the source write them, and `rlpDecode` of these bytes.
use crypto.Base.{
  ℕ, zero, suc, ◌+◌, ◌*◌, ◌^◌, ◌<◌, ◌≤◌, ◌≡◌, refl, ◌∙◌, arith, if_elim, Bool-cases, inl, inr, ltb,
  List, [], ◌∷◌, ◌++◌, length, length-append, append_assoc,
}
use crypto.Rlp.Encode.{
  Bytes, rlp_encode_bytes, rlp_list_header, rlp_list_enc, rlp_write_int, int_len_from, concat,
  is_single,
}
use crypto.Rlp.Decode.{
  ok, ◌>>=◌, RlpVal, RlpVals, bytes, list, no_items, item, rlp_decode, rlp_items, rlp_fuel,
}
use crypto.Rlp.Head.{rlp_head-encode_bytes, rlp_head-list_header}

unfoldable mutual
  pub emit : RlpVal → Bytes
  emit (bytes b) = rlp_encode_bytes b
  emit (list vs) = rlp_list_enc (emit_items vs)

  pub emit_items : RlpVals → List Bytes
  emit_items no_items = []
  emit_items (item v vs) = emit v ∷ emit_items vs

pub length-rlp_encode_bytes :
    (b : Bytes) → (0 < length (rlp_encode_bytes b)) × (length b ≤ length (rlp_encode_bytes b))
unfolding rlp_encode_bytes
length-rlp_encode_bytes b = elim (Bool-cases (is_single b)) [
  | inl single ↦ rw single (ground arith, omega arith)
  | inr several ↦ rw several (
      if_elim (λ (e : Bytes). (0 < length e) × (length b ≤ length e)) (ltb (length b) 56)
        ((0x80 + length b) ∷ b) _ (omega arith, omega arith)
        (
          omega arith,
          omega (arith, length-append (rlp_write_int (length b) (int_len_from 8 (length b))) b),
        ))
]

length-rlp_list_header : (n : ℕ) → 0 < length (rlp_list_header n)
unfolding rlp_list_header
length-rlp_list_header n = ground arith

pub length-rlp_list_enc :
    (xs : List Bytes)
    → (0 < length (rlp_list_enc xs)) × (length (concat xs) ≤ length (rlp_list_enc xs))
unfolding rlp_list_enc
length-rlp_list_enc xs =
    let p = concat xs in
    let pos = length-rlp_list_header (length p) in
    let size = length-append (rlp_list_header (length p)) p in (omega arith, omega arith)

length-emit : (v : RlpVal) → 0 < length (emit v)
unfolding emit
length-emit (bytes b) = (length-rlp_encode_bytes b).0
length-emit (list vs) = (length-rlp_list_enc (emit_items vs)).0

-- One round of the loop over a payload that is not empty.
rlp_items-round :
    (fuel : ℕ) (buf : Bytes)
    → 0 < length buf
    → rlp_items (suc fuel) buf
      ≡ rlp_decode fuel buf >>= λ r. rlp_items fuel r.1 >>= λ vs. ok (item r.0 vs)
unfolding rlp_items
rlp_items-round fuel [] h = absurd (omega arith)
rlp_items-round fuel (b ∷ bs) h = refl

items_none : (fuel : ℕ) → rlp_items (suc fuel) [] ≡ ok no_items
unfolding rlp_items
items_none fuel = refl

-- What the induction on the fuel has of the values, and of the lists of items.
abbrev ReadsValues : ℕ → Type 0
ReadsValues fuel =
    (v : RlpVal) (rest : Bytes)
    → 0 < fuel
    → 2 * length (emit v) ≤ fuel
    → length (emit v) + 9 < 2 ^ 63
    → rlp_decode fuel (emit v ++ rest) ≡ ok (v, rest)

abbrev ReadsItems : ℕ → Type 0
ReadsItems fuel =
    (vs : RlpVals)
    → 2 * length (concat (emit_items vs)) < fuel
    → length (concat (emit_items vs)) + 9 < 2 ^ 63
    → rlp_items fuel (concat (emit_items vs)) ≡ ok vs

values_step : (fuel : ℕ) → ReadsItems fuel → ReadsValues (suc fuel)
unfolding rlp_decode emit rlp_list_enc
values_step fuel reads (bytes b) rest p h s =
    rw (rlp_head-encode_bytes b rest (omega (arith, length-rlp_encode_bytes b))) refl
values_step fuel reads (list vs) rest p h s =
    let q = concat (emit_items vs) in
    let size = length-append (rlp_list_header (length q)) q in
    let pos = length-rlp_list_header (length q) in
    rw
      (
        append_assoc (rlp_list_header (length q)) q rest,
        rlp_head-list_header q rest (omega arith),
        reads vs (omega arith) (omega arith),
      )
      refl

items_step : (fuel : ℕ) → ReadsValues fuel → ReadsItems fuel → ReadsItems (suc fuel)
unfolding emit_items
items_step fuel values items no_items h s = items_none fuel
items_step fuel values items (item v vs) h s =
    let q = concat (emit_items vs) in
    let size = length-append (emit v) q in
    let pos = length-emit v in
    rlp_items-round fuel (emit v ++ q) (omega arith)
    ∙ rw
        (values v q (omega arith) (omega arith) (omega arith), items vs (omega arith) (omega arith))
        refl

decode_emit : (fuel : ℕ) → ReadsValues fuel × ReadsItems fuel
decode_emit zero = (λ v rest p h s. absurd (omega arith), λ vs h s. absurd (omega arith))
decode_emit (suc fuel) = (
  values_step fuel (decode_emit fuel).1,
  items_step fuel (decode_emit fuel).0 (decode_emit fuel).1,
)

-- A value that the encoders wrote, with any bytes behind it, is read back by `rlpDecode` with just
-- these bytes left, if what they wrote is shorter than 2 ^ 63 - 9.
pub rlp_decode-emit :
    (v : RlpVal) (rest : Bytes)
    → length (emit v) + 9 < 2 ^ 63
    → rlp_decode (rlp_fuel (emit v ++ rest)) (emit v ++ rest) ≡ ok (v, rest)
rlp_decode-emit v rest s =
    (decode_emit (rlp_fuel (emit v ++ rest))).0 v rest (omega arith)
      (omega (arith, length-append (emit v) rest)) s
