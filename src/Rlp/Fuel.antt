-- ===== src/Rlp/Fuel.antt =====
-- How much fuel `rlpDecode` takes.
use crypto.Base.{
  ℕ, zero, suc, ◌+◌, ◌-◌, ◌*◌, ◌^◌, ◌<◌, ◌≤◌, ◌≡◌, arith, Bool, true, false, Bool-cases, inl, inr,
  ◌==◌, ◌&&◌, ◌||◌, ltb, leb, if_elim, [], ◌∷◌, length, length-drop, length-take, take, drop,
  get_or,
}
use crypto.Rlp.Encode.{Bytes}
use crypto.Rlp.Decode.{
  Outcome, ok, fail, panic, out_of_fuel, ◌>>=◌, Head, RlpVal, RlpVals, bytes, list, item,
  rlp_payload, rlp_long, rlp_head, rlp_decode, rlp_items, rlp_read_int, rlp_fuel,
}

-- A head leaves fewer bytes than there were, and so does the payload of a list.
abbrev Shortens : ℕ → Outcome Head → Type 0
Shortens n (ok h) = (length h.rest < n) × (h.is_list ≡ true → length h.payload < n)
Shortens n (fail e) = Unit
Shortens n panic = Unit
Shortens n out_of_fuel = 0 < 0

rlp_payload-Shortens :
    (b : Bool) (buf : Bytes) (start n : ℕ)
    → 0 < start
    → Shortens (length buf) (rlp_payload b buf start n)
unfolding rlp_payload
rlp_payload-Shortens b buf start n pos =
    if_elim (Shortens (length buf)) (leb (2 ^ 63) (start + n)) _ _ tt
      (elim (Bool-cases (ltb (length buf) (start + n))) [
        | inl past ↦ rw past tt
        | inr within ↦ rw within (
          ground (arith, length-drop (start + n) buf),
          λ l. ground (arith, length-take n (drop start buf), length-drop start buf),
        )
      ])

rlp_long-Shortens :
    (b : Bool) (buf : Bytes) (llen : ℕ) → Shortens (length buf) (rlp_long b buf llen)
unfolding rlp_long
rlp_long-Shortens b buf llen =
    if_elim (Shortens (length buf)) ((llen == 0) || ltb (length buf) (1 + llen)) _ _ tt (
      if_elim (Shortens (length buf))
        (leb (2 ^ 63) (rlp_read_int (take llen (drop 1 buf)))
          || ltb (rlp_read_int (take llen (drop 1 buf))) 56)
        _ _ tt
        (rlp_payload-Shortens b buf (1 + llen) (rlp_read_int (take llen (drop 1 buf)))
          (omega arith)))

rlp_head-Shortens : (buf : Bytes) → Shortens (length buf) (rlp_head buf)
unfolding rlp_head
rlp_head-Shortens [] = tt
rlp_head-Shortens (b ∷ bs) =
    let S = Shortens (suc (length bs)) in
    if_elim S (ltb b 0x80) _ _ (omega arith, λ l. absurd (ground arith))
      (if_elim S (ltb b 0xb8) _ _
        (if_elim S ((b - 0x80 == 1) && (ltb 1 (length (b ∷ bs)) && ltb (get_or bs 0 0) 0x80)) _ _ tt
          (rlp_payload-Shortens false (b ∷ bs) 1 (b - 0x80) (omega arith)))
        (if_elim S (ltb b 0xc0) _ _ (rlp_long-Shortens false (b ∷ bs) (b - 0xb7)) (
          if_elim S (ltb b 0xf8) _ _ (rlp_payload-Shortens true (b ∷ bs) 1 (b - 0xc0) (omega arith))
            (rlp_long-Shortens true (b ∷ bs) (b - 0xf7)))))

-- A value takes at least a byte.
abbrev pub Progresses : ℕ → Outcome (RlpVal × Bytes) → Type 0
Progresses n (ok r) = length r.1 < n
Progresses n (fail e) = Unit
Progresses n panic = Unit
Progresses n out_of_fuel = 0 < 0

abbrev Ends : Outcome RlpVals → Type 0
Ends (ok vs) = Unit
Ends (fail e) = Unit
Ends panic = Unit
Ends out_of_fuel = 0 < 0

after_items :
    (n : ℕ) (o : Outcome RlpVals) (rest : Bytes)
    → Ends o
    → length rest < n
    → Progresses n (o >>= λ vs. ok (list vs, rest))
after_items n (ok vs) rest e l = l
after_items n (fail x) rest e l = tt
after_items n panic rest e l = tt
after_items n out_of_fuel rest e l = e

after_head :
    (n fuel : ℕ) (o : Outcome Head)
    → Shortens n o
    → ((p : Bytes) → length p < n → Ends (rlp_items fuel p))
    → Progresses n (
        o >>= λ h. elim h.is_list [
          | false ↦ ok (bytes h.payload, h.rest)
          | true ↦ rlp_items fuel h.payload >>= λ vs. ok (list vs, h.rest)
        ])
after_head n fuel (ok h) s all = elim (Bool-cases h.is_list) [
  | inl e ↦ rw e (after_items n (rlp_items fuel h.payload) h.rest (all h.payload (s.1 e)) s.0)
  | inr e ↦ rw e s.0
]
after_head n fuel (fail e) s all = tt
after_head n fuel panic s all = tt
after_head n fuel out_of_fuel s all = s

item_then : (v : RlpVal) (o : Outcome RlpVals) → Ends o → Ends (o >>= λ vs. ok (item v vs))
item_then v (ok vs) e = tt
item_then v (fail x) e = tt
item_then v panic e = tt
item_then v out_of_fuel e = e

after_value :
    (n fuel : ℕ) (o : Outcome (RlpVal × Bytes))
    → Progresses n o
    → ((p : Bytes) → length p < n → Ends (rlp_items fuel p))
    → Ends (o >>= λ r. rlp_items fuel r.1 >>= λ vs. ok (item r.0 vs))
after_value n fuel (ok r) s all = item_then r.0 (rlp_items fuel r.1) (all r.1 s)
after_value n fuel (fail e) s all = tt
after_value n fuel panic s all = tt
after_value n fuel out_of_fuel s all = s

both_end :
    (fuel : ℕ)
    → ((buf : Bytes)
        → 0 < fuel
        → 2 * length buf ≤ fuel
        → Progresses (length buf) (rlp_decode fuel buf))
      × ((buf : Bytes) → 2 * length buf < fuel → Ends (rlp_items fuel buf))
unfolding rlp_decode rlp_items
both_end zero = (λ buf p h. absurd (omega arith), λ buf h. absurd (omega arith))
both_end (suc fuel) = (
  λ buf p h.
      after_head (length buf) fuel (rlp_head buf) (rlp_head-Shortens buf)
        (λ q l. (both_end fuel).1 q (omega arith)),
  λ buf h.
      elim buf as (λ buf. 2 * length buf < suc fuel → Ends (rlp_items (suc fuel) buf)) [
        | [] ↦ λ _. tt
        | b ∷ bs ↦ λ within.
            after_value (suc (length bs)) fuel (rlp_decode fuel (b ∷ bs))
              ((both_end fuel).0 (b ∷ bs) (omega arith) (omega arith))
              (λ q l. (both_end fuel).1 q (omega arith))
      ]
        h,
)

-- On any bytes, `rlpDecode` ends within the fuel that `rlp_fuel` gives: it fails, it panics, or it
-- returns a value and a rest that is shorter than its input.
pub rlp_decode-Progresses : (buf : Bytes) → Progresses (length buf) (rlp_decode (rlp_fuel buf) buf)
rlp_decode-Progresses buf = (both_end (rlp_fuel buf)).0 buf (omega arith) (omega arith)
