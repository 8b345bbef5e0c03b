-- ===== src/Trie/Settled.antt =====
-- The encoders of the trie as outcomes that are bytes or a panic.
use crypto.Base.{ℕ, zero, suc, ◌<◌, ◌≡◌, refl, arith, true, false, ltb, if_elim, length}
use crypto.Rlp.Encode.{Bytes}
use crypto.Rlp.Decode.{Outcome, ok, fail, panic, out_of_fuel, ◌>>=◌}
use crypto.Trie.Node.{MptNode, nil, leaf, ext, branch}
use crypto.Trie.Encode.{
  bounded, mpt_compact_encode, mpt_encode_leaf, mpt_encode_extension, Place, mpt_encode_branch,
  encode_place, encode_places, mpt_encode,
}

-- The encoders return bytes or panic.
abbrev pub Settled {ℓ} : {A : Type ℓ} → Outcome A → Type 0
Settled (ok a) = Unit
Settled panic = Unit
Settled (fail e) = 0 < 0
Settled out_of_fuel = 0 < 0

-- They do not return.
abbrev pub Fails {ℓ} : {A : Type ℓ} → Outcome A → Type 0
Fails (ok a) = 0 < 0
Fails panic = Unit
Fails (fail e) = Unit
Fails out_of_fuel = Unit

pub panics {ℓ} : {A : Type ℓ} (o : Outcome A) → Settled o → Fails o → o ≡ panic
panics (ok a) s f = absurd (omega arith)
panics panic s f = refl
panics (fail e) s f = absurd (omega arith)
panics out_of_fuel s f = absurd (omega arith)

pub then-Settled {ℓ κ} :
    {A : Type ℓ} {B : Type κ} (o : Outcome A) (f : A → Outcome B)
    → Settled o
    → ((a : A) → Settled (f a))
    → Settled (o >>= f)
then-Settled (ok a) f s t = t a
then-Settled panic f s t = tt
then-Settled (fail e) f s t = s
then-Settled out_of_fuel f s t = s

pub first-Fails {ℓ κ} :
    {A : Type ℓ} {B : Type κ} (o : Outcome A) (f : A → Outcome B) → Fails o → Fails (o >>= f)
first-Fails (ok a) f h = absurd (omega arith)
first-Fails panic f h = tt
first-Fails (fail e) f h = tt
first-Fails out_of_fuel f h = tt

pub then-Fails {ℓ κ} :
    {A : Type ℓ} {B : Type κ} (o : Outcome A) (f : A → Outcome B)
    → ((a : A) → Fails (f a))
    → Fails (o >>= f)
then-Fails (ok a) f h = h a
then-Fails panic f h = tt
then-Fails (fail e) f h = tt
then-Fails out_of_fuel f h = tt

bounded-Settled : (cap : ℕ) (bs : Bytes) → Settled (bounded cap bs)
unfolding bounded
bounded-Settled cap bs = if_elim Settled (ltb cap (length bs)) _ _ tt tt

pub bounded-Fails : (cap : ℕ) (bs : Bytes) → cap < length bs → Fails (bounded cap bs)
unfolding bounded
bounded-Fails cap bs h = let over : ltb cap (length bs) ≡ true = ground arith in rw over tt

leaf-Settled : (ns value : Bytes) → Settled (mpt_encode_leaf ns value)
unfolding mpt_encode_leaf
leaf-Settled ns value =
    then-Settled (bounded 256 (mpt_compact_encode ns true)) _
      (bounded-Settled 256 (mpt_compact_encode ns true)) (λ c. tt)

extension-Settled : (ns child : Bytes) → Settled (mpt_encode_extension ns child)
unfolding mpt_encode_extension
extension-Settled ns child =
    then-Settled (bounded 256 (mpt_compact_encode ns false)) _
      (bounded-Settled 256 (mpt_compact_encode ns false)) (λ c. tt)

place-Settled : (n : MptNode) (o : Outcome Bytes) → Settled o → Settled (encode_place n o)
unfolding encode_place
place-Settled nil o s = tt
place-Settled (leaf ns value) o s = then-Settled o _ s (λ b. tt)
place-Settled (ext ns child) o s = then-Settled o _ s (λ b. tt)
place-Settled (branch children value) o s = then-Settled o _ s (λ b. tt)

places-Settled :
    (place : ℕ → Outcome Place) (i left : ℕ)
    → ((j : ℕ) → Settled (place j))
    → Settled (encode_places place i left)
unfolding encode_places
places-Settled place i zero h = tt
places-Settled place i (suc left) h = then-Settled (place i) _ (h i) (λ c.
    then-Settled (encode_places place (suc i) left) _ (places-Settled place (suc i) left h)
      (λ cs. tt))

pub mpt_encode-Settled : (n : MptNode) → Settled (mpt_encode n)
unfolding mpt_encode
mpt_encode-Settled nil = tt
mpt_encode-Settled (leaf ns value) =
    then-Settled (mpt_encode_leaf ns value) _ (leaf-Settled ns value) (λ b. bounded-Settled 2048 b)
mpt_encode-Settled (ext ns child) =
    then-Settled (mpt_encode child) _ (mpt_encode-Settled child) (λ c.
      then-Settled (mpt_encode_extension ns c) _ (extension-Settled ns c)
        (λ b. bounded-Settled 2048 b))
mpt_encode-Settled (branch children value) =
    then-Settled (encode_places (λ i. encode_place (children i) (mpt_encode (children i))) 0 16) _
      (places-Settled _ 0 16 (λ i.
        place-Settled (children i) (mpt_encode (children i)) (mpt_encode-Settled (children i))))
      (λ cs. bounded-Settled 2048 (mpt_encode_branch cs value))
