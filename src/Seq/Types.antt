-- ===== src/Seq/Types.antt =====
-- The types that pkg/c2seq shares: errors as values, and pkg/c2block/types.go's `Transaction`.
-- `Address` and `Hash` are the lists of their bytes, and a `*Address` that may be nil an Option.
use crypto.Base.{
  ℕ, Bool, true, false, ◌&&◌, ◌==◌, List, [], ◌∷◌, Option, ◌≡◌, ◌⊎◌, inl, inr, refl, arith,
}
use crypto.Evm256.Uint256.{Uint256}

pub data Error : Type 0 where
  gas_overflow gas_underflow submission_fee deposit ticket_missing ticket_state : Error
  nil_tx duplicate underpriced express_window express_full : Error

-- A result and an error, of which Go returns both.
pub data Result {ℓ} (A : Type ℓ) : Type ℓ where
  ok : A → Result A
  fail : Error → Result A

infixl 5 ◌>>=◌
abbrev pub ◌>>=◌ {ℓ κ} : {A : Type ℓ} {B : Type κ} → Result A → (A → Result B) → Result B
ok a >>= k = k a
fail e >>= k = fail e

pub Result-cases {ℓ} :
    {A : Type ℓ} (r : Result A) → ((a : A) × (r ≡ ok a)) ⊎ ((e : Error) × (r ≡ fail e))
Result-cases (ok a) = inl (a, refl)
Result-cases (fail e) = inr (e, refl)

abbrev pub Bytes : Type 0
Bytes = List ℕ

-- `==` on arrays of bytes.
unfoldable pub bytes_eq : Bytes → Bytes → Bool
bytes_eq [] [] = true
bytes_eq [] (y ∷ ys) = false
bytes_eq (x ∷ xs) [] = false
bytes_eq (x ∷ xs) (y ∷ ys) = (x == y) && bytes_eq xs ys

pub bytes_eq_refl : (xs : Bytes) → bytes_eq xs xs ≡ true
unfolding bytes_eq
bytes_eq_refl [] = refl
bytes_eq_refl (x ∷ xs) = rw (bytes_eq_refl xs) (ground arith)

pub bytes_eq→≡ : (xs ys : Bytes) → bytes_eq xs ys ≡ true → xs ≡ ys
unfolding bytes_eq
bytes_eq→≡ [] [] h = refl
bytes_eq→≡ [] (y ∷ ys) h = absurd (ground arith)
bytes_eq→≡ (x ∷ xs) [] h = absurd (ground arith)
bytes_eq→≡ (x ∷ xs) (y ∷ ys) h =
    let heads : x ≡ y = ground arith in
    let tails : bytes_eq xs ys ≡ true = ground arith in rw (heads, bytes_eq→≡ xs ys tails) refl

pub record AccessTuple : Type 0 where
  pub addr : Bytes
  pub slots : List Bytes

pub record Transaction : Type 0 where
  pub kind : ℕ
  pub chain_id : Uint256
  pub nonce : ℕ
  pub gas_price : Uint256
  pub gas_tip_cap : Uint256
  pub gas_fee_cap : Uint256
  pub gas : ℕ
  pub to : Option Bytes
  pub tx_value : Uint256
  pub payload : Bytes
  pub access_list : List AccessTuple
  pub blob_fee_cap : Uint256
  pub blob_hashes : List Bytes
  pub v : Uint256
  pub r : Uint256
  pub s : Uint256
  pub from : Bytes
  pub hash : Bytes
