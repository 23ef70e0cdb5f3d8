-- ===== src/Tx/Output.antt =====
-- `Tx_Output` of tx.hpp and tx.cpp, and how a decoder reads a public key.
use dave_coin.Base.{ℕ, ◌%◌, ◌^◌, [], ◌∷◌, length, flatten, none, some}
use dave_coin.Bytes.{Bytes, to_le, ok, throws, ber_error, Reader, return, ◌>>=◌, load, load_bytes}
use dave_coin.Crypto.{Crypto}

pub record TxOutput (K : Type 0) : Type 0 where
  pub target : K
  pub index : ℕ
  pub coins : ℕ

module _ ⦃c : Crypto⦄ where
  -- `key.BERDecode(key_source)` on the bytes copied out of the buffer.
  unfoldable pub parse_key : Bytes → Reader c.PublicKey
  parse_key material mem cr = elim (c.ber_decode material) [
    | none ↦ throws ber_error
    | some k ↦ ok (k, cr)
  ]

  unfoldable pub serialize : TxOutput c.PublicKey → Bytes
  serialize o =
      let keysize = length (c.save o.target) % 2 ^ 32 in
      flatten (to_le 4 keysize ∷ c.save o.target ∷ to_le 4 o.index ∷ to_le 8 o.coins ∷ [])

  -- The coins are read from four bytes.
  unfoldable pub decode : Reader (TxOutput c.PublicKey)
  decode = do
    keysize ← load 4
    key_material ← load_bytes keysize
    target ← parse_key key_material
    index ← load 4
    coins ← load 4
    return (record { target = target; index = index; coins = coins })
