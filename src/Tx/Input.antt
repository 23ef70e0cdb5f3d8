-- ===== src/Tx/Input.antt =====
-- `Tx_Input` of tx.hpp and tx.cpp.
use dave_coin.Base.{ℕ, ◌%◌, ◌^◌, [], ◌∷◌, length, flatten}
use dave_coin.Bytes.{Bytes, to_le, Reader, return, ◌>>=◌, load, load_bytes}

pub record TxInput : Type 0 where
  pub block_hash : Bytes
  pub input_hash : Bytes
  pub index : ℕ

unfoldable pub serialize : TxInput → Bytes
serialize i =
    let blocksize = length i.block_hash % 2 ^ 32 in
    let inputsize = length i.input_hash % 2 ^ 32 in
    flatten
      (to_le 4 blocksize ∷ i.block_hash ∷ to_le 4 inputsize ∷ i.input_hash ∷ to_le 4 i.index ∷ [])

unfoldable pub decode : Reader TxInput
decode = do
  blocksize ← load 4
  block_hash ← load_bytes blocksize
  inputsize ← load 4
  input_hash ← load_bytes inputsize
  index ← load 4
  return (record { block_hash = block_hash; input_hash = input_hash; index = index })
