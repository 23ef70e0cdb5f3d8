-- ===== src/Tx/Fits.antt =====
-- The values that the wire format can hold: sizes and integers within their field's width.
use dave_coin.Base.{[], ◌∷◌, List, ◌^◌, ◌<◌, length, All}
use dave_coin.Tx.Input.{TxInput}
use dave_coin.Tx.Output.{TxOutput}
use dave_coin.Tx.{Tx}

pub record InputFits (i : TxInput) : Type 0 where
  pub block_hash_fits : length i.block_hash < 2 ^ 32
  pub input_hash_fits : length i.input_hash < 2 ^ 32
  pub index_fits : i.index < 2 ^ 32

pub record OutputFits {K : Type 0} (o : TxOutput K) : Type 0 where
  pub index_fits : o.index < 2 ^ 32
  pub coins_fits : o.coins < 2 ^ 64

pub record TxFits {K : Type 0} (t : Tx K) : Type 0 where
  pub version_fits : t.version < 2 ^ 32
  pub timestamp_fits : t.timestamp < 2 ^ 32
  pub inputs_count : length t.inputs < 2 ^ 32
  pub outputs_count : length t.outputs < 2 ^ 32
  pub inputs_fit : All InputFits t.inputs
  pub outputs_fit : All OutputFits t.outputs

-- The outputs that `Tx::Decode` gives back: none, or one whose coins fit 32 bits.
abbrev pub Readable : {K : Type 0} → List (TxOutput K) → Type 0
Readable [] = Unit
Readable (o ∷ []) = o.coins < 2 ^ 32
Readable (o ∷ p ∷ os) = ⊥
