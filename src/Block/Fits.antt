-- ===== src/Block/Fits.antt =====
-- The blocks that the wire format can hold, and those that come back from it.
use dave_coin.Base.{List, [], ◌∷◌, ◌^◌, ◌<◌, length, All}
use dave_coin.Tx.{Tx}
use dave_coin.Tx.Fits.{TxFits, Readable}
use dave_coin.Block.{Block}

pub record BlockFits {K : Type 0} (b : Block K) : Type 0 where
  pub index_fits : b.index < 2 ^ 64
  pub bit_thresh_fits : b.bit_thresh < 2 ^ 8
  pub prev_hash_fits : length b.prev_hash < 2 ^ 32
  pub nonce_fits : b.nonce < 2 ^ 32
  pub timestamp_fits : b.timestamp < 2 ^ 64
  pub coins_fits : b.coinbase.coins < 2 ^ 64
  pub tx_count : length b.tx < 2 ^ 32
  pub tx_fit : All TxFits b.tx

-- No transaction, or one that is read back itself.
abbrev pub ReadableTx : {K : Type 0} → List (Tx K) → Type 0
ReadableTx [] = Unit
ReadableTx (t ∷ []) = Readable t.outputs
ReadableTx (t ∷ u ∷ ts) = ⊥
