-- ===== src/Chain.antt =====
-- `Blockchain` of blockchain.hpp and blockchain.cpp: its fields, and the operations on the chain, which are
-- not written yet in the source.
use dave_coin.Base.{List, Bool, true}
use dave_coin.Block.{Block}
use dave_coin.Crypto.{Crypto}
use dave_coin.Dict.{Dict}
use dave_coin.Tx.{Tx}

module _ ⦃c : Crypto⦄ where
  pub record Mempool : Type 0 where
    pub trans : List (Tx c.PublicKey)

  -- No code shares the blocks that the pointers name.
  pub record Blockchain : Type 0 where
    pub genesis : Block c.PublicKey
    pub blocks_by_hash : Dict (Block c.PublicKey)
    pub mempool : Mempool

  -- `AddBlock`, `AcceptBlock`, `IsValidBlock` and `IsValidChain`.
  unfoldable pub add_block : Block c.PublicKey → Blockchain → Blockchain
  add_block b chain = chain

  unfoldable pub accept_block : Block c.PublicKey → Blockchain → Blockchain
  accept_block b chain = chain

  unfoldable pub is_valid_block : Block c.PublicKey → Block c.PublicKey → Bool
  is_valid_block b prev_block = true

  unfoldable pub is_valid_chain : Blockchain → Bool
  is_valid_chain chain = true
