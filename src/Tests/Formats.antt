-- ===== src/Tests/Formats.antt =====
-- Equal bytes of concrete transactions and blocks.
use dave_coin.Base.{arith, ◌≡◌, refl, [], ◌∷◌, map}
use dave_coin.Block
use dave_coin.Block.{Block}
use dave_coin.Block.Fits.{BlockFits}
use dave_coin.Block.Format.{Block-serialize_injective}
use dave_coin.Crypto.Toy.{Person, toy, toy_laws}
use dave_coin.Tests.{split, split_fits, small_block, small_block_fits}
use dave_coin.Tx
use dave_coin.Tx.{Tx}
use dave_coin.Tx.Fits.{TxFits}
use dave_coin.Tx.Format.{content, Tx-serialize_injective}

-- The transaction with a signature, and the block with another hash.
abbrev marked : Tx Person
marked = record split { sig = 1 ∷ []; hash = 2 ∷ [] }

marked_fits : TxFits marked
marked_fits = record {
  version_fits = omega arith;
  timestamp_fits = omega arith;
  inputs_count = omega arith;
  outputs_count = omega arith;
  inputs_fit = split_fits.inputs_fit;
  outputs_fit = split_fits.outputs_fit;
}

marked_bytes : Tx.serialize split ≡ Tx.serialize marked
unfolding Tx.serialize
marked_bytes = refl

Tx-serialize_injective_example :
    (split.version ≡ marked.version)
    × (split.timestamp ≡ marked.timestamp)
    × (split.origin ≡ marked.origin)
    × (split.inputs ≡ marked.inputs)
    × (split.outputs ≡ marked.outputs)
Tx-serialize_injective_example =
    Tx-serialize_injective toy_laws split marked split_fits marked_fits marked_bytes

abbrev solved_block : Block Person
solved_block = record small_block { hash = 48 ∷ []; solved = 1 }

solved_block_fits : BlockFits solved_block
solved_block_fits = record {
  index_fits = omega arith;
  bit_thresh_fits = omega arith;
  prev_hash_fits = omega arith;
  nonce_fits = omega arith;
  timestamp_fits = omega arith;
  coins_fits = omega arith;
  tx_count = omega arith;
  tx_fit = small_block_fits.tx_fit;
}

solved_bytes : Block.serialize small_block ≡ Block.serialize solved_block
unfolding Block.serialize
solved_bytes = refl

Block-serialize_injective_example :
    (small_block.index ≡ solved_block.index)
    × (small_block.bit_thresh ≡ solved_block.bit_thresh)
    × (small_block.prev_hash ≡ solved_block.prev_hash)
    × (small_block.nonce ≡ solved_block.nonce)
    × (small_block.timestamp ≡ solved_block.timestamp)
    × (small_block.coinbase ≡ solved_block.coinbase)
    × (map content small_block.tx ≡ map content solved_block.tx)
Block-serialize_injective_example =
    Block-serialize_injective toy_laws small_block solved_block small_block_fits solved_block_fits
      solved_bytes
