-- ===== src/Tests/Blocks.antt =====
-- Runs of the block code on concrete blocks.
use dave_coin.Base.{◌≡◌, refl, [], ◌∷◌, ◌+◌, ◌<◌, length, map, arith}
use dave_coin.Bytes.{to_le, ok, fault}
use dave_coin.Crypto.Toy.{Person, toy, toy_laws}
use dave_coin.Sig.{calculate_sha256}
use dave_coin.Tx
use dave_coin.Tx.Input
use dave_coin.Tx.Output
use dave_coin.Tx.{Tx}
use dave_coin.Block.{Block, serialize, decode_block}
use dave_coin.Block.Fits.{BlockFits}
use dave_coin.Block.RoundTrip.{decode_block-serialize, received_tx}
use dave_coin.Block.TwoTx.{decode_block_two}
use dave_coin.Tests.{TxFits, sent, sent_fits, to_bob, memory, small_block, small_block_fits}

decode_block-serialize_example :
    decode_block memory 1234 (serialize small_block)
    ≡ ok (record small_block {
      tx = map (received_tx (serialize small_block)) small_block.tx;
      solved = 77;
      hash = calculate_sha256 (serialize small_block);
    })
decode_block-serialize_example =
    decode_block-serialize toy_laws memory 1234 small_block small_block_fits (omega arith)

-- A transaction of a recent time.
abbrev late : Tx Person
late = record sent { timestamp = 1700000000 }

abbrev pair : Block Person
pair = record small_block { tx = sent ∷ late ∷ [] }

late_fits : TxFits late
late_fits = record {
  version_fits = omega arith;
  timestamp_fits = omega arith;
  inputs_count = omega arith;
  outputs_count = omega arith;
  inputs_fit = sent_fits.inputs_fit;
  outputs_fit = sent_fits.outputs_fit;
}

pair_fits : BlockFits pair
pair_fits = record {
  index_fits = omega arith;
  bit_thresh_fits = omega arith;
  prev_hash_fits = omega arith;
  nonce_fits = omega arith;
  timestamp_fits = omega arith;
  coins_fits = omega arith;
  tx_count = omega arith;
  tx_fit = (sent_fits, (late_fits, tt));
}

pair_size : length (serialize pair) + 1 < 1700000000
unfolding serialize to_le Tx.serialize Input.serialize Output.serialize
pair_size = omega arith

decode_block_two_example : decode_block memory 1234 (serialize pair) ≡ fault
decode_block_two_example =
    decode_block_two toy_laws memory 1234 pair sent late [] to_bob pair_fits refl refl (omega arith)
      pair_size
