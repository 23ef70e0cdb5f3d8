-- ===== src/Tests.antt =====
-- Concrete transactions, blocks and nodes, over the toy keys, for the runs in the child modules.
mod Transactions
mod Forgeries
mod Blocks
mod Packets
mod Mining
mod Hub
mod Nodes
mod MainChecks
mod Histories
mod Ledgers
mod Networks
mod Losses
mod Drains
mod Onlines
mod Rounds
mod Formats
mod Start
mod Startups
mod Bundles
use dave_coin.Base.{◌+◌, arith, ℕ, ◌^◌, [], ◌∷◌, ◌++◌, length}
use dave_coin.Bytes.{Bytes}
use dave_coin.Crypto.Toy.{Person, alice, bob, toy}
use dave_coin.Sig.{calculate_sha256}
use dave_coin.Tx
use dave_coin.Tx.{Tx}
use dave_coin.Tx.Input.{TxInput}
use dave_coin.Tx.Output.{TxOutput}
use dave_coin.Tx.Fits.{InputFits, OutputFits, TxFits}
use dave_coin.Block.{Block, Garbage}
use dave_coin.Block.Fits.{BlockFits}

abbrev pub some_input : TxInput
some_input = record { block_hash = 1 ∷ 2 ∷ []; input_hash = 3 ∷ []; index = 5 }

pub some_input_fits : InputFits some_input
some_input_fits = record {
  block_hash_fits = omega arith;
  input_hash_fits = omega arith;
  index_fits = omega arith;
}

abbrev pub to_bob : TxOutput Person
to_bob = record { target = bob; index = 0; coins = 70000 }

pub to_bob_fits : OutputFits to_bob
to_bob_fits = record { index_fits = omega arith; coins_fits = omega arith }

abbrev draft : Tx Person
draft = record {
  version = 0;
  timestamp = 7;
  hash = [];
  origin = alice;
  sig = [];
  inputs = some_input ∷ [];
  outputs = to_bob ∷ [];
}

abbrev pub sent : Tx Person
sent = record draft { hash = calculate_sha256 (Tx.serialize draft); sig = 1 ∷ [] }

pub sent_fits : TxFits sent
sent_fits = record {
  version_fits = omega arith;
  timestamp_fits = omega arith;
  inputs_count = omega arith;
  outputs_count = omega arith;
  inputs_fit = (some_input_fits, tt);
  outputs_fit = (to_bob_fits, tt);
}

-- Two outputs.
abbrev pub split : Tx Person
split = record draft { outputs = to_bob ∷ to_bob ∷ [] }

pub split_fits : TxFits split
split_fits = record {
  version_fits = omega arith;
  timestamp_fits = omega arith;
  inputs_count = omega arith;
  outputs_count = omega arith;
  inputs_fit = (some_input_fits, tt);
  outputs_fit = (to_bob_fits, (to_bob_fits, tt));
}

-- More coins than 32 bits hold.
abbrev pub fortune : TxOutput Person
fortune = record { target = bob; index = 1; coins = 2 ^ 32 + 5 }

abbrev pub rich : Tx Person
rich = record draft { outputs = fortune ∷ [] }

pub rich_fits : TxFits rich
rich_fits = record {
  version_fits = omega arith;
  timestamp_fits = omega arith;
  inputs_count = omega arith;
  outputs_count = omega arith;
  inputs_fit = (some_input_fits, tt);
  outputs_fit = (record { index_fits = omega arith; coins_fits = omega arith }, tt);
}

abbrev pub memory : Garbage
memory = record { solved = 77; coins = 88 }

abbrev pub small_block : Block Person
small_block = record {
  tx = sent ∷ [];
  index = 3;
  solved = 0;
  bit_thresh = 1;
  prev_hash = 9 ∷ 9 ∷ [];
  hash = [];
  timestamp = 1000;
  nonce = 12;
  coinbase = record { coins = 50; target = bob };
}

pub small_block_fits : BlockFits small_block
small_block_fits = record {
  index_fits = omega arith;
  bit_thresh_fits = omega arith;
  prev_hash_fits = omega arith;
  nonce_fits = omega arith;
  timestamp_fits = omega arith;
  coins_fits = omega arith;
  tx_count = omega arith;
  tx_fit = (sent_fits, tt);
}
