-- ===== src/Block.antt =====
-- `Block` of blockchain.hpp and blockchain.cpp: serialization, decoding and hashing.
pub mod Fits
pub mod RoundTrip
pub mod TwoTx
pub mod Short
pub mod Format
use dave_coin.Base.{ℕ, ◌%◌, ◌^◌, List, [], ◌∷◌, Bool, true, map, length, flatten}
use dave_coin.Bytes.{Bytes, to_le, Outcome, Reader, return, ◌>>=◌, load, load_bytes, many, run}
use dave_coin.Crypto.{Crypto}
use dave_coin.Sig.{calculate_sha256}
use dave_coin.Tx
use dave_coin.Tx.{Tx}
use dave_coin.Tx.Output.{parse_key}

pub record TxCoinbase (K : Type 0) : Type 0 where
  pub coins : ℕ
  pub target : K

pub record Block (K : Type 0) : Type 0 where
  pub tx : List (Tx K)
  pub index : ℕ
  pub solved : ℕ
  pub bit_thresh : ℕ
  pub prev_hash : Bytes
  pub hash : Bytes
  pub timestamp : ℕ
  pub nonce : ℕ
  pub coinbase : TxCoinbase K

-- What uninitialised fields of a new block happen to hold.
pub record Garbage : Type 0 where
  pub solved : ℕ
  pub coins : ℕ

module _ ⦃c : Crypto⦄ where
  -- `Block::Block()`, at clock `now`. It leaves `solved` and the coinbase's coins uninitialised.
  unfoldable pub new_block : Garbage → ℕ → Block c.PublicKey
  new_block g now = record {
    tx = [];
    index = 0;
    solved = g.solved;
    bit_thresh = 0;
    prev_hash = [];
    hash = [];
    timestamp = now;
    nonce = 0;
    coinbase = record { coins = g.coins; target = c.default_key };
  }

  unfoldable pub serialize : Block c.PublicKey → Bytes
  serialize b =
      let hash_size = length b.prev_hash % 2 ^ 32 in
      let keysize = length (c.save b.coinbase.target) % 2 ^ 32 in
      let tx_size = length b.tx % 2 ^ 32 in
      flatten (
        to_le 8 b.index
        ∷ to_le 1 b.bit_thresh
        ∷ to_le 4 hash_size
        ∷ b.prev_hash
        ∷ to_le 4 b.nonce
        ∷ to_le 8 b.timestamp
        ∷ to_le 4 keysize
        ∷ c.save b.coinbase.target
        ∷ to_le 8 b.coinbase.coins
        ∷ to_le 4 tx_size
        ∷ flatten (map Tx.serialize b.tx)
        ∷ [])

  -- `Block::Hash()` stores the digest in the block and returns it.
  unfoldable pub hash_block : Block c.PublicKey → Block c.PublicKey
  hash_block b = record b { hash = calculate_sha256 (serialize b) }

  -- `b` is the block that the constructor made. The coinbase key is parsed after all has been read.
  unfoldable pub decode_fields : Block c.PublicKey → Bytes → Reader (Block c.PublicKey)
  unfolding hash_block
  decode_fields b serial = do
    blockindex ← load 8
    bit_thresh ← load 1
    hashlen ← load 4
    prev_hash ← load_bytes hashlen
    nonce ← load 4
    timestamp ← load 8
    coinbase_keysize ← load 4
    coinbase_key ← load_bytes coinbase_keysize
    coinbase_coins ← load 8
    n_tx ← load 4
    transactions ← many (Tx.decode serial) n_tx
    target ← parse_key coinbase_key
    return (
        hash_block (record b {
          tx = transactions;
          index = blockindex;
          bit_thresh = bit_thresh;
          prev_hash = prev_hash;
          timestamp = timestamp;
          nonce = nonce;
          coinbase = record { coins = coinbase_coins; target = target };
        }))

  unfoldable pub decode_block : Garbage → ℕ → Bytes → Outcome (Block c.PublicKey)
  unfolding new_block decode_fields
  decode_block g now serial = run (decode_fields (new_block g now) serial) serial

  -- `Block::IsSolved()` and `Block::Mine()` are not written yet in the source.
  unfoldable pub is_solved : Block c.PublicKey → Bool
  is_solved b = true

  unfoldable pub mine : Block c.PublicKey → Block c.PublicKey
  mine b = b
