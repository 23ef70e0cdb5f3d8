-- ===== src/Block/Format.antt =====
-- The byte format of a block by itself: a reader that follows `Block::Serialize`, for any number of
-- transactions. By it different blocks have different bytes, those that are hashed.
use native.Mathlib.Nat.{mod-eq_of_lt}
use dave_coin.Base.{ℕ, ◌≡◌, ap, List, length, map}
use dave_coin.Bytes.{Bytes, Reader, return, ◌>>=◌, load, load_bytes, many}
use dave_coin.Bytes.Reads.{Reads, Reads-return, ◌reads⟨◌⟩◌, Reads-load}
use dave_coin.Bytes.Formats.{Reads-injective, Reads-each}
use dave_coin.Crypto.{Crypto, Laws}
use dave_coin.Block.{Block, TxCoinbase, serialize}
use dave_coin.Block.Fits.{BlockFits}
use dave_coin.Tx.{Tx}
use dave_coin.Tx.Fits.{TxFits}
use dave_coin.Tx.Fields.{Runs-key, Runs-sized}
use dave_coin.Tx.Format.{read_tx, read_tx-serialize, content}
use dave_coin.Tx.Output.{parse_key}

-- What the bytes of a block hold.
pub record Content (K : Type 0) : Type 0 where
  pub index : ℕ
  pub bit_thresh : ℕ
  pub prev_hash : Bytes
  pub nonce : ℕ
  pub timestamp : ℕ
  pub coinbase : TxCoinbase K
  pub tx : List (Tx K)

module _ ⦃c : Crypto⦄ where
  read_block : Reader (Content c.PublicKey)
  read_block = do
    index ← load 8
    bit_thresh ← load 1
    hashlen ← load 4
    prev_hash ← load_bytes hashlen
    nonce ← load 4
    timestamp ← load 8
    keysize ← load 4
    key_material ← load_bytes keysize
    target ← parse_key key_material
    coins ← load 8
    n_tx ← load 4
    tx ← many read_tx n_tx
    return (record {
      index = index;
      bit_thresh = bit_thresh;
      prev_hash = prev_hash;
      nonce = nonce;
      timestamp = timestamp;
      coinbase = record { coins = coins; target = target };
      tx = tx;
    })

  content_of : Block c.PublicKey → Content c.PublicKey
  content_of b = record {
    index = b.index;
    bit_thresh = b.bit_thresh;
    prev_hash = b.prev_hash;
    nonce = b.nonce;
    timestamp = b.timestamp;
    coinbase = b.coinbase;
    tx = map content b.tx;
  }

module _ ⦃c : Crypto⦄ (laws : Laws) where
  read_block-serialize :
      (b : Block c.PublicKey) → BlockFits b → Reads read_block (serialize b) (content_of b)
  unfolding read_block serialize content_of
  read_block-serialize b h = rw (mod-eq_of_lt h.tx_count) (
      Reads-load 8 b.index h.index_fits
      reads⟨ _ ⟩ Reads-load 1 b.bit_thresh h.bit_thresh_fits
      reads⟨ _ ⟩
        Runs-sized _ h.prev_hash_fits (
          Reads-load 4 b.nonce h.nonce_fits
          reads⟨ _ ⟩ Reads-load 8 b.timestamp h.timestamp_fits
          reads⟨ _ ⟩
            Runs-key laws b.coinbase.target _ (
              Reads-load 8 b.coinbase.coins h.coins_fits
              reads⟨ _ ⟩ Reads-load 4 (length b.tx) h.tx_count
              reads⟨ _ ⟩ Reads-each TxFits _ _ content (read_tx-serialize laws) b.tx h.tx_fit
              reads⟨ _ ⟩ Reads-return _)))

  -- Blocks that fit the format and have the same bytes, with whatever number of transactions, are equal in
  -- all but what the bytes do not hold: the hash and the solved flag, and the hashes and signatures of the
  -- transactions.
  pub Block-serialize_injective :
      (b d : Block c.PublicKey)
      → BlockFits b
      → BlockFits d
      → serialize b ≡ serialize d
      → (b.index ≡ d.index)
        × (b.bit_thresh ≡ d.bit_thresh)
        × (b.prev_hash ≡ d.prev_hash)
        × (b.nonce ≡ d.nonce)
        × (b.timestamp ≡ d.timestamp)
        × (b.coinbase ≡ d.coinbase)
        × (map content b.tx ≡ map content d.tx)
  unfolding content_of
  Block-serialize_injective b d hb hd e =
      let same : content_of b ≡ content_of d =
        Reads-injective read_block (read_block-serialize b hb) (read_block-serialize d hd) e in
      (
        ap (λ (x : Content c.PublicKey). x.index) same,
        ap (λ (x : Content c.PublicKey). x.bit_thresh) same,
        ap (λ (x : Content c.PublicKey). x.prev_hash) same,
        ap (λ (x : Content c.PublicKey). x.nonce) same,
        ap (λ (x : Content c.PublicKey). x.timestamp) same,
        ap (λ (x : Content c.PublicKey). x.coinbase) same,
        ap (λ (x : Content c.PublicKey). x.tx) same,
      )
