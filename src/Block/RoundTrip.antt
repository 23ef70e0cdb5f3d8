-- ===== src/Block/RoundTrip.antt =====
-- `Block::DecodeBlock` after `Block::Serialize`.
use native.Mathlib.Nat.{mod-eq_of_lt}
use dave_coin.Base.{
  All, length-map, ℕ, ◌%◌, ◌^◌, ◌≡◌, refl, ap, ◌∙◌, List, [], ◌∷◌, ◌++◌, length, flatten, map,
  append-nil, append_assoc,
}
use dave_coin.Bytes.{Bytes, to_le, Outcome, many, ok, run}
use dave_coin.Bytes.Reads.{
  Runs, Reads, Reads-return, ◌reads⟨◌⟩◌, Reads-load, Runs-map, Reads-once, map_ok, run-append,
}
use dave_coin.Crypto.{Crypto, Laws}
use dave_coin.Sig.{calculate_sha256}
use dave_coin.Tx
use dave_coin.Tx.{Tx}
use dave_coin.Tx.Fits.{TxFits}
use dave_coin.Tx.Fields.{Runs-sized, Reads-parse_key}
use dave_coin.Tx.RoundTrip.{Reads-Readable}
use dave_coin.Block.{Block, Garbage, new_block, serialize, hash_block, decode_fields, decode_block}
use dave_coin.Block.Fits.{BlockFits, ReadableTx}

module _ ⦃c : Crypto⦄ where
  -- A block's bytes with `ys` for those of its transactions.
  unfoldable pub layout : Block c.PublicKey → Bytes → Bytes
  layout b ys =
      let hash_size = length b.prev_hash % 2 ^ 32 in
      let keysize = length (c.save b.coinbase.target) % 2 ^ 32 in
      let tx_size = length b.tx % 2 ^ 32 in
      flatten (
        to_le 8 b.index
        ∷ to_le 1 b.bit_thresh
        ∷ to_le 4 hash_size
        ∷ b.prev_hash
        ∷ to_le 4 b.nonce
        ∷ to_le 8 b.timestamp
        ∷ to_le 4 keysize
        ∷ c.save b.coinbase.target
        ∷ to_le 8 b.coinbase.coins
        ∷ to_le 4 tx_size
        ∷ ys
        ∷ [])

  pub layout-append :
      (b : Block c.PublicKey) (xs ys : Bytes) → layout b (xs ++ ys) ≡ layout b xs ++ ys
  unfolding layout
  layout-append b xs ys = simp (append_assoc, append-nil)

  pub serialize-layout :
      (b : Block c.PublicKey) → serialize b ≡ layout b (flatten (map Tx.serialize b.tx))
  unfolding serialize layout
  serialize-layout b = refl

  -- What a decoder makes of `b`, with the transactions that it read.
  unfoldable pub received : Garbage → Block c.PublicKey → List (Tx c.PublicKey) → Block c.PublicKey
  received g b ts = hash_block (record b { tx = ts; solved = g.solved })

  -- The transaction's hash is that of the whole block's bytes.
  unfoldable pub received_tx : Bytes → Tx c.PublicKey → Tx c.PublicKey
  received_tx serial t = record t { hash = calculate_sha256 serial; sig = [] }

  map-serialize-received_tx :
      (serial : Bytes) (ts : List (Tx c.PublicKey))
      → map Tx.serialize (map (received_tx serial) ts) ≡ map Tx.serialize ts
  unfolding received_tx Tx.serialize
  map-serialize-received_tx serial [] = refl
  map-serialize-received_tx serial (t ∷ ts) =
      ap (◌∷◌ (Tx.serialize t)) (map-serialize-received_tx serial ts)

  -- Neither the hashes nor the signatures nor the solved flag are among the bytes.
  pub serialize-received :
      (n : ℕ) (h : Bytes) (b : Block c.PublicKey) (serial : Bytes)
      → serialize (record b { tx = map (received_tx serial) b.tx; solved = n; hash = h })
        ≡ serialize b
  unfolding serialize
  serialize-received n h b serial =
      rw (length-map b.tx (received_tx serial), map-serialize-received_tx serial b.tx) refl

  same_hash :
      (g : Garbage) (b : Block c.PublicKey)
      → received g b (map (received_tx (serialize b)) b.tx) ≡ record b {
        tx = map (received_tx (serialize b)) b.tx;
        solved = g.solved;
        hash = calculate_sha256 (serialize b);
      }
  unfolding received hash_block
  same_hash g b =
      ap
        (λ bs. record b {
          tx = map (received_tx (serialize b)) b.tx;
          solved = g.solved;
          hash = calculate_sha256 bs;
        })
        (serialize-received g.solved b.hash b (serialize b))

module _ ⦃c : Crypto⦄ (laws : Laws) where
  pub Runs-layout :
      (g : Garbage) (now : ℕ) (serial ys : Bytes) (b : Block c.PublicKey)
      {r : Outcome (List (Tx c.PublicKey))}
      → BlockFits b
      → Runs (many (Tx.decode serial) (length b.tx)) ys r
      → Runs (decode_fields (new_block g now) serial) (layout b ys) (map_ok (received g b) r)
  unfolding decode_fields layout received new_block serialize
  Runs-layout g now serial ys b {r} h txs = rw (mod-eq_of_lt h.tx_count) (
      Reads-load 8 b.index h.index_fits
      reads⟨ _ ⟩ Reads-load 1 b.bit_thresh h.bit_thresh_fits
      reads⟨ _ ⟩
        Runs-sized _ h.prev_hash_fits (
          Reads-load 4 b.nonce h.nonce_fits
          reads⟨ _ ⟩ Reads-load 8 b.timestamp h.timestamp_fits
          reads⟨ _ ⟩
            Runs-sized _ (laws.save_fits b.coinbase.target) (
              Reads-load 8 b.coinbase.coins h.coins_fits
              reads⟨ _ ⟩ Reads-load 4 (length b.tx) h.tx_count
              reads⟨ _ ⟩
                Runs-map r _ (received g b)
                  (λ ts. Reads-parse_key laws b.coinbase.target reads⟨ _ ⟩ Reads-return _) txs)))

  readable_by :
      (serial : Bytes) (ts : List (Tx c.PublicKey))
      → All TxFits ts
      → ReadableTx ts
      → (bs rest : Bytes) × (flatten (map Tx.serialize ts) ≡ bs ++ rest)
        × Reads (many (Tx.decode serial) (length ts)) bs (map (received_tx serial) ts)
  unfolding many received_tx
  readable_by serial [] h small = ([], [], refl, Reads-return [])
  readable_by serial (t ∷ []) h small =
      let (bs, rest, e, reads) = Reads-Readable laws t serial h.0 small in
      (bs, rest, append-nil _ ∙ e, Reads-once reads)
  readable_by serial (t ∷ u ∷ ts) h small = absurd small

  -- A block that fits the format, with no transaction, or with one that has no output or one of
  -- fewer than 2 ^ 32 coins, comes back whole from its own bytes, but for what they do not hold: the
  -- solved flag is whatever the memory held, the transaction has no signature, and both hashes are
  -- that of the block's bytes.
  pub decode_block-serialize :
      (g : Garbage) (now : ℕ) (b : Block c.PublicKey)
      → BlockFits b
      → ReadableTx b.tx
      → decode_block g now (serialize b)
        ≡ ok (record b {
          tx = map (received_tx (serialize b)) b.tx;
          solved = g.solved;
          hash = calculate_sha256 (serialize b);
        })
  unfolding decode_block received
  decode_block-serialize g now b h small =
      let (bs, rest, e, reads) = readable_by (serialize b) b.tx h.tx_fit small in
      let bytes : serialize b ≡ layout b bs ++ rest =
        serialize-layout b ∙ ap (layout b) e ∙ layout-append b bs rest in
      ap (run (decode_fields (new_block g now) (serialize b))) bytes
      ∙ run-append rest (Runs-layout g now (serialize b) bs b h reads)
      ∙ ap ok (same_hash g b)

  -- The check of `test_block` in jc.cpp: the bytes of a block that fits the format, with no
  -- transaction, or with one that has no output or one of fewer than 2 ^ 32 coins, decode to a block
  -- with the same bytes.
  pub serialize-decode_block :
      (g : Garbage) (now : ℕ) (b : Block c.PublicKey)
      → BlockFits b
      → ReadableTx b.tx
      → (b' : Block c.PublicKey) × (decode_block g now (serialize b) ≡ ok b')
        × (serialize b' ≡ serialize b)
  serialize-decode_block g now b h small =
      (_, decode_block-serialize g now b h small, serialize-received _ _ b (serialize b))
