-- ===== src/Block/Short.antt =====
-- `Block::DecodeBlock` on fewer bytes than a block has at least.
use dave_coin.Base.{ℕ, ◌<◌, ◌≡◌, ap, [], ◌∷◌, ◌++◌, length, length-append, arith}
use dave_coin.Bytes.{Bytes, fault, run, result, c_str}
use dave_coin.Bytes.Short.{
  ShortFaults, ShortFaults-zero, ShortFaults-bind, Takes-load, Takes-load_bytes,
}
use dave_coin.Block.{Block, Garbage, new_block, decode_fields, decode_block}
use dave_coin.Crypto.{Crypto}

module _ ⦃c : Crypto⦄ where
  decode_fields-ShortFaults :
      (b : Block c.PublicKey) (serial : Bytes) → ShortFaults 41 (decode_fields b serial)
  unfolding decode_fields
  decode_fields-ShortFaults b serial = ShortFaults-bind (Takes-load 8) λ blockindex.
      ShortFaults-bind (Takes-load 1) λ bit_thresh. ShortFaults-bind (Takes-load 4) λ hashlen.
        ShortFaults-bind (Takes-load_bytes hashlen) λ prev_hash.
          ShortFaults-bind (Takes-load 4) λ nonce. ShortFaults-bind (Takes-load 8) λ timestamp.
            ShortFaults-bind (Takes-load 4) λ coinbase_keysize.
              ShortFaults-bind (Takes-load_bytes coinbase_keysize) λ coinbase_key.
                ShortFaults-bind (Takes-load 8)
                  λ coinbase_coins. ShortFaults-bind (Takes-load 4) λ n_tx. ShortFaults-zero _

  -- On fewer than 40 bytes, whatever they are, `DecodeBlock` reads outside them.
  pub decode_block_short :
      (g : Garbage) (now : ℕ) (serial : Bytes)
      → length serial < 40
      → decode_block g now serial ≡ fault
  unfolding decode_block run c_str
  decode_block_short g now serial h = ap result (
      (decode_fields-ShortFaults (new_block g now) serial).faults (serial ++ 0 ∷ []) 0 (omega arith)
        (omega (arith, length-append serial (0 ∷ []))))
