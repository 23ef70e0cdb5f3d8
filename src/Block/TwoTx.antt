-- ===== src/Block/TwoTx.antt =====
-- `Block::DecodeBlock` on a block of several transactions: the four bytes that `Tx_Output::Decode` leaves
-- behind shift the second transaction.
use native.Mathlib.Nat.{mod-eq_of_lt}
use dave_coin.Base.{
  All, subst, ℕ, suc, ◌+◌, ◌%◌, ◌/◌, ◌^◌, ◌<◌, ◌≡◌, sym, ap, ◌∙◌, List, [], ◌∷◌, ◌++◌, arith,
  length, flatten, map, append-nil, append_assoc,
}
use dave_coin.Bytes.{Bytes, to_le, Reader, ◌>>=◌, load, load_bytes, many, fault, run}
use dave_coin.Bytes.Reads.{
  Faults, ◌faults⟨◌⟩◌, Faults-head, Faults-append, Faults-load_bytes, Faults-run, Reads-load,
  Reads-load_bytes,
}
use dave_coin.Crypto.{Crypto, Laws}
use dave_coin.Tx
use dave_coin.Tx.{Tx}
use dave_coin.Tx.Output.{TxOutput}
use dave_coin.Tx.Fits.{TxFits}
use dave_coin.Tx.RoundTrip.{decode_one, serialize_one}
use dave_coin.Block.{Block, Garbage, new_block, serialize, decode_fields, decode_block}
use dave_coin.Block.Fits.{BlockFits}
use dave_coin.Block.RoundTrip.{layout, serialize-layout}

Faults-sized {ℓ} :
    {A : Type ℓ} {limit : ℕ} {bs ys : Bytes} (f : Bytes → Reader A)
    → length bs < 2 ^ 32
    → Faults limit (f bs) ys
    → Faults limit (load 4 >>= λ n. load_bytes n >>= f) (to_le 4 (length bs % 2 ^ 32) ++ (bs ++ ys))
Faults-sized {bs = bs} f h k =
    rw (mod-eq_of_lt h) (Reads-load 4 (length bs) h faults⟨ _ ⟩ Reads-load_bytes bs faults⟨ _ ⟩ k)

module _ ⦃c : Crypto⦄ where
  -- Read four bytes too early, the timestamp is taken for the size of the key.
  shifted_tx :
      (serial : Bytes) (limit : ℕ) (u : Tx c.PublicKey)
      → TxFits u
      → limit < u.timestamp
      → Faults limit (Tx.decode serial) (to_le 4 0 ++ Tx.serialize u)
  unfolding Tx.decode Tx.serialize
  shifted_tx serial limit u h long =
      Reads-load 4 0 (omega arith)
      faults⟨ _ ⟩ Reads-load 4 u.version h.version_fits
      faults⟨ _ ⟩ Reads-load 4 u.timestamp h.timestamp_fits
      faults⟨ _ ⟩
        Faults-append {xs = []} _ (Faults-head _ (Faults-load_bytes u.timestamp limit long))

module _ ⦃c : Crypto⦄ (laws : Laws) where
  Faults-layout :
      (g : Garbage) (now limit : ℕ) (serial ys : Bytes) (b : Block c.PublicKey)
      → BlockFits b
      → Faults limit (many (Tx.decode serial) (length b.tx)) ys
      → Faults limit (decode_fields (new_block g now) serial) (layout b ys)
  unfolding decode_fields layout new_block
  Faults-layout g now limit serial ys b h txs = rw (mod-eq_of_lt h.tx_count) (
      Reads-load 8 b.index h.index_fits
      faults⟨ _ ⟩ Reads-load 1 b.bit_thresh h.bit_thresh_fits
      faults⟨ _ ⟩
        Faults-sized _ h.prev_hash_fits (
          Reads-load 4 b.nonce h.nonce_fits
          faults⟨ _ ⟩ Reads-load 8 b.timestamp h.timestamp_fits
          faults⟨ _ ⟩
            Faults-sized _ (laws.save_fits b.coinbase.target) (
              Reads-load 8 b.coinbase.coins h.coins_fits
              faults⟨ _ ⟩ Reads-load 4 (length b.tx) h.tx_count
              faults⟨ _ ⟩ Faults-append [] (Faults-head _ txs))))

  second_tx :
      (serial : Bytes) (limit : ℕ) (t u : Tx c.PublicKey) (o : TxOutput c.PublicKey) (n : ℕ)
      (rest : Bytes)
      → TxFits t
      → TxFits u
      → t.outputs ≡ o ∷ []
      → o.coins < 2 ^ 32
      → limit < u.timestamp
      → Faults limit
          (many (Tx.decode serial) (suc (suc n)))
          (Tx.serialize t ++ (Tx.serialize u ++ rest))
  unfolding many
  second_tx serial limit t u o n rest ht hu e small long =
      let zero_half : o.coins / 2 ^ 32 ≡ 0 = omega arith in
      rw
        (
          ← serialize_one t o e,
          zero_half,
          append_assoc,
          ← append_assoc (to_le 4 0) (Tx.serialize u) rest,
        )
        (decode_one laws t o serial ht e
          faults⟨ _ ⟩
            Faults-head _ (Faults-head _ (Faults-append rest (shifted_tx serial limit u hu long))))

  -- A block that fits the format, whose first transaction has one output of fewer than 2 ^ 32 coins,
  -- and whose second has a timestamp greater than the size of the block's bytes by two or more,
  -- cannot be decoded from its own bytes: the decoder reads past the end of the buffer.
  pub decode_block_two :
      (g : Garbage) (now : ℕ) (b : Block c.PublicKey) (t u : Tx c.PublicKey)
      (us : List (Tx c.PublicKey)) (o : TxOutput c.PublicKey)
      → BlockFits b
      → b.tx ≡ t ∷ u ∷ us
      → t.outputs ≡ o ∷ []
      → o.coins < 2 ^ 32
      → length (serialize b) + 1 < u.timestamp
      → decode_block g now (serialize b) ≡ fault
  unfolding decode_block
  decode_block_two g now b t u us o h e e' small long =
      ap (run (decode_fields (new_block g now) (serialize b))) bytes
      ∙ Faults-run [] (
          Faults-layout g now _ (serialize b) ys b h (
            subst
              (λ ts.
                Faults (length (layout b ys ++ []) + 1) (many (Tx.decode (serialize b)) (length ts))
                  ys)
              (sym e)
              (second_tx (serialize b) _ t u o (length us) _ fits.0 fits.1.0 e' small
                (subst (λ s. length s + 1 < u.timestamp) bytes long))))
    where
      ys : Bytes
      ys = Tx.serialize t ++ (Tx.serialize u ++ flatten (map Tx.serialize us))

      bytes : serialize b ≡ layout b ys ++ []
      bytes =
          serialize-layout b
          ∙ ap (λ ts. layout b (flatten (map Tx.serialize ts))) e
          ∙ sym (append-nil (layout b ys))

      fits : All TxFits (t ∷ u ∷ us)
      fits = subst (All TxFits) e h.tx_fit
