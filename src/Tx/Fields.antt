-- ===== src/Tx/Fields.antt =====
-- What each field's reader makes of what the serializers wrote: the round trip of `Tx_Input`, and the
-- four bytes by which those of `Tx_Output` differ.
use native.Mathlib.Nat.{mod-eq_of_lt}
use dave_coin.Base.{
  ℕ, ◌/◌, ◌%◌, ◌^◌, ◌<◌, ◌≡◌, refl, ap, [], ◌∷◌, ◌++◌, arith, length, flatten, append-nil,
  append_assoc,
}
use dave_coin.Bytes.{ber_error, throws, Bytes, to_le, Outcome, Reader, ◌>>=◌, load, load_bytes, ok}
use dave_coin.Bytes.Reads.{Runs, Reads, Reads-return, ◌reads⟨◌⟩◌, Reads-load, Reads-load_bytes}
use dave_coin.Crypto.{Crypto, Laws}
use dave_coin.Tx.Input
use dave_coin.Tx.Input.{TxInput}
use dave_coin.Tx.Output
use dave_coin.Tx.Output.{TxOutput, parse_key}
use dave_coin.Tx.Fits.{InputFits, OutputFits}

-- A size below 2 ^ 32 is read back, and then the bytes of that size.
pub Runs-sized {ℓ} :
    {A : Type ℓ} {bs ys : Bytes} {r : Outcome A} (f : Bytes → Reader A)
    → length bs < 2 ^ 32
    → Runs (f bs) ys r
    → Runs (load 4 >>= λ n. load_bytes n >>= f) (to_le 4 (length bs % 2 ^ 32) ++ (bs ++ ys)) r
Runs-sized {bs = bs} f h k =
    rw (mod-eq_of_lt h) (Reads-load 4 (length bs) h reads⟨ _ ⟩ Reads-load_bytes bs reads⟨ _ ⟩ k)

-- `Tx_Input::Decode` reads exactly what `Tx_Input::Serialize` wrote, back to the same input,
-- wherever the bytes stand in the memory, if the hashes' sizes and the index fit 32 bits.
pub Input-decode-serialize : (i : TxInput) → InputFits i → Reads Input.decode (Input.serialize i) i
unfolding Input.decode Input.serialize
Input-decode-serialize i h =
    Runs-sized _ h.block_hash_fits
      (Runs-sized _ h.input_hash_fits (Reads-load 4 i.index h.index_fits reads⟨ _ ⟩ Reads-return i))

module _ ⦃c : Crypto⦄ where
  -- The bytes of an output that `Tx_Output::Decode` takes: all but the upper half of the coins.
  unfoldable pub stem : TxOutput c.PublicKey → Bytes
  stem o =
      let keysize = length (c.save o.target) % 2 ^ 32 in
      flatten
        (to_le 4 keysize ∷ c.save o.target ∷ to_le 4 o.index ∷ to_le 4 (o.coins % 2 ^ 32) ∷ [])

  -- What comes back: the coins cut to 32 bits.
  unfoldable pub low_coins : TxOutput c.PublicKey → TxOutput c.PublicKey
  low_coins o = record o { coins = o.coins % 2 ^ 32 }

module _ ⦃c : Crypto⦄ (laws : Laws) where
  pub Reads-parse_key : (k : c.PublicKey) → Reads (parse_key (c.save k)) [] k
  unfolding parse_key
  Reads-parse_key k = record {
    runs = λ pre post. rw (laws.ber_decode-save k, parse_key) (ap (λ n. ok (k, n)) (omega arith));
  }

  pub Throws-parse_key : Runs (parse_key []) [] (throws ber_error)
  unfolding parse_key
  Throws-parse_key = record { runs = λ pre post. rw (laws.ber_decode_nil, parse_key) refl }

  -- A key's size, the key's bytes, and then `f` at the key.
  pub Runs-key {ℓ} :
      {A : Type ℓ} {ys : Bytes} {r : Outcome A} (k : c.PublicKey) (f : c.PublicKey → Reader A)
      → Runs (f k) ys r
      → Runs
          (load 4 >>= λ n. load_bytes n >>= λ bs. parse_key bs >>= f)
          (to_le 4 (length (c.save k) % 2 ^ 32) ++ (c.save k ++ ys))
          r
  Runs-key k f h = Runs-sized _ (laws.save_fits k) (Reads-parse_key k reads⟨ _ ⟩ h)

  pub Output-decode-stem :
      (o : TxOutput c.PublicKey) → OutputFits o → Reads Output.decode (stem o) (low_coins o)
  unfolding Output.decode stem low_coins
  Output-decode-stem o h = Runs-key o.target _ (
      Reads-load 4 o.index h.index_fits
      reads⟨ _ ⟩ Reads-load 4 (o.coins % 2 ^ 32) (omega arith)
      reads⟨ _ ⟩ Reads-return _)

to_le-halves : (n : ℕ) → to_le 8 n ≡ to_le 4 (n % 2 ^ 32) ++ to_le 4 (n / 2 ^ 32)
unfolding to_le
to_le-halves n = ground arith

module _ ⦃c : Crypto⦄ where
  pub Output-serialize-stem :
      (o : TxOutput c.PublicKey) → Output.serialize o ≡ stem o ++ to_le 4 (o.coins / 2 ^ 32)
  unfolding Output.serialize stem
  Output-serialize-stem o = rw (to_le-halves o.coins) (simp (append_assoc, append-nil))
