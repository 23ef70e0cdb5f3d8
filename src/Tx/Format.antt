-- ===== src/Tx/Format.antt =====
-- The byte format of a transaction by itself: a reader that follows `Tx::Serialize`, with the coins of an
-- output in 8 bytes, for any number of inputs and outputs. By it different transactions have different
-- bytes, those that are hashed and signed.
use native.Mathlib.Nat.{mod-eq_of_lt}
use dave_coin.Base.{◌≡◌, ap, [], length}
use dave_coin.Bytes.{Reader, return, ◌>>=◌, load, load_bytes, many}
use dave_coin.Bytes.Reads.{Reads, Reads-return, ◌reads⟨◌⟩◌, Reads-load, Reads-many}
use dave_coin.Bytes.Formats.{Reads-injective}
use dave_coin.Crypto.{Crypto, Laws}
use dave_coin.Tx.Input
use dave_coin.Tx.Input.{TxInput}
use dave_coin.Tx.Output
use dave_coin.Tx.Output.{TxOutput, parse_key}
use dave_coin.Tx.{Tx, serialize}
use dave_coin.Tx.Fits.{InputFits, OutputFits, TxFits}
use dave_coin.Tx.Fields.{Input-decode-serialize, Runs-key}

module _ ⦃c : Crypto⦄ where
  read_output : Reader (TxOutput c.PublicKey)
  read_output = do
    keysize ← load 4
    key_material ← load_bytes keysize
    target ← parse_key key_material
    index ← load 4
    coins ← load 8
    return (record { target = target; index = index; coins = coins })

  pub read_tx : Reader (Tx c.PublicKey)
  unfolding read_output
  read_tx = do
    version ← load 4
    timestamp ← load 4
    keysize ← load 4
    key_material ← load_bytes keysize
    origin ← parse_key key_material
    input_size ← load 4
    inputs ← many Input.decode input_size
    output_size ← load 4
    outputs ← many read_output output_size
    return (record {
      version = version;
      timestamp = timestamp;
      hash = [];
      origin = origin;
      sig = [];
      inputs = inputs;
      outputs = outputs;
    })

  -- What the bytes of a transaction hold: neither its hash nor its signature.
  unfoldable pub content : Tx c.PublicKey → Tx c.PublicKey
  content t = record t { hash = []; sig = [] }

module _ ⦃c : Crypto⦄ (laws : Laws) where
  read_output-serialize :
      (o : TxOutput c.PublicKey) → OutputFits o → Reads read_output (Output.serialize o) o
  unfolding read_output Output.serialize
  read_output-serialize o h = Runs-key laws o.target _ (
      Reads-load 4 o.index h.index_fits
      reads⟨ _ ⟩ Reads-load 8 o.coins h.coins_fits
      reads⟨ _ ⟩ Reads-return _)

  pub read_tx-serialize : (t : Tx c.PublicKey) → TxFits t → Reads read_tx (serialize t) (content t)
  unfolding read_tx serialize content
  read_tx-serialize t h =
      rw (mod-eq_of_lt h.inputs_count, mod-eq_of_lt h.outputs_count)
        (Reads-load 4 t.version h.version_fits
          reads⟨ _ ⟩ Reads-load 4 t.timestamp h.timestamp_fits
          reads⟨ _ ⟩
            Runs-key laws t.origin _ (
              Reads-load 4 (length t.inputs) h.inputs_count
              reads⟨ _ ⟩ Reads-many InputFits _ _ Input-decode-serialize t.inputs h.inputs_fit
              reads⟨ _ ⟩ Reads-load 4 (length t.outputs) h.outputs_count
              reads⟨ _ ⟩ Reads-many OutputFits _ _ read_output-serialize t.outputs h.outputs_fit
              reads⟨ _ ⟩ Reads-return _))

  -- Transactions that fit the format and have the same bytes, with whatever numbers of inputs and outputs,
  -- are equal in all but the hash and the signature.
  pub Tx-serialize_injective :
      (t u : Tx c.PublicKey)
      → TxFits t
      → TxFits u
      → serialize t ≡ serialize u
      → (t.version ≡ u.version)
        × (t.timestamp ≡ u.timestamp)
        × (t.origin ≡ u.origin)
        × (t.inputs ≡ u.inputs)
        × (t.outputs ≡ u.outputs)
  unfolding content
  Tx-serialize_injective t u ht hu e =
      let same : content t ≡ content u =
        Reads-injective read_tx (read_tx-serialize t ht) (read_tx-serialize u hu) e in
      (
        ap (λ (x : Tx c.PublicKey). x.version) same,
        ap (λ (x : Tx c.PublicKey). x.timestamp) same,
        ap (λ (x : Tx c.PublicKey). x.origin) same,
        ap (λ (x : Tx c.PublicKey). x.inputs) same,
        ap (λ (x : Tx c.PublicKey). x.outputs) same,
      )
