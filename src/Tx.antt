-- ===== src/Tx.antt =====
-- `Tx` of tx.hpp and tx.cpp: serialization, decoding, signing and verification.
pub mod Input
pub mod Output
pub mod Fits
pub mod Fields
pub mod RoundTrip
pub mod Construct
pub mod Signing
pub mod Bounds
pub mod Format
pub mod Authentic
use dave_coin.Base.{
  ℕ, ◌%◌, ◌^◌, List, [], ◌∷◌, ◌++◌, Bool, true, false, ◌||◌, map, length, flatten, ◌==◌,
  if◌then◌else◌,
}
use dave_coin.Bytes.{
  Bytes, to_le, Outcome, ok, throws, fault, not_verified, no_inputs, no_outputs, to_myself, Reader,
  return, ◌>>=◌, load, load_bytes, many, run,
}
use dave_coin.Crypto.{Crypto}
use dave_coin.Sig.{calculate_sha256, sign_message, validate_signature}
use Input.{TxInput}
use Output.{TxOutput, parse_key}

pub record Tx (K : Type 0) : Type 0 where
  pub version : ℕ
  pub timestamp : ℕ
  pub hash : Bytes
  pub origin : K
  pub sig : Bytes
  pub inputs : List TxInput
  pub outputs : List (TxOutput K)

module _ ⦃c : Crypto⦄ where
  unfoldable pub serialize : Tx c.PublicKey → Bytes
  serialize t =
      let keysize = length (c.save t.origin) % 2 ^ 32 in
      let input_size = length t.inputs % 2 ^ 32 in
      let output_size = length t.outputs % 2 ^ 32 in
      flatten (
        to_le 4 t.version
        ∷ to_le 4 t.timestamp
        ∷ to_le 4 keysize
        ∷ c.save t.origin
        ∷ to_le 4 input_size
        ∷ flatten (map Input.serialize t.inputs)
        ∷ to_le 4 output_size
        ∷ flatten (map Output.serialize t.outputs)
        ∷ [])

  -- `serial` is the whole string that the cursor runs over, and the hash is taken of all of it.
  unfoldable pub decode : Bytes → Reader (Tx c.PublicKey)
  decode serial = do
    version ← load 4
    timestamp ← load 4
    keysize ← load 4
    key_material ← load_bytes keysize
    origin ← parse_key key_material
    input_size ← load 4
    inputs ← many Input.decode input_size
    output_size ← load 4
    outputs ← many Output.decode output_size
    return (record {
      version = version;
      timestamp = timestamp;
      hash = calculate_sha256 serial;
      origin = origin;
      sig = [];
      inputs = inputs;
      outputs = outputs;
    })

  -- The second half of `decode_and_verify`, on what `Tx::Decode` returned.
  unfoldable pub check_signature :
      Bytes → Bytes → c.PublicKey → Outcome (Tx c.PublicKey) → Outcome (Tx c.PublicKey)
  check_signature serial signature key (ok tx) =
      if validate_signature (serial ++ tx.hash) signature key
      then ok (record tx { sig = signature })
      else throws not_verified
  check_signature serial signature key (throws e) = throws e
  check_signature serial signature key fault = fault

  unfoldable pub decode_and_verify : Bytes → Bytes → c.PublicKey → Outcome (Tx c.PublicKey)
  unfolding check_signature
  decode_and_verify serial signature key =
      check_signature serial signature key (run (decode serial) serial)

  unfoldable pub verify : Tx c.PublicKey → Bool
  verify t = validate_signature (serialize t ++ t.hash) t.sig t.origin

  -- Does an output go to `key`?
  unfoldable pub pays : List (TxOutput c.PublicKey) → c.PublicKey → Bool
  pays [] key = false
  pays (output ∷ outputs) key = c.key_eq output.target key || pays outputs key

  -- The transaction before it is hashed and signed. The clock is cut to 32 bits.
  unfoldable pub unsigned :
      ℕ → List TxInput → List (TxOutput c.PublicKey) → c.PublicKey → Tx c.PublicKey
  unsigned now inputs outputs public_key = record {
    version = 0;
    timestamp = now % 2 ^ 32;
    hash = [];
    origin = public_key;
    sig = [];
    inputs = inputs;
    outputs = outputs;
  }

  unfoldable pub sign_tx : ℕ → Tx c.PublicKey → c.PublicKey → c.PrivateKey → Tx c.PublicKey
  sign_tx rng tx public_key private_key =
      let message = serialize tx in
      let hash = c.sha256 message in
      record tx { hash = hash; sig = sign_message rng (message ++ hash) public_key private_key }

  -- `now` is the clock, and `rng` what the random pool yields to the signer.
  unfoldable pub construct_and_sign :
      ℕ
      → ℕ
      → List TxInput
      → List (TxOutput c.PublicKey)
      → c.PublicKey
      → c.PrivateKey
      → Outcome (Tx c.PublicKey)
  unfolding unsigned sign_tx
  construct_and_sign now rng inputs outputs public_key private_key =
      if length inputs == 0
      then throws no_inputs
      else if length outputs == 0
      then throws no_outputs
      else if pays outputs public_key
      then throws to_myself
      else ok (sign_tx rng (unsigned now inputs outputs public_key) public_key private_key)
