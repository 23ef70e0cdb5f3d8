-- ===== src/Tx/Signing.antt =====
-- `Tx::ConstructAndSign`, `Tx::Verify` and `Tx::DecodeAndVerify` together.
use dave_coin.Base.{
  if◌then◌else◌, ◌^◌, ◌<◌, subst, ℕ, ◌≡◌, refl, List, [], ◌∷◌, ◌++◌, true, arith, length, All,
  Bool-cases, inl, inr,
}
use dave_coin.Bytes.{not_verified, Bytes, Outcome, ok, throws, fault}
use dave_coin.Bytes.Ensures.{Ensures, Ensures-bind, Ensures-return, Ensures-run}
use dave_coin.Crypto.{Crypto, Laws}
use dave_coin.Sig.{calculate_sha256, validate_signature}
use dave_coin.Tx.Input.{TxInput}
use dave_coin.Tx.Output.{TxOutput}
use dave_coin.Tx.{
  Tx, serialize, decode, check_signature, decode_and_verify, verify, construct_and_sign,
}
use dave_coin.Tx.Fits.{OutputFits, InputFits, TxFits, Readable}
use dave_coin.Tx.Construct.{construct_and_sign-TxFits, construct_and_sign_signed}
use dave_coin.Tx.RoundTrip.{decode-serialize}

module _ ⦃c : Crypto⦄ (laws : Laws) where
  -- `DecodeAndVerify` accepts the bytes of a transaction that fits the format, verifies, and has the
  -- hash of its bytes, under its own key and signature, and gives back the same transaction, if it
  -- has no output, or one of fewer than 2 ^ 32 coins.
  pub decode_and_verify-serialize :
      (t : Tx c.PublicKey)
      → TxFits t
      → Readable t.outputs
      → t.hash ≡ calculate_sha256 (serialize t)
      → verify t ≡ true
      → decode_and_verify (serialize t) t.sig t.origin ≡ ok t
  unfolding decode_and_verify verify
  decode_and_verify-serialize t fits small e v =
      rw (decode-serialize laws t fits small, ← e, v) refl

  -- A transaction with one output of fewer than 2 ^ 32 coins, whose fields fit the format, made by
  -- `ConstructAndSign` with a key pair, passes `DecodeAndVerify` at the receiver and arrives as it
  -- was sent.
  pub decode_and_verify-construct_and_sign :
      (now rng : ℕ) (inputs : List TxInput) (o : TxOutput c.PublicKey) (key : c.PrivateKey)
      {t : Tx c.PublicKey}
      → length inputs < 2 ^ 32
      → All InputFits inputs
      → OutputFits o
      → o.coins < 2 ^ 32
      → construct_and_sign now rng inputs (o ∷ []) (c.public_of key) key ≡ ok t
      → decode_and_verify (serialize t) t.sig (c.public_of key) ≡ ok t
  decode_and_verify-construct_and_sign now rng inputs o key {t} count fit ofit small e =
      let (v, h, i, os, k) = construct_and_sign_signed laws now rng inputs (o ∷ []) key e in
      subst (λ key. decode_and_verify (serialize t) t.sig key ≡ ok t) k
        (decode_and_verify-serialize t
          (construct_and_sign-TxFits now rng inputs (o ∷ []) (c.public_of key) key count
            (omega arith) fit (ofit, tt) e)
          (rw os small) h v)

module _ ⦃c : Crypto⦄ (laws : Laws) where
  -- On the bytes of a transaction that fits the format, with no output or one of fewer than 2 ^ 32 coins,
  -- `DecodeAndVerify` gives the transaction back, with the hash of its bytes and the given signature, if the
  -- signature is valid under the given key for the bytes and their hash, and else throws. The
  -- transaction's origin may be any key.
  pub decode_and_verify_result :
      (t : Tx c.PublicKey) (signature : Bytes) (key : c.PublicKey)
      → TxFits t
      → Readable t.outputs
      → decode_and_verify (serialize t) signature key ≡ (
          if validate_signature (serialize t ++ calculate_sha256 (serialize t)) signature key
          then ok (record t { hash = calculate_sha256 (serialize t); sig = signature })
          else throws not_verified)
  unfolding decode_and_verify check_signature
  decode_and_verify_result t signature key fits small = rw (decode-serialize laws t fits small) refl

module _ ⦃c : Crypto⦄ where
  hash-decode : (serial : Bytes) → Ensures (decode serial) (λ t. t.hash ≡ calculate_sha256 serial)
  unfolding decode
  hash-decode serial = Ensures-bind _ _ λ version. Ensures-bind _ _ λ timestamp.
      Ensures-bind _ _ λ keysize. Ensures-bind _ _ λ key_material. Ensures-bind _ _ λ origin.
        Ensures-bind _ _ λ input_size. Ensures-bind _ _ λ inputs.
          Ensures-bind _ _ λ output_size. Ensures-bind _ _ λ outputs. Ensures-return _ refl

  check_signature-ok :
      (serial signature : Bytes) (key : c.PublicKey) (r : Outcome (Tx c.PublicKey))
      {t : Tx c.PublicKey}
      → check_signature serial signature key r ≡ ok t
      → (u : Tx c.PublicKey) × (r ≡ ok u)
        × (validate_signature (serial ++ u.hash) signature key ≡ true)
        × (record u { sig = signature } ≡ t)
  unfolding check_signature
  check_signature-ok serial signature key (ok u) e =
      elim (Bool-cases (validate_signature (serial ++ u.hash) signature key)) [
        | inl good ↦ (u, refl, good, cc (rw good at e))
        | inr bad ↦ cc (rw bad at e)
      ]
  check_signature-ok serial signature key (throws x) e = cc
  check_signature-ok serial signature key fault e = cc

  -- What `DecodeAndVerify` returns carries the signature that it was given, which is valid under the
  -- given key for the bytes followed by their hash, and it has that hash.
  pub decode_and_verify_sound :
      (serial signature : Bytes) (key : c.PublicKey) {t : Tx c.PublicKey}
      → decode_and_verify serial signature key ≡ ok t
      → (validate_signature (serial ++ calculate_sha256 serial) signature key ≡ true)
        × (t.hash ≡ calculate_sha256 serial)
        × (t.sig ≡ signature)
  unfolding decode_and_verify
  decode_and_verify_sound serial signature key e =
      let (u, d, v, s) = check_signature-ok serial signature key _ e in
      let h = Ensures-run serial (hash-decode serial) d in (rw h at v, rw (← s) h, rw (← s) refl)
