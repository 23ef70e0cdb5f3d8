-- ===== src/Tx/Construct.antt =====
-- `Tx::ConstructAndSign`: when it returns, and what.
use dave_coin.Base.{
  ◌^◌, ◌<◌, ◌↔◌, subst, ℕ, ◌≡◌, refl, ◌≢◌, List, [], ◌∷◌, true, false, arith, length, All,
  Bool-cases, inl, inr,
}
use dave_coin.Bytes.{ok}
use dave_coin.Crypto.{Crypto, Laws}
use dave_coin.Sig.{calculate_sha256, sign_message, validate_signature}
use dave_coin.Tx.Input.{TxInput}
use dave_coin.Tx.Output.{TxOutput}
use dave_coin.Tx.{Tx, serialize, verify, pays, unsigned, sign_tx, construct_and_sign}
use dave_coin.Tx.Fits.{OutputFits, InputFits, TxFits}

module _ ⦃c : Crypto⦄ where
  -- The serialization holds neither the hash nor the signature.
  serialize-sign_tx :
      (rng : ℕ) (t : Tx c.PublicKey) (public_key : c.PublicKey) (key : c.PrivateKey)
      → serialize (sign_tx rng t public_key key) ≡ serialize t
  unfolding serialize sign_tx
  serialize-sign_tx rng t public_key key = refl

  construct_and_sign-inv :
      (now rng : ℕ) (inputs : List TxInput) (outputs : List (TxOutput c.PublicKey))
      (public_key : c.PublicKey) (key : c.PrivateKey) {t : Tx c.PublicKey}
      → construct_and_sign now rng inputs outputs public_key key ≡ ok t
      → (inputs ≢ [])
        × (outputs ≢ [])
        × (pays outputs public_key ≡ false)
        × (sign_tx rng (unsigned now inputs outputs public_key) public_key key ≡ t)
  unfolding construct_and_sign
  construct_and_sign-inv now rng inputs outputs public_key key e = ground arith

  completes :
      (now rng : ℕ) (inputs : List TxInput) (outputs : List (TxOutput c.PublicKey))
      (public_key : c.PublicKey) (key : c.PrivateKey)
      → inputs ≢ []
      → outputs ≢ []
      → pays outputs public_key ≡ false
      → construct_and_sign now rng inputs outputs public_key key
        ≡ ok (sign_tx rng (unsigned now inputs outputs public_key) public_key key)
  unfolding construct_and_sign
  completes now rng inputs outputs public_key key i o p = ground arith

  signed-fits :
      (now rng : ℕ) (inputs : List TxInput) (outputs : List (TxOutput c.PublicKey))
      (public_key : c.PublicKey) (key : c.PrivateKey)
      → length inputs < 2 ^ 32
      → length outputs < 2 ^ 32
      → All InputFits inputs
      → All OutputFits outputs
      → TxFits (sign_tx rng (unsigned now inputs outputs public_key) public_key key)
  unfolding sign_tx unsigned
  signed-fits now rng inputs outputs public_key key few_inputs few_outputs fi fo = record {
    version_fits = omega arith;
    timestamp_fits = omega arith;
    inputs_count = few_inputs;
    outputs_count = few_outputs;
    inputs_fit = fi;
    outputs_fit = fo;
  }

module _ ⦃c : Crypto⦄ where
  -- What `ConstructAndSign` returns fits the format when its arguments do.
  pub construct_and_sign-TxFits :
      (now rng : ℕ) (inputs : List TxInput) (outputs : List (TxOutput c.PublicKey))
      (public_key : c.PublicKey) (key : c.PrivateKey) {t : Tx c.PublicKey}
      → length inputs < 2 ^ 32
      → length outputs < 2 ^ 32
      → All InputFits inputs
      → All OutputFits outputs
      → construct_and_sign now rng inputs outputs public_key key ≡ ok t
      → TxFits t
  construct_and_sign-TxFits now rng inputs outputs public_key key few_inputs few_outputs fi fo e =
      subst TxFits (construct_and_sign-inv now rng inputs outputs public_key key e).3
        (signed-fits now rng inputs outputs public_key key few_inputs few_outputs fi fo)

module _ ⦃c : Crypto⦄ (laws : Laws) where
  pays-false :
      (outs : List (TxOutput c.PublicKey)) (key : c.PublicKey)
      → pays outs key ≡ false
      → All (λ o. o.target ≢ key) outs
  unfolding pays
  pays-false [] key h = tt
  pays-false (o ∷ outs) key h =
      (λ e. ground (arith, (laws.key_eq_iff o.target key).1 e), pays-false outs key (ground arith))

  pays-true :
      (outs : List (TxOutput c.PublicKey)) (key : c.PublicKey)
      → pays outs key ≡ true
      → ¬ All (λ o. o.target ≢ key) outs
  unfolding pays
  pays-true [] key h all = cc
  pays-true (o ∷ outs) key h (ne, all) = elim (Bool-cases (c.key_eq o.target key)) [
    | inl same ↦ ne ((laws.key_eq_iff o.target key).0 same)
    | inr other ↦ pays-true outs key (ground (arith, other)) all
  ]

  pays-ne :
      (outs : List (TxOutput c.PublicKey)) (key : c.PublicKey)
      → All (λ o. o.target ≢ key) outs
      → pays outs key ≡ false
  pays-ne outs key all = elim (Bool-cases (pays outs key)) [
    | inl paid ↦ absurd (pays-true outs key paid all)
    | inr free ↦ free
  ]

  -- `ConstructAndSign` returns a transaction exactly when there is an input and an output and no
  -- output goes to the sender's own key.
  pub construct_and_sign_iff :
      (now rng : ℕ) (inputs : List TxInput) (outputs : List (TxOutput c.PublicKey))
      (public_key : c.PublicKey) (key : c.PrivateKey)
      → ((t : Tx c.PublicKey) × (construct_and_sign now rng inputs outputs public_key key ≡ ok t))
        ↔ ((inputs ≢ []) × (outputs ≢ []) × All (λ o. o.target ≢ public_key) outputs)
  construct_and_sign_iff now rng inputs outputs public_key key = (
    λ (t, e).
        let (i, o, p, s) = construct_and_sign-inv now rng inputs outputs public_key key e in
        (i, o, pays-false outputs public_key p),
    λ (i, o, all).
        (_, completes now rng inputs outputs public_key key i o (pays-ne outputs public_key all)),
  )

  verify-sign_tx :
      (rng : ℕ) (t : Tx c.PublicKey) (key : c.PrivateKey)
      → t.origin ≡ c.public_of key
      → verify (sign_tx rng t (c.public_of key) key) ≡ true
  unfolding verify sign_tx sign_message validate_signature serialize
  verify-sign_tx rng t key e = rw e (laws.verifier-signer rng key _)

  hash-sign_tx :
      (rng : ℕ) (t : Tx c.PublicKey) (public_key : c.PublicKey) (key : c.PrivateKey)
      → (sign_tx rng t public_key key).hash
        ≡ calculate_sha256 (serialize (sign_tx rng t public_key key))
  unfolding sign_tx serialize calculate_sha256
  hash-sign_tx rng t public_key key = refl

  -- What `ConstructAndSign` returns for a key pair verifies, has the hash of its own bytes, and carries
  -- the inputs, the outputs and the public key that it was given.
  pub construct_and_sign_signed :
      (now rng : ℕ) (inputs : List TxInput) (outputs : List (TxOutput c.PublicKey))
      (key : c.PrivateKey) {t : Tx c.PublicKey}
      → construct_and_sign now rng inputs outputs (c.public_of key) key ≡ ok t
      → (verify t ≡ true)
        × (t.hash ≡ calculate_sha256 (serialize t))
        × (t.inputs ≡ inputs)
        × (t.outputs ≡ outputs)
        × (t.origin ≡ c.public_of key)
  construct_and_sign_signed now rng inputs outputs key e =
      let (_, _, _, s) = construct_and_sign-inv now rng inputs outputs (c.public_of key) key e in
      let t = unsigned now inputs outputs (c.public_of key) in
      rw (← s) (
        verify-sign_tx rng t key (unfold unsigned in refl),
        hash-sign_tx rng t _ key,
        unfold sign_tx unsigned in refl,
        unfold sign_tx unsigned in refl,
        unfold sign_tx unsigned in refl,
      )
