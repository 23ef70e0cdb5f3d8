-- ===== src/Checks/Pass.antt =====
-- The checks of jc.cpp succeed.
use dave_coin.Base.{
  some, Bool, false, ℕ, ◌<◌, ◌^◌, ◌≡◌, ◌≢◌, refl, sym, ap, subst, ◌∙◌, List, [], ◌∷◌, true, arith,
}
use dave_coin.Bytes.{Bytes, ok}
use dave_coin.Crypto.{Crypto, Laws, Dsa, KeyLaws}
use dave_coin.Block
use dave_coin.Block.{Block, Garbage, new_block, decode_block}
use dave_coin.Block.Fits.{BlockFits}
use dave_coin.Block.RoundTrip.{serialize-decode_block}
use dave_coin.Checks.{
  Chance, public_file, private_file, test_transactions, and_then, dummy_input, dummy_block,
  test_block, dummy_output, same_target, check_transactions,
}
use dave_coin.Keys.{save_key, generate_keys}
use dave_coin.Keys.RoundTrip.{load_key-lookup, lookup-save_key, generate_keys-pair}
use dave_coin.Dict.{Dict, lookup, same_bytes, same_bytes_refl}
use dave_coin.Tx.{Tx}
use dave_coin.Tx.Fits.{OutputFits, InputFits, TxFits, Readable}
use dave_coin.Tx.Output.{TxOutput}
use dave_coin.Tx.Construct.{
  construct_and_sign_iff, construct_and_sign_signed, construct_and_sign-TxFits,
}
use dave_coin.Tx.Signing.{decode_and_verify-construct_and_sign}

dummy_input_fits : InputFits dummy_input
dummy_input_fits = record {
  block_hash_fits = omega arith;
  input_hash_fits = omega arith;
  index_fits = omega arith;
}

module _ ⦃c : Crypto⦄ (laws : Laws) where
  dummy_block-fits :
      (g : Garbage) (now : ℕ) (miner : c.PublicKey) (tx : Tx c.PublicKey)
      → now < 2 ^ 64
      → TxFits tx
      → BlockFits (dummy_block g now miner tx)
  unfolding dummy_block new_block
  dummy_block-fits g now miner tx early fits = record {
    index_fits = omega arith;
    bit_thresh_fits = omega arith;
    prev_hash_fits = omega arith;
    nonce_fits = omega arith;
    timestamp_fits = early;
    coins_fits = omega arith;
    tx_count = omega arith;
    tx_fit = (fits, tt);
  }

  -- `test_block` prints that it succeeded, for a transaction that fits the format and has no output, or
  -- one of fewer than 2 ^ 32 coins.
  pub test_block_passes :
      (g : Garbage) (now : ℕ) (g' : Garbage) (now' : ℕ) (miner : c.PublicKey) (tx : Tx c.PublicKey)
      → now < 2 ^ 64
      → TxFits tx
      → Readable tx.outputs
      → test_block g now g' now' miner tx ≡ ok true
  unfolding test_block dummy_block new_block
  test_block_passes g now g' now' miner tx early fits small =
      let b0 = dummy_block g now miner tx in
      let (b1, e, s) =
        serialize-decode_block laws g' now' b0 (dummy_block-fits g now miner tx early fits) small in
      ap (and_then (λ b. ok (same_bytes (Block.serialize b0) (Block.serialize b)))) e
      ∙ ap (λ x. ok (same_bytes (Block.serialize b0) x)) s
      ∙ ap ok (same_bytes_refl (Block.serialize b0))

  same_target_refl :
      (o : TxOutput c.PublicKey) (outs : List (TxOutput c.PublicKey))
      → outs ≡ o ∷ []
      → same_target outs outs ≡ ok true
  unfolding same_target
  same_target_refl o outs e = rw e (ap ok ((laws.key_eq_iff o.target o.target).1 refl))

  -- From its keys on, `test_transactions` with a key pair and another's key as the target, and before the clock leaves 64
  -- bits, reports success of both of its checks.
  pub check_transactions_passes :
      (key : c.PrivateKey) (target : c.PublicKey) (now rng : ℕ) (g : Garbage) (now0 : ℕ)
      (g' : Garbage) (now1 : ℕ)
      → target ≢ c.public_of key
      → now0 < 2 ^ 64
      → check_transactions (c.public_of key) key target now rng g now0 g' now1 ≡ ok (true, true)
  unfolding check_transactions
  check_transactions_passes key target now rng g now0 g' now1 other early =
      let o = dummy_output target in
      let (t, e) =
        (construct_and_sign_iff laws now rng (dummy_input ∷ []) (o ∷ []) (c.public_of key) key).1
          (λ e. cc, λ e. cc, (other, tt)) in
      let (_, _, _, os, _) =
        construct_and_sign_signed laws now rng (dummy_input ∷ []) (o ∷ []) key e in
      let ofits : OutputFits o = record { index_fits = omega arith; coins_fits = omega arith } in
      let d =
        decode_and_verify-construct_and_sign laws now rng (dummy_input ∷ []) o key (omega arith)
          (dummy_input_fits, tt) ofits (omega arith) e in
      let fits : TxFits t =
        construct_and_sign-TxFits now rng (dummy_input ∷ []) (o ∷ []) (c.public_of key) key
          (omega arith) (omega arith) (dummy_input_fits, tt) (ofits, tt) e in
      let small : Readable t.outputs = subst Readable (sym os) (omega arith) in
      rw
        (
          e,
          d,
          same_target_refl o t.outputs os,
          test_block_passes g now0 g' now1 (c.public_of key) t early fits small,
        )
        refl

private_not_public : same_bytes private_file public_file ≡ false
unfolding same_bytes
private_not_public = refl

same_public : same_bytes public_file public_file ≡ true
same_public = same_bytes_refl public_file

same_private : same_bytes private_file private_file ≡ true
same_private = same_bytes_refl private_file

module _ ⦃c : Crypto⦄ (laws : Laws) (d : Dsa) (public_laws : KeyLaws d.public_type)
    (private_laws : KeyLaws d.private_type) where
  -- `test_transactions` reports success of both of its checks, when the key files hold a pair that
  -- `GenerateKeys` made and `SaveKey` saved, the loads find the keys valid, and `GenerateKeys` makes
  -- another public key for the target, before the clock leaves 64 bits.
  pub test_transactions_passes :
      (can_write : Bytes → Bool) (rng rng1 rng2 : ℕ) (files : Dict Bytes) (r : Chance)
      {public_key target : c.PublicKey} {private_key target_private : c.PrivateKey}
      {files1 files2 : Dict Bytes}
      → generate_keys d rng rng1 rng2 ≡ ok (public_key, private_key)
      → save_key d.public_type can_write public_file public_key files ≡ ok files1
      → save_key d.private_type can_write private_file private_key files1 ≡ ok files2
      → d.public_type.validate r.load_public public_key ≡ true
      → d.private_type.validate r.load_private private_key ≡ true
      → generate_keys d r.generate r.check_private r.check_public ≡ ok (target, target_private)
      → target ≢ public_key
      → r.now0 < 2 ^ 64
      → test_transactions d r files2 ≡ ok (true, true)
  unfolding test_transactions
  test_transactions_passes can_write rng rng1 rng2 files r {public_key} {target} {private_key}
        {files1 = files1} {files2} made s1 s2 v1 v2 another other early =
      let (pair, _, _) = generate_keys-pair d rng rng1 rng2 made in
      let there : lookup public_file files2 ≡ some (d.public_type.write public_key) =
        lookup-save_key d.private_type can_write private_file public_file private_key files1 s2
        ∙ rw private_not_public refl
        ∙ lookup-save_key d.public_type can_write public_file public_file public_key files s1
        ∙ rw same_public refl in
      let there' : lookup private_file files2 ≡ some (d.private_type.write private_key) =
        lookup-save_key d.private_type can_write private_file private_file private_key files1 s2
        ∙ rw same_private refl in
      rw
        (
          load_key-lookup d.public_type r.load_public public_file public_key files2 public_laws
              there v1,
          load_key-lookup d.private_type r.load_private private_file private_key files2 private_laws
              there' v2,
          another,
          pair,
        )
        (check_transactions_passes laws private_key target r.now r.sign r.memory0 r.now0 r.memory1
          r.now1 (rw pair at other) early)
