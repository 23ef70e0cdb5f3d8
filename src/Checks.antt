-- ===== src/Checks.antt =====
-- jc.cpp: the checks that the main program runs before it starts the node. What the clocks, the random
-- pool and the uninitialised memory yield is an argument, and the answer is which message they print.
pub mod Pass
use dave_coin.Base.{ℕ, List, [], ◌∷◌, Bool, if◌then◌else◌}
use dave_coin.Bytes.{Bytes, Outcome, ok, throws, fault}
use dave_coin.Crypto.{Crypto, Dsa}
use dave_coin.Block
use dave_coin.Block.{Block, Garbage, new_block, decode_block}
use dave_coin.Keys.{load_key, generate_keys}
use dave_coin.Dict.{Dict, same_bytes}
use dave_coin.Tx
use dave_coin.Tx.{Tx, construct_and_sign, decode_and_verify}
use dave_coin.Tx.Input.{TxInput}
use dave_coin.Tx.Output.{TxOutput}

-- What follows a call that returns.
abbrev pub and_then {ℓ κ} : {A : Type ℓ} {B : Type κ} → (A → Outcome B) → Outcome A → Outcome B
and_then f (ok a) = f a
and_then f (throws e) = throws e
and_then f fault = fault

-- "0", "ABCDEFG" and "XYZZZZZ".
abbrev pub zero_text : Bytes
zero_text = 48 ∷ []

abbrev pub dummy_input : TxInput
dummy_input = record {
  block_hash = 65 ∷ 66 ∷ 67 ∷ 68 ∷ 69 ∷ 70 ∷ 71 ∷ [];
  input_hash = 88 ∷ 89 ∷ 90 ∷ 90 ∷ 90 ∷ 90 ∷ 90 ∷ [];
  index = 3;
}

-- "keys/public_key.key" and "keys/private_key.key".
abbrev pub public_file : Bytes
public_file =
    107 ∷ 101 ∷ 121 ∷ 115 ∷ 47 ∷ 112 ∷ 117 ∷ 98 ∷ 108 ∷ 105 ∷ 99 ∷ 95 ∷ 107 ∷ 101 ∷ 121 ∷ 46 ∷ 107
    ∷ 101 ∷ 121 ∷ []

abbrev pub private_file : Bytes
private_file =
    107 ∷ 101 ∷ 121 ∷ 115 ∷ 47 ∷ 112 ∷ 114 ∷ 105 ∷ 118 ∷ 97 ∷ 116 ∷ 101 ∷ 95 ∷ 107 ∷ 101 ∷ 121 ∷ 46
    ∷ 107 ∷ 101 ∷ 121 ∷ []

module _ ⦃c : Crypto⦄ where
  -- The block of `test_block`, from a constructor that runs at clock `now`.
  unfoldable pub dummy_block : Garbage → ℕ → c.PublicKey → Tx c.PublicKey → Block c.PublicKey
  unfolding new_block
  dummy_block g now miner tx = record (new_block g now) {
    tx = tx ∷ [];
    hash = zero_text;
    prev_hash = zero_text;
    coinbase = record { coins = 100; target = miner };
  }

  -- `test_block`: does it print that the block was encoded and decoded? `g'` and `now'` are for the block
  -- that the decoder constructs.
  unfoldable pub test_block :
      Garbage → ℕ → Garbage → ℕ → c.PublicKey → Tx c.PublicKey → Outcome Bool
  unfolding dummy_block
  test_block g now g' now' miner tx =
      let b0 = dummy_block g now miner tx in
      and_then (λ b1. ok (same_bytes (Block.serialize b0) (Block.serialize b1)))
        (decode_block g' now' (Block.serialize b0))

  abbrev pub dummy_output : c.PublicKey → TxOutput c.PublicKey
  dummy_output target = record { target = target; index = 3; coins = 100 }

  -- `t1.outputs[0].target == t0.outputs[0].target`
  unfoldable pub same_target :
      List (TxOutput c.PublicKey) → List (TxOutput c.PublicKey) → Outcome Bool
  same_target [] outputs = fault
  same_target (o ∷ os) [] = fault
  same_target (o ∷ os) (p ∷ ps) = ok (c.key_eq o.target p.target)

  -- `test_transactions` from its keys on: the keys, then the target's, then the clocks, random pool and
  -- memory of the calls. The answers of its own check and of `test_block`.
  unfoldable pub check_transactions :
      c.PublicKey
      → c.PrivateKey
      → c.PublicKey
      → ℕ
      → ℕ
      → Garbage
      → ℕ
      → Garbage
      → ℕ
      → Outcome (Bool × Bool)
  unfolding test_block same_target
  check_transactions public_key private_key target now rng g now0 g' now1 =
      and_then
        (λ t0.
          and_then
            (λ t1.
              and_then
                (λ success.
                  and_then (λ b. ok (success, b)) (test_block g now0 g' now1 public_key t0))
                (same_target t1.outputs t0.outputs))
            (decode_and_verify (Tx.serialize t0) t0.sig public_key))
        (construct_and_sign now rng (dummy_input ∷ []) (dummy_output target ∷ []) public_key
          private_key)

  -- What the random pool yields to the two loads, to the generator and to the signer, what the clock says,
  -- and what is in memory.
  pub record Chance : Type 0 where
    pub load_public : ℕ
    pub load_private : ℕ
    pub generate : ℕ
    pub check_private : ℕ
    pub check_public : ℕ
    pub sign : ℕ
    pub now : ℕ
    pub now0 : ℕ
    pub now1 : ℕ
    pub memory0 : Garbage
    pub memory1 : Garbage

  -- `test_transactions`, with the files that it finds.
  unfoldable pub test_transactions : Dsa → Chance → Dict Bytes → Outcome (Bool × Bool)
  unfolding check_transactions load_key generate_keys
  test_transactions d r files =
      and_then
        (λ public_key.
          and_then
            (λ private_key.
              and_then
                (λ target.
                  check_transactions public_key private_key target.0 r.now r.sign r.memory0 r.now0
                    r.memory1 r.now1)
                (generate_keys d r.generate r.check_private r.check_public))
            (load_key d.private_type r.load_private private_file files))
        (load_key d.public_type r.load_public public_file files)
